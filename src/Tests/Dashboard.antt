-- ===== src/Tests/Dashboard.antt =====
-- Requests to the dashboard at concrete tables.
use patrabahok.Admins.{session_user, hash_session_token, is_live}
use patrabahok.Keys.{hex}
use patrabahok.Base.{subst, ◌≡◌, refl, none, some, [], inr}
use patrabahok.Base.Text.{Text, codes, text_eq, to_lower}
use patrabahok.Base.Table.{row_where}
use patrabahok.Base.Int.{ℤ}
use patrabahok.Db.{same}
use patrabahok.Db.Rules.{Runs}
use patrabahok.Db.Answers.{Answered}
use patrabahok.Invariant.{IsValid}
use patrabahok.Invariant.History.{reachable-IsValid}
use patrabahok.Dashboard.{Incoming, UrlHost}
use patrabahok.Dashboard.Server.{Action, Page, serve_page}
use patrabahok.Dashboard.Server.Guarded.{Stopped, HasNoSession, serve_page-Stopped}
use patrabahok.Dashboard.Server.Tables.{serve_page-IsValid}
use patrabahok.Tests.Data.{plain, grown, grown_reachable}
use patrabahok.Tests.Admins.{toy_argon, dashboard}

-- A form without the header Origin, and a cookie that is made up.
abbrev guess : Incoming
guess = record {
  origin = [];
  host = codes "mail.a.org";
  cookie = some (codes "guess");
  remote_addr = codes "10.0.0.9:4711";
  user_agent = codes "curl";
}

abbrev no_host : UrlHost
no_host = λ url. none

abbrev blank : ℤ → Text
blank = λ n. []

guess_opens_nothing : session_user (hash_session_token (codes "guess")) dashboard ≡ none
unfolding session_user row_where is_live same text_eq to_lower hash_session_token hex
guess_opens_nothing = refl

no_such_session : HasNoSession guess dashboard
no_such_session token h =
    let is_it : codes "guess" ≡ token = cc h in
    subst (λ (x : Text). session_user (hash_session_token x) dashboard ≡ none) is_it
      guess_opens_nothing

serve_page-Stopped_example :
    Runs dashboard
      (serve_page toy_argon blank no_host guess
        (Page.signed_in (Action.delete_admin (codes "root"))))
      (Stopped dashboard)
serve_page-Stopped_example =
    serve_page-Stopped toy_argon blank no_host dashboard guess
      (Page.signed_in (Action.delete_admin (codes "root")))
      (inr (Action.delete_admin (codes "root"), refl, no_such_session))

serve_page-IsValid_example :
    Runs grown
      (serve_page toy_argon blank no_host guess
        (Page.signed_in (Action.delete_domain (codes "a.org") (codes "a.org"))))
      (Answered IsValid)
serve_page-IsValid_example =
    serve_page-IsValid toy_argon blank no_host grown guess
      (Page.signed_in (Action.delete_domain (codes "a.org") (codes "a.org")))
      (reachable-IsValid grown grown_reachable)
