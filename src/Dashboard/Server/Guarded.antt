-- ===== src/Dashboard/Server/Guarded.antt =====
-- Without a live session, or from a foreign page, a request to the dashboard changes nothing.
use patrabahok.Base.{
  ◌&&◌, not, ◌≢◌, ◌≡◌, refl, ◌⊎◌, inl, inr, Bool, true, false, Option, none, some, Bool-cases,
}
use patrabahok.Base.Text.{Text, is_empty}
use patrabahok.Address.{Result, ok, err}
use patrabahok.Db.{Env, State, M}
use patrabahok.Db.Rules.{Runs, Runs-pure, Runs-attempt-bind, Runs-query-bind, Runs_mono}
use patrabahok.Admins.{AdminUser, session_user, hash_session_token, verify_session}
use patrabahok.Dashboard.{
  UrlHost, View, to_login, failed, Visitor, Incoming, is_cross_origin, secure, admit_visitor,
  check_cookie, require_auth,
}
use patrabahok.Dashboard.Server.{
  is_safe_action, open_page, ℤ, Argon2, Action, Page, is_safe_page, act, serve_page,
}

-- An error 403 or a redirect to the login page, and the state as it was.
abbrev pub Stopped : State → Result View → State → Type 0
Stopped s (ok (failed status)) t = (status ≡ 403) × (t ≡ s)
Stopped s (ok (to_login cleared)) t = t ≡ s
Stopped s (ok _) t = ⊥
Stopped s (err e) t = ⊥

module _ ⦃env : Env⦄ where
  -- The cookie is that of no live session.
  abbrev pub HasNoSession : Incoming → State → Type 0
  HasNoSession req s =
      (token : Text) → req.cookie ≡ some token → session_user (hash_session_token token) s ≡ none

  NoUser : State → Result (Option AdminUser) → State → Type 0
  NoUser s r t = (t ≡ s) × ((u : AdminUser) → r ≢ ok (some u))

  verify_session-NoUser :
      (s : State) (token : Text)
      → session_user (hash_session_token token) s ≡ none
      → Runs s (verify_session token) (NoUser s)
  unfolding verify_session NoUser
  verify_session-NoUser s token gone = elim (Bool-cases (is_empty token)) [
    | inl e ↦ rw e (Runs-pure (NoUser s) none (refl, λ u h. cc))
    | inr e ↦ rw e (
        Runs-query-bind (NoUser s) (session_user (hash_session_token token)) _ (refl, λ u h. cc)
          (rw gone (Runs-pure (NoUser s) none (refl, λ u h. cc))))
  ]

  admit_visitor-Stopped :
      (s : State) (remote : Text) (h : Visitor → M View)
      → (r : Result (Option AdminUser)) (t : State) → NoUser s r t
      → Runs t (admit_visitor remote h r) (Stopped s)
  unfolding admit_visitor NoUser
  admit_visitor-Stopped s remote h (err e) t (k, nobody) = Runs-pure (Stopped s) _ k
  admit_visitor-Stopped s remote h (ok none) t (k, nobody) = Runs-pure (Stopped s) _ k
  admit_visitor-Stopped s remote h (ok (some u)) t (k, nobody) = absurd (nobody u refl)

  check_cookie-Stopped :
      (s : State) (remote : Text) (h : Visitor → M View) (cookie : Option Text)
      → ((token : Text) → cookie ≡ some token → session_user (hash_session_token token) s ≡ none)
      → Runs s (check_cookie remote h cookie) (Stopped s)
  unfolding check_cookie
  check_cookie-Stopped s remote h none gone = Runs-pure (Stopped s) _ refl
  check_cookie-Stopped s remote h (some token) gone =
      Runs-attempt-bind (Stopped s) (verify_session token) _ (
        Runs_mono (admit_visitor-Stopped s remote h)
          (verify_session-NoUser s token (gone token refl)))

  secure-Stopped :
      (s : State) (url_host : UrlHost) (is_safe : Bool) (req : Incoming) (h : M View)
      → Runs s h (Stopped s)
      → Runs s (secure url_host is_safe req h) (Stopped s)
  unfolding secure
  secure-Stopped s url_host is_safe req h next =
      elim (Bool-cases (not is_safe && is_cross_origin url_host req)) [
        | inl e ↦ rw e (Runs-pure (Stopped s) _ (refl, refl))
        | inr e ↦ rw e next
      ]

  -- If a request to the dashboard is not of a safe method and comes from a page of another host,
  -- or if it is one for a visitor who is signed in and its cookie is that of no live session,
  -- then whatever calls fail, it is answered with the error 403 or with a redirect to the login
  -- page, and the state stays as it was.
  pub serve_page-Stopped :
      (argon : Argon2) (show_bytes : ℤ → Text) (url_host : UrlHost) (s : State) (req : Incoming)
      (page : Page)
      → (is_safe_page page ≡ false) × (is_cross_origin url_host req ≡ true)
        ⊎ ((action : Action) × (page ≡ Page.signed_in action) × HasNoSession req s)
      → Runs s (serve_page argon show_bytes url_host req page) (Stopped s)
  unfolding serve_page secure open_page require_auth
  serve_page-Stopped argon show_bytes url_host s req page (inl (unsafe, crosses)) =
      rw (unsafe, crosses) (Runs-pure (Stopped s) _ (refl, refl))
  serve_page-Stopped argon show_bytes url_host s req page (inr (action, is_it, gone)) = rw is_it (
      secure-Stopped s url_host (is_safe_action action) req _ (
        check_cookie-Stopped s req.remote_addr (act argon show_bytes req.user_agent action)
          req.cookie gone))
