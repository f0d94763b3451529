-- ===== src/Dashboard/Server/Parts.antt =====
-- What stands around the handlers of the dashboard always answers, and keeps what depends on the
-- tables of the mail server only.
use patrabahok.Base.{Bool, Option, none, some, ℕ}
use patrabahok.Base.Text.{Text}
use patrabahok.Address.{Error, Result, ok, err}
use patrabahok.Db.{Env, State, M}
use patrabahok.Db.Keeps.{Keeps}
use patrabahok.Db.Answers.{Answers, pure-Answers, attempt-Answers, if-Answers, bind-Answers}
use patrabahok.Admins.{AdminUser}
use patrabahok.Invariant.{IsValid, IsValid-aside}
use patrabahok.Aside.{SameMail, log_change-Answers, verify_session-Keeps}
use patrabahok.Dashboard.{
  View, or_fail, change, with_form, Visitor, record_act, recorded, Incoming, secure, admit_visitor,
  check_cookie, require_auth, UrlHost,
}
use patrabahok.Dashboard.Accounts.{}

module _ (P : State → Type 0) where
  or_fail-Answers :
      {A : Type 0} (status : Error → ℕ) (k : A → M View)
      → ((a : A) → Answers P (k a))
      → (r : Result A) → Answers P (or_fail status k r)
  unfolding or_fail
  or_fail-Answers status k next (ok a) = next a
  or_fail-Answers status k next (err e) = pure-Answers P _

  pub change-Answers :
      {A : Type 0} (m : M A) (status : Error → ℕ) (k : A → M View)
      → Keeps P m
      → ((a : A) → Answers P (k a))
      → Answers P (change m status k)
  unfolding change
  change-Answers m status k keep next = attempt-Answers P m _ keep (or_fail-Answers status k next)

  pub with_form-Answers :
      {A : Type 0} (form : Option A) (k : A → M View)
      → ((f : A) → Answers P (k f))
      → Answers P (with_form form k)
  unfolding with_form
  with_form-Answers none k next = pure-Answers P _
  with_form-Answers (some f) k next = next f

  pub secure-Answers :
      (url_host : UrlHost) (is_safe : Bool) (req : Incoming) (h : M View)
      → Answers P h
      → Answers P (secure url_host is_safe req h)
  unfolding secure
  secure-Answers url_host is_safe req h next = if-Answers P _ _ _ (pure-Answers P _) next

module _ ⦃env : Env⦄ (P : State → Type 0) (aside : (s t : State) → SameMail s t → P s → P t) where
  pub record_act-Answers :
      (v : Visitor) (action target detail : Text) → Answers P (record_act v action target detail)
  unfolding record_act
  record_act-Answers v action target detail = log_change-Answers P aside _ _ _ _ _

  pub recorded-Answers :
      (v : Visitor) (action target detail : Text) → Answers P (recorded v action target detail)
  unfolding recorded
  recorded-Answers v action target detail =
      bind-Answers P _ _ (record_act-Answers v action target detail) (λ a. pure-Answers P _)

  admit_visitor-Answers :
      (remote : Text) (h : Visitor → M View)
      → ((v : Visitor) → Answers P (h v))
      → (r : Result (Option AdminUser)) → Answers P (admit_visitor remote h r)
  unfolding admit_visitor
  admit_visitor-Answers remote h next (err e) = pure-Answers P _
  admit_visitor-Answers remote h next (ok none) = pure-Answers P _
  admit_visitor-Answers remote h next (ok (some u)) = next _

  check_cookie-Answers :
      (remote : Text) (h : Visitor → M View) (cookie : Option Text)
      → ((v : Visitor) → Answers P (h v))
      → Answers P (check_cookie remote h cookie)
  unfolding check_cookie
  check_cookie-Answers remote h none next = pure-Answers P _
  check_cookie-Answers remote h (some token) next =
      attempt-Answers P _ _ (verify_session-Keeps P aside token)
        (admit_visitor-Answers remote h next)

  pub require_auth-Answers :
      (req : Incoming) (h : Visitor → M View)
      → ((v : Visitor) → Answers P (h v))
      → Answers P (require_auth req h)
  unfolding require_auth
  require_auth-Answers req h next = check_cookie-Answers req.remote_addr h req.cookie next

module _ ⦃env : Env⦄ where
  pub IsValid-other : (s t : State) → SameMail s t → IsValid s → IsValid t
  IsValid-other s t (d, u, a, g, m) h = IsValid-aside s t d u a g m h
