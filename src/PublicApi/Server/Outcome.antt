-- ===== src/PublicApi/Server/Outcome.antt =====
-- Every request is answered, and what the operations keep, the handlers keep.
use patrabahok.Base.{
  inr, inl, ℕ, ◌≡◌, refl, Bool, true, false, not, Option, none, some, if◌then◌else◌, Bool-cases,
}
use patrabahok.Base.Text.{has_prefix, Text, to_lower, trim_space, is_empty, equal_fold}
use patrabahok.Base.Int.{ℤ, is_positive}
use patrabahok.Address.{Result, ok, err}
use patrabahok.Db.{Env, State, M}
use patrabahok.Db.Rules.{Runs-attempt-bind, Runs_mono}
use patrabahok.Db.Answers.{Answered, Answers, pure-Answers, attempt-Answers, if-Answers}
use patrabahok.Db.Keeps.{Keeps, Keeps-pure, Keeps-query, Keeps-bind, Keeps-attempt, Keeps-exec}
use patrabahok.Keys.{verify, verified, mark_key, key_prefix}
use patrabahok.PublicApi.{
  presented_key, Response, Credentials, Caller, respond, respond_or, on_success, decoded,
  at_address, address, admit, auth,
}
use patrabahok.PublicApi.Store.{Within}
use patrabahok.PublicApi.Handlers.{with_quota}

module _ (P : State → Type 0) where
  pub respond-Answers : (status : ℕ) (payload : _) → Answers P (respond status payload)
  respond-Answers status payload = pure-Answers P _

  respond_or-Answers :
      {A : Type 0} (k : A → M Response)
      → ((a : A) → Answers P (k a))
      → (r : Result A) → Answers P (respond_or k r)
  unfolding respond_or
  respond_or-Answers k next (ok a) = next a
  respond_or-Answers k next (err e) = respond-Answers _ _

  pub on_success-Answers :
      {A : Type 0} (m : M A) (k : A → M Response)
      → Keeps P m
      → ((a : A) → Answers P (k a))
      → Answers P (on_success m k)
  unfolding on_success
  on_success-Answers m k keep next s h = attempt-Answers P m _ keep (respond_or-Answers k next) s h

  pub decoded-Answers :
      {A : Type 0} (o : Option A) (k : A → M Response)
      → ((a : A) → Answers P (k a))
      → Answers P (decoded o k)
  unfolding decoded
  decoded-Answers none k next = respond-Answers _ _
  decoded-Answers (some a) k next = next a

  pub with_quota-Answers :
      (r : Result ℤ) (k : ℤ → M Response) → ((q : ℤ) → Answers P (k q)) → Answers P (with_quota r k)
  unfolding with_quota
  with_quota-Answers (err e) k next = respond-Answers _ _
  with_quota-Answers (ok q) k next =
      if-Answers P (not (is_positive q)) _ _ (respond-Answers _ _) (next q)

  decoded-Within :
      (domain : Text) (o : Option Text) (k : Text → M Response)
      → ((e : Text) → o ≡ some e → Within domain e)
      → ((e : Text) → Within domain e → Answers P (k e))
      → Answers P (decoded o k)
  unfolding decoded
  decoded-Within domain none k inside next = respond-Answers _ _
  decoded-Within domain (some e) k inside next = next e (inside e refl)

  accepted : (b : Bool) (u e : Text) → (if b then none else some u) ≡ some e → e ≡ u
  accepted true u e h = cc
  accepted false u e h = cc

  address-Within : (domain username e : Text) → address domain username ≡ some e → Within domain e
  unfolding address
  address-Within domain username e h = (to_lower (trim_space username), accepted _ _ e h)

  pub at_address-Answers :
      (domain username : Text) (k : Text → M Response)
      → ((e : Text) → Within domain e → Answers P (k e))
      → Answers P (at_address domain username k)
  unfolding at_address
  at_address-Answers domain username k next =
      decoded-Within domain (address domain username) k (address-Within domain username) next

  -- The look-up of a key keeps what the mark of its use keeps.
  verified-Keeps :
      ⦃env : Env⦄ (found : Option _)
      → ((id : ℕ) (s : State) → P s → P (mark_key id s).1)
      → Keeps P (verified found)
  unfolding verified
  verified-Keeps none mark = Keeps-pure P _
  verified-Keeps (some d) mark =
      Keeps-bind P _ _ (Keeps-attempt P _ (Keeps-exec P _ (mark d.id))) (λ a. Keeps-pure P _)

  verify-Keeps :
      ⦃env : Env⦄ (key : Text)
      → ((id : ℕ) (s : State) → P s → P (mark_key id s).1)
      → Keeps P (verify key)
  unfolding verify
  verify-Keeps key mark = elim (Bool-cases (has_prefix key_prefix key)) [
    | inl e ↦ rw e (Keeps-bind P _ _ (Keeps-query P _) (λ a. verified-Keeps a mark))
    | inr e ↦ rw e (Keeps-pure P _)
  ]

  admit-Answers :
      ⦃env : Env⦄ (c : Credentials) (h : Caller → M Response)
      → ((caller : Caller)
          → equal_fold caller.domain (to_lower c.path_domain) ≡ true
          → Answers P (h caller))
      → (r : Result (Option Text)) → Answers P (admit c h r)
  unfolding admit
  admit-Answers c h next (err e) = respond-Answers _ _
  admit-Answers c h next (ok none) = respond-Answers _ _
  admit-Answers c h next (ok (some d)) = elim (Bool-cases (equal_fold d (to_lower c.path_domain))) [
    | inl e ↦ rw e (next (record { domain = d; remote_addr = c.remote_addr }) e)
    | inr e ↦ rw e (respond-Answers _ _)
  ]

  -- A request is answered as its handler answers it, for the domain of its key, or is refused.
  pub auth-Answers :
      ⦃env : Env⦄ (c : Credentials) (h : Caller → M Response)
      → ((id : ℕ) (s : State) → P s → P (mark_key id s).1)
      → ((caller : Caller)
          → equal_fold caller.domain (to_lower c.path_domain) ≡ true
          → Answers P (h caller))
      → Answers P (auth c h)
  unfolding auth
  auth-Answers c h mark next =
      if-Answers P (is_empty (presented_key c)) _ _ (respond-Answers _ _) (λ s p.
        Runs-attempt-bind (Answered P) _ _ (
          Runs_mono (λ r t q. admit-Answers c h next r t q)
            (verify-Keeps (presented_key c) mark s p)))
