-- ===== src/PublicApi/Server/Refusal.antt =====
-- Without a key of the path's domain a request is refused and changes nothing.
use patrabahok.Base.{
  inr, inl, ◌≡◌, refl, sym, ap, ◌∙◌, true, false, Option, none, some, [], ◌∷◌, any, ◌==◌,
  Bool-cases,
}
use patrabahok.Base.Text.{Text, to_lower, is_empty, has_prefix, equal_fold}
use patrabahok.Address.{Result, ok, err}
use patrabahok.Db.{Env, State, DomainRow, M, exec}
use patrabahok.Db.Rules.{Runs, Runs-pure, Runs-attempt-bind, Runs-exec, Runs-query-bind, Runs_mono}
use patrabahok.Keys.{verify, verified, mark_key, key_prefix, domain_with_key}
use patrabahok.PublicApi.{
  Response, error_message, Credentials, Caller, presented_key, admit, auth, refuse,
}
use patrabahok.PublicApi.Server.{Endpoint, handle, serve}

-- An answer 401, 403 or 500, and a state that is the old one outside the table of the keys.
abbrev pub Refused : State → Result Response → State → Type 0
Refused s (ok a) t =
    (any (λ n. a.status == n) (401 ∷ 403 ∷ 500 ∷ []) ≡ true)
    × (a.payload ≡ error_message)
    × (record t { keys = s.keys } ≡ s)
Refused s (err e) t = ⊥

-- What Verify says of a key whose row has the domain `found`.
abbrev Says : State → Option DomainRow → Result (Option Text) → State → Type 0
Says s found (err e) t = record t { keys = s.keys } ≡ s
Says s found (ok none) t = record t { keys = s.keys } ≡ s
Says s found (ok (some name)) t =
    (d : DomainRow) × (found ≡ some d) × (d.name ≡ name) × (record t { keys = s.keys } ≡ s)

module _ ⦃env : Env⦄ where
  verified-Says : (s : State) (found : Option DomainRow) → Runs s (verified found) (Says s found)
  unfolding verified mark_key
  verified-Says s none = Runs-pure (Says s none) none refl
  verified-Says s (some d) = Runs-attempt-bind (Says s (some d)) (exec (mark_key d.id)) _ (
      Runs-exec _ (mark_key d.id) (Runs-pure (Says s (some d)) _ (d, refl, refl, refl))
        (Runs-pure (Says s (some d)) _ (d, refl, refl, refl)))

  verify-Says : (s : State) (key : Text) → Runs s (verify key) (Says s (domain_with_key key s))
  unfolding verify
  verify-Says s key = elim (Bool-cases (has_prefix key_prefix key)) [
    | inl e ↦ rw e (
        Runs-query-bind (Says s (domain_with_key key s)) (domain_with_key key) _ refl
          (verified-Says s (domain_with_key key s)))
    | inr e ↦ rw e (Runs-pure (Says s (domain_with_key key s)) none refl)
  ]

  refuse-Refused :
      (s t : State) (status : _)
      → any (λ n. status == n) (401 ∷ 403 ∷ 500 ∷ []) ≡ true
      → record t { keys = s.keys } ≡ s
      → Runs t (refuse status) (Refused s)
  refuse-Refused s t status k h = Runs-pure (Refused s) _ (k, refl, h)

  admit-Refused :
      (s : State) (c : Credentials) (h : Caller → M Response) (found : Option DomainRow)
      → ((d : DomainRow) → found ≡ some d → equal_fold d.name (to_lower c.path_domain) ≡ false)
      → (r : Result (Option Text)) (t : State) → Says s found r t
      → Runs t (admit c h r) (Refused s)
  unfolding admit
  admit-Refused s c h found foreign (err e) t k = refuse-Refused s t 500 refl k
  admit-Refused s c h found foreign (ok none) t k = refuse-Refused s t 401 refl k
  admit-Refused s c h found foreign (ok (some name)) t (d, is_it, named, k) =
      rw (sym (ap (λ x. equal_fold x (to_lower c.path_domain)) named) ∙ foreign d is_it)
        (refuse-Refused s t 403 refl k)

  -- If the presented key is that of no domain, or of a domain other than the one of the path,
  -- then whatever calls fail, the request is answered with an error of status 401, 403 or 500,
  -- and nothing of the state changes outside the table of the keys.
  pub serve-Refused :
      (s : State) (c : Credentials) (endpoint : Endpoint)
      → ((d : DomainRow)
          → domain_with_key (presented_key c) s ≡ some d
          → equal_fold d.name (to_lower c.path_domain) ≡ false)
      → Runs s (serve c endpoint) (Refused s)
  unfolding serve auth
  serve-Refused s c endpoint foreign = elim (Bool-cases (is_empty (presented_key c))) [
    | inl e ↦ rw e (refuse-Refused s s 401 refl refl)
    | inr e ↦ rw e (
        Runs-attempt-bind (Refused s) (verify (presented_key c)) _ (
          Runs_mono (admit-Refused s c (handle endpoint) _ foreign)
            (verify-Says s (presented_key c))))
  ]
