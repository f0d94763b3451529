-- ===== src/Groups/Results.antt =====
-- What GroupAddMembers reports: one result for each address that is not blank, in their order, and
-- whoever is reported as added is a member.
use patrabahok.Base.{
  ◌⊎◌, inr, inl, ℕ, ◌≡◌, refl, sym, ap, ◌∙◌, true, false, ◌&&◌, ◌||◌, not, Option, none, some, List,
  [], ◌∷◌, ◌++◌, map, if◌then◌else◌, any, ◌==◌, All, All-append, All-mono, Bool-cases, arith,
}
use patrabahok.Base.Text.{Text, text_eq, text_eq_refl, to_lower, trim_space, is_empty}
use patrabahok.Base.Table.{any-append}
use patrabahok.Address.{Result, ok, err, database}
use patrabahok.Db.{Env, State, same}
use patrabahok.Db.Rules.{Runs, Runs-pure, Runs-seq, Runs-bind, Runs-exec-bind, Runs-query-bind}
use patrabahok.Domains.{kind_of, address_kind}
use patrabahok.Groups.{Group}
use patrabahok.Groups.Members.{
  Problem, MemberResult, upsert_member, is_member, problem_in, problem_with, finish_one, add_one,
  add_each,
}
use patrabahok.Invariant.Rows.{any-update_where, any-append_left}

-- The addresses that get a result, as they are compared and stored.
abbrev pub reported : List Text → List Text
reported [] = []
reported (a ∷ rest) =
    let more = reported rest in
    if is_empty (to_lower (trim_space a)) then more else to_lower (trim_space a) ∷ more

module _ ⦃env : Env⦄ where
  same_refl : (a : Text) → same a a ≡ true
  unfolding same
  same_refl a = text_eq_refl (env.weight a)

module _ ⦃env : Env⦄ (id : ℕ) where
  abbrev pub Grows : State → State → Type 0
  Grows s t = (a : Text) → is_member id a s ≡ true → is_member id a t ≡ true

  abbrev pub IsListed : State → MemberResult → Type 0
  IsListed t r = not r.added || is_member id r.address t ≡ true

  -- No member is lost, and on success the results are those of the addresses.
  abbrev pub Reports : List Text → State → Result (List MemberResult) → State → Type 0
  Reports addresses s (ok rs) t =
      (map (λ r. r.address) rs ≡ addresses) × All (IsListed t) rs × Grows s t
  Reports addresses s (err e) t = Grows s t

  upsert-Grows : (a role : Text) (s : State) → Grows s (upsert_member id a role s).1
  unfolding upsert_member is_member
  upsert-Grows a role s b h =
      elim (Bool-cases (any (λ m. m.group_id == id && same m.member a) s.members)) [
        | inl old ↦ rw old (any-update_where _ _ _ s.members (λ m. refl) ∙ h)
        | inr new ↦ rw new (any-append_left _ s.members _ h)
      ]

  upsert-is_member :
      (a role : Text) (s : State) → is_member id a (upsert_member id a role s).1 ≡ true
  unfolding upsert_member is_member
  upsert-is_member a role s =
      elim (Bool-cases (any (λ m. m.group_id == id && same m.member a) s.members)) [
        | inl old ↦ rw old (any-update_where _ _ _ s.members (λ m. refl) ∙ old)
        | inr new ↦ rw new (any-append _ s.members _ ∙ ground (arith, same_refl a))
      ]

  Grows-on : (s t u : State) → Grows s t → Grows t u → Grows s u
  Grows-on s t u g h a k = h a (g a k)

  IsListed-on :
      (t u : State)
      → Grows t u
      → (rs : List MemberResult) → All (IsListed t) rs
      → All (IsListed u) rs
  IsListed-on t u g rs h = All-mono (λ r k. still r (Bool-cases r.added) k) rs h
    where
      still :
          (r : MemberResult) → (r.added ≡ true) ⊎ (r.added ≡ false) → IsListed t r → IsListed u r
      still r (inl e) k =
          let there : is_member id r.address t ≡ true = ground arith in
          rw (e, g r.address there) refl
      still r (inr e) k = rw e refl

module _ ⦃env : Env⦄ (g : Group) where
  finish-Reports :
      (role a : Text) (p : Option Problem) (s : State)
      → Runs s (finish_one g role a p) (Reports g.id (a ∷ []) s)
  unfolding finish_one
  finish-Reports role a (some p) s =
      Runs-pure (Reports g.id (a ∷ []) s) _ (refl, (refl, tt), λ b h. h)
  finish-Reports role a none s =
      Runs-exec-bind (Reports g.id (a ∷ []) s) _ _ (λ b h. h)
        (Runs-pure (Reports g.id (a ∷ []) s) _
          (refl, (upsert-is_member g.id a role s, tt), upsert-Grows g.id a role s))

  problem-Runs :
      (hosted : List Text) (a : Text) (r : Result (Text × Text)) (s : State)
      (Q : Result (Option Problem) → State → Type 0)
      → Q (err database) s
      → ((p : Option Problem) → Q (ok p) s)
      → Runs s (problem_in g hosted a r) Q
  unfolding problem_in address_kind
  problem-Runs hosted a (err e) s Q bad next = Runs-pure Q _ (next _)
  problem-Runs hosted a (ok p) s Q bad next = elim (Bool-cases (text_eq a g.email)) [
    | inl e ↦ rw e (Runs-pure Q _ (next _))
    | inr e ↦ rw e (elim (Bool-cases (any (λ d. text_eq d p.1) hosted)) [
      | inl k ↦ rw k (Runs-query-bind Q (kind_of a) _ bad (Runs-pure Q _ (next _)))
      | inr k ↦ rw k (Runs-pure Q _ (next _))
    ])
  ]

  one-Reports :
      (hosted : List Text) (role address : Text) (s : State)
      → Runs s (add_one g hosted role address) (Reports g.id (reported (address ∷ [])) s)
  unfolding add_one problem_with
  one-Reports hosted role address s = elim (Bool-cases (is_empty (to_lower (trim_space address)))) [
    | inl e ↦ rw e (Runs-pure (Reports g.id [] s) _ (refl, tt, λ b h. h))
    | inr e ↦ rw e (
        Runs-bind (Reports g.id (to_lower (trim_space address) ∷ []) s) _ _ (
          problem-Runs hosted (to_lower (trim_space address)) _ s _ (λ b h. h)
            (λ p. finish-Reports role (to_lower (trim_space address)) p s)))
  ]

  reported-cons :
      (a : Text) (rest : List Text) → reported (a ∷ rest) ≡ reported (a ∷ []) ++ reported rest
  reported-cons a rest = elim (Bool-cases (is_empty (to_lower (trim_space a)))) [
    | inl e ↦ rw e refl
    | inr e ↦ rw e refl
  ]

  addresses-append :
      (rs ss : List MemberResult)
      → map (λ r. r.address) (rs ++ ss) ≡ map (λ r. r.address) rs ++ map (λ r. r.address) ss
  addresses-append [] ss = refl
  addresses-append (r ∷ rs) ss = ap (λ as_. r.address ∷ as_) (addresses-append rs ss)

  -- Whatever calls fail, adding addresses to a group loses no member of it. On success there is
  -- one result for each address that is not blank, in their order and lowered, and whoever is
  -- reported as added is a member.
  pub add_each-Reports :
      (hosted : List Text) (role : Text) (addresses : List Text) (s : State)
      → Runs s (add_each g hosted role addresses) (Reports g.id (reported addresses) s)
  unfolding add_each
  add_each-Reports hosted role [] s = Runs-pure (Reports g.id [] s) _ (refl, tt, λ b h. h)
  add_each-Reports hosted role (a ∷ rest) s =
      Runs-seq (Reports g.id (reported (a ∷ [])) s) (Reports g.id (reported (a ∷ rest)) s) _ _
        (one-Reports hosted role a s) (λ e t h. h)
        (λ first t h.
          Runs-seq (Reports g.id (reported rest) t) (Reports g.id (reported (a ∷ rest)) s) _ _
            (add_each-Reports hosted role rest t) (λ e u k. Grows-on g.id s t u h.2 k)
            (λ more u k. Runs-pure (Reports g.id (reported (a ∷ rest)) s) _ (
              addresses-append first more ∙ rw (h.0, k.0) (sym (reported-cons a rest)),
              All-append (IsListed g.id u) first more (IsListed-on g.id t u k.2 first h.1) k.1,
              Grows-on g.id s t u h.2 k.2,
            )))
