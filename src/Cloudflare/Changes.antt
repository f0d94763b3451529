-- ===== src/Cloudflare/Changes.antt =====
-- What one change of a record leaves alone in its zone.
use patrabahok.Base.{
  ◌≡◌, refl, ap, sym, ◌∙◌, subst, inl, inr, Bool, true, false, Option, none, some, List, [], ◌∷◌,
  any, length, All, Bool-cases, arith, length-append,
}
use mathlib.Core.Bool.{false≢true}
use patrabahok.Base.Text.{Text, text_eq, text_eq_iff}
use patrabahok.Cloudflare.{
  DnsRecord, Api, ApplyAction, done_or_failed, change_one, single_host_found,
}
use patrabahok.Cloudflare.Zone.{
  Among, Among-append, Among-map, length-map, replaced, IsService, KeptBut, same-KeptBut,
}

module _ {Z : Type 0} (records : Z → List DnsRecord) (T : DnsRecord → Bool) where
  -- A step of the program from one state of the service to another.
  abbrev pub Keeping : Z → Z → Type 0
  Keeping z z1 = KeptBut T (records z) (records z1)

module _ {Z : Type 0} (api : Api Z) (records : Z → List DnsRecord) (service : IsService api records)
    (T : DnsRecord → Bool) where
  pub create-Keeping : (new : DnsRecord) (z : Z) → Keeping records T z (api.create_record new z).1
  create-Keeping new z = elim (service.creates new z) [
    | inl e ↦ same-KeptBut T _ _ e
    | inr p ↦ record {
      still = λ x m f. subst (Among x) (sym p.1) (Among-append x (records z) _ m);
      no_fewer =
          let more = ap length p.1 in
          let sized = length-append (records z) (p.0 ∷ []) in omega arith;
    }
  ]

  -- The record with the id is a target.
  update-Keeping :
      (r new : DnsRecord) (z : Z)
      → Among r (records z)
      → T r ≡ true
      → Keeping records T z (api.update_record r.id new z).1
  update-Keeping r new z there is_one = elim (service.updates r.id new z) [
    | inl e ↦ same-KeptBut T _ _ e
    | inr e ↦ record {
      still = λ x m f.
          subst (Among x) (sym e) (Among-map (replaced r.id new) x (records z) (other x m f) m);
      no_fewer =
          let same = ap length e in
          let sized = length-map (replaced r.id new) (records z) in omega arith;
    }
  ]
    where
      other : (x : DnsRecord) → Among x (records z) → T x ≡ false → replaced r.id new x ≡ x
      other x m f = elim (Bool-cases (text_eq x.id r.id)) [
        | inl e ↦ absurd (
            false≢true (
              sym f ∙ ap T (service.one_each z x r m there ((text_eq_iff x.id r.id).0 e)) ∙ is_one))
        | inr e ↦ rw e refl
      ]

  pub done_or_failed-state :
      (label : Text) (a : ApplyAction) (p : Bool × Z) → (done_or_failed api label a p).1 ≡ p.1
  unfolding done_or_failed
  done_or_failed-state label a (true, z) = refl
  done_or_failed-state label a (false, z) = refl

  change_one-Keeping :
      (label : Text) (rs : List DnsRecord) (new : DnsRecord) (z : Z)
      → All (λ r. Among r (records z) × (T r ≡ true)) rs
      → Keeping records T z (change_one api label rs new z).1
  unfolding change_one
  change_one-Keeping label [] new z h = rw done_or_failed-state (create-Keeping new z)
  change_one-Keeping label (r ∷ []) new z ((there, is_one), h) =
      rw done_or_failed-state (update-Keeping r _ z there is_one)
  change_one-Keeping label (r ∷ (x ∷ rs)) new z h = same-KeptBut T _ _ refl

  pub single_host_found-Keeping :
      (label : Text) (new : DnsRecord) (p : Option (List DnsRecord) × Z)
      → ((rs : List DnsRecord) → p.0 ≡ some rs → All (λ r. Among r (records p.1) × (T r ≡ true)) rs)
      → Keeping records T p.1 (single_host_found api label new p).1
  unfolding single_host_found
  single_host_found-Keeping label new (none, z) h = same-KeptBut T _ _ refl
  single_host_found-Keeping label new (some rs, z) h =
      elim (Bool-cases (any (λ r. text_eq r.content new.content) rs)) [
        | inl e ↦ rw e (same-KeptBut T _ _ refl)
        | inr e ↦ rw e (change_one-Keeping label rs new z (h rs refl))
      ]
