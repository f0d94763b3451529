-- ===== src/Cloudflare/Zone.antt =====
-- The records of a zone and what the Cloudflare API documents of the calls on them.
use patrabahok.Base.{
  suc, ◌≤◌, ◌≡◌, refl, ap, sym, ◌∙◌, subst, ◌⊎◌, inl, inr, Bool, false, some, List, [], ◌∷◌, ◌++◌,
  map, if◌then◌else◌, length, All, arith,
}
use patrabahok.Base.Text.{Text, text_eq}
use patrabahok.Cloudflare.{DnsRecord, Api}

abbrev pub Among : DnsRecord → List DnsRecord → Type 0
Among x [] = ⊥
Among x (r ∷ rs) = (r ≡ x) ⊎ Among x rs

pub Among-append : (x : DnsRecord) (rs more : List DnsRecord) → Among x rs → Among x (rs ++ more)
Among-append x [] more h = absurd h
Among-append x (r ∷ rs) more (inl e) = inl e
Among-append x (r ∷ rs) more (inr h) = inr (Among-append x rs more h)

pub Among-map :
    (f : DnsRecord → DnsRecord) (x : DnsRecord) (rs : List DnsRecord)
    → f x ≡ x
    → Among x rs
    → Among x (map f rs)
Among-map f x [] same h = absurd h
Among-map f x (r ∷ rs) same (inl e) = inl (ap f e ∙ same)
Among-map f x (r ∷ rs) same (inr h) = inr (Among-map f x rs same h)

pub length-map : (f : DnsRecord → DnsRecord) (rs : List DnsRecord) → length (map f rs) ≡ length rs
length-map f [] = refl
length-map f (r ∷ rs) = ap suc (length-map f rs)

-- The record of an update, under the id that it had.
abbrev pub replaced : Text → DnsRecord → DnsRecord → DnsRecord
replaced id new r = if text_eq r.id id then record new { id = id } else r

-- What the service documents of its calls: a list holds records of the zone with the type and the
-- name, no two records share an id, a creation adds one record and an update replaces the one with
-- the id, and a call that fails may have done so or not.
pub record IsService {Z : Type 0} (api : Api Z) (records : Z → List DnsRecord) : Type 0 where
  pub list_keeps : (t n : Text) (z : Z) → records (api.list_records t n z).1 ≡ records z
  pub list_finds :
      (t n : Text) (z : Z) (rs : List DnsRecord)
      → (api.list_records t n z).0 ≡ some rs
      → All (λ r. Among r (records z) × (r.type ≡ t) × (r.name ≡ n)) rs
  pub one_each :
      (z : Z) (x y : DnsRecord) → Among x (records z) → Among y (records z) → x.id ≡ y.id → x ≡ y
  pub creates :
      (new : DnsRecord) (z : Z)
      → (records (api.create_record new z).1 ≡ records z)
        ⊎ ((x : DnsRecord) × (records (api.create_record new z).1 ≡ records z ++ x ∷ []))
  pub updates :
      (id : Text) (new : DnsRecord) (z : Z)
      → (records (api.update_record id new z).1 ≡ records z)
        ⊎ (records (api.update_record id new z).1 ≡ map (replaced id new) (records z))

-- Every record but the targets stands as it was, and there are no fewer.
pub record KeptBut (target : DnsRecord → Bool) (before after : List DnsRecord) : Type 0 where
  pub still : (x : DnsRecord) → Among x before → target x ≡ false → Among x after
  pub no_fewer : length before ≤ length after

module _ (T : DnsRecord → Bool) where
  pub same-KeptBut : (rs ss : List DnsRecord) → ss ≡ rs → KeptBut T rs ss
  same-KeptBut rs ss e = record {
    still = λ x h f. subst (Among x) (sym e) h;
    no_fewer = let same = ap length e in omega arith;
  }

  pub KeptBut-trans :
      (rs ss ts : List DnsRecord) → KeptBut T rs ss → KeptBut T ss ts → KeptBut T rs ts
  KeptBut-trans rs ss ts h k = record {
    still = λ x m f. k.still x (h.still x m f) f;
    no_fewer = let a = h.no_fewer in let b = k.no_fewer in omega arith;
  }
