-- ===== src/Dashboard/Import/Backed.antt =====
-- The users that an import lists as created have a mailbox.
use patrabahok.Base.{
  ◌≡◌, Bool, true, List, [], ◌∷◌, ◌++◌, any, All, All-append, All-mono, Bool-cases, inl, inr, arith,
}
use mathlib.Core.Bool.{false≢true}
use patrabahok.Base.Text.{Text, text_eq, text_eq_refl}
use patrabahok.Base.Table.{any-append}
use patrabahok.Address.{Result, ok, err}
use patrabahok.Db.{Env, State, UserRow}
use patrabahok.Base.Int.{ℤ}
use patrabahok.Aside.{SameMail}
use patrabahok.Mailboxes.Creation.{Created}
use patrabahok.Invariant.{IsValid}
use patrabahok.Dashboard.Server.Parts.{IsValid-other}
use patrabahok.Dashboard.Import.{ImportResult, ImportPage, add_result, add_skipped}

abbrev pub has_mailbox : Text → State → Bool
has_mailbox e t = any (λ u. text_eq u.email e) t.users

abbrev pub Backed : List ImportResult → State → Type 0
Backed rs t = All (λ r. r.created ≡ true → has_mailbox r.email t ≡ true) rs

Backed-grown :
    (rs : List ImportResult) (s t : State) (more : List UserRow)
    → t.users ≡ s.users ++ more
    → Backed rs s
    → Backed rs t
Backed-grown rs s t more grown h =
    All-mono (λ r k made. rw grown (rw any-append (let old = k made in ground arith))) rs h

-- Valid tables, in which the users that are listed as created have a mailbox.
pub record Sound ⦃env : Env⦄ (rs : List ImportResult) (t : State) : Type 0 where
  pub valid : IsValid t
  pub backed : Backed rs t

module _ ⦃env : Env⦄ where
  pub Sound-other : (rs : List ImportResult) (s t : State) → SameMail s t → Sound rs s → Sound rs t
  Sound-other rs s t (d, u, a, g, m) h = record {
    valid = IsValid-other s t (d, u, a, g, m) h.valid;
    backed = rw u h.backed;
  }

  -- What a creation made of the tables, whether it succeeded or not.
  pub Sound-Created :
      (rs : List ImportResult) (s t : State) (e name : Text) (quota : ℤ) (r : Result (Unit {0}))
      → Created s e name quota r t
      → IsValid t
      → Sound rs s
      → Sound rs t
  Sound-Created rs s t e name quota (ok a) (row, grown, is_it, named, sized) v h = record {
    valid = v;
    backed = Backed-grown rs s t (row ∷ []) grown h.backed;
  }
  Sound-Created rs s t e name quota (err x) (more, grown, rest) v h = record {
    valid = v;
    backed = Backed-grown rs s t more grown h.backed;
  }

  pub Created-has_mailbox :
      (s t : State) (e name : Text) (quota : ℤ) (a : Unit {0})
      → Created s e name quota (ok a) t
      → has_mailbox e t ≡ true
  Created-has_mailbox s t e name quota a (row, grown, is_it, named, sized) =
      let here : text_eq row.email e ≡ true = rw is_it (text_eq_refl e) in
      rw grown (rw any-append (ground arith))

pub add_result-Backed :
    (r : ImportResult) (page : ImportPage) (t : State)
    → (r.created ≡ true → has_mailbox r.email t ≡ true)
    → Backed page.results t
    → Backed (add_result r page).results t
unfolding add_result
add_result-Backed r page t k h = elim (Bool-cases r.created) [
  | inl e ↦ rw e (All-append _ page.results _ h ((λ m. k e), tt))
  | inr e ↦ rw e (All-append _ page.results _ h ((λ m. absurd (false≢true m)), tt))
]

pub add_skipped-Backed :
    (email name : Text) (page : ImportPage) (t : State)
    → Backed page.results t
    → Backed (add_skipped email name page).results t
unfolding add_skipped
add_skipped-Backed email name page t h =
    All-append _ page.results _ h ((λ m. absurd (false≢true m)), tt)
