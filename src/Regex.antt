-- ===== src/Regex.antt =====
-- The part of Go's package regexp that the source uses: patterns anchored at both ends, over ASCII
-- classes. A pattern is run by derivatives; Regex/Exact relates the run to the language.
pub mod Exact
pub mod Only
use patrabahok.Base.{
  ℕ, zero, suc, ◌≡◌, Bool, true, false, ◌&&◌, ◌||◌, ◌⊎◌, List, [], ◌∷◌, ◌++◌, if◌then◌else◌,
}
use patrabahok.Base.Text.{Text}

pub data Regex : Type 0 where
  empty epsilon : Regex
  one : (ℕ → Bool) → Regex
  seq alt : Regex → Regex → Regex
  star : Regex → Regex

-- a?, a+, a{0,n}, a{2,}
abbrev pub opt : Regex → Regex
opt r = alt epsilon r

abbrev pub plus : Regex → Regex
plus r = seq r (star r)

unfoldable pub upto : ℕ → Regex → Regex
upto zero r = epsilon
upto (suc n) r = alt epsilon (seq r (upto n r))

abbrev pub two_or_more : Regex → Regex
two_or_more r = seq r (plus r)

unfoldable pub nullable : Regex → Bool
nullable empty = false
nullable epsilon = true
nullable (one p) = false
nullable (seq a b) = nullable a && nullable b
nullable (alt a b) = nullable a || nullable b
nullable (star a) = true

-- What can match nothing is dropped, so that derivatives stay small.
seq_of : Regex → Regex → Regex
seq_of empty b = empty
seq_of epsilon b = b
seq_of a b = seq a b

alt_of : Regex → Regex → Regex
alt_of empty b = b
alt_of a empty = a
alt_of a b = alt a b

-- What may follow the byte `c` in a match.
unfoldable pub after : ℕ → Regex → Regex
unfolding seq_of alt_of
after c empty = empty
after c epsilon = empty
after c (one p) = if p c then epsilon else empty
after c (seq a b) =
    let first = seq_of (after c a) b in
    let second = alt_of first (after c b) in if nullable a then second else first
after c (alt a b) = alt_of (after c a) (after c b)
after c (star a) = seq_of (after c a) (star a)

-- re.MatchString
unfoldable pub match_string : Regex → Text → Bool
unfolding nullable after
match_string r [] = nullable r
match_string r (c ∷ s) = match_string (after c r) s

pub data Repeats (P : Text → Type 0) : Text → Type 0 where
  stop : {s : Text} → s ≡ [] → Repeats P s
  more : {s : Text} (u v : Text) → s ≡ u ++ v → P u → Repeats P v → Repeats P s

-- The language of a pattern, with no reference to the matcher.
abbrev pub Lang : Regex → Text → Type 0
Lang empty s = ⊥
Lang epsilon s = s ≡ []
Lang (one p) s = (c : ℕ) × (s ≡ c ∷ []) × (p c ≡ true)
Lang (seq a b) s = (u : Text) × (v : Text) × (s ≡ u ++ v) × Lang a u × Lang b v
Lang (alt a b) s = Lang a s ⊎ Lang b s
Lang (star a) s = Repeats (Lang a) s
