-- ===== src/Crypt/Cycle.antt =====
-- What repeatTo of cli/internal/mailbox/sha512crypt.go makes of a digest.
use patrabahok.Base.{
  ℕ, zero, suc, ◌+◌, ◌-◌, ◌*◌, ◌%◌, ◌<◌, ◌≤◌, ◌≡◌, refl, ap, sym, ◌∙◌, [], ◌∷◌, ◌++◌, ltb, leb,
  arith, inl, inr, Bool-cases, length, take, length-append,
}
use native.Mathlib.Nat.{mul-add-mod_self_left, mod-eq_of_lt, mul-suc}
use patrabahok.Base.Text.{Text}
use patrabahok.Crypt.{byte_at, repeat_from, repeat_to}

length-take_all : (k : ℕ) (d : Text) → length d ≤ k → length (take k d) ≡ length d
length-take_all zero [] h = refl
length-take_all (suc k) [] h = refl
length-take_all zero (b ∷ d) h = absurd (omega arith)
length-take_all (suc k) (b ∷ d) h = ap suc (length-take_all k d (omega arith))

pub length-take_some : (k : ℕ) (d : Text) → k ≤ length d → length (take k d) ≡ k
length-take_some zero d h = refl
length-take_some (suc k) [] h = absurd (omega arith)
length-take_some (suc k) (b ∷ d) h = ap suc (length-take_some k d (omega arith))

byte_at-take :
    (k : ℕ) (d : Text) (j : ℕ) → j < length (take k d) → byte_at (take k d) j ≡ byte_at d j
unfolding byte_at
byte_at-take zero d j h = absurd (omega arith)
byte_at-take (suc k) [] j h = refl
byte_at-take (suc k) (b ∷ d) zero h = refl
byte_at-take (suc k) (b ∷ d) (suc j) h = byte_at-take k d j (omega arith)

byte_at-append_left : (u v : Text) (i : ℕ) → i < length u → byte_at (u ++ v) i ≡ byte_at u i
unfolding byte_at
byte_at-append_left [] v i h = absurd (omega arith)
byte_at-append_left (b ∷ u) v zero h = refl
byte_at-append_left (b ∷ u) v (suc i) h = byte_at-append_left u v i (omega arith)

byte_at-append_right : (u v : Text) (j : ℕ) → byte_at (u ++ v) (length u + j) ≡ byte_at v j
unfolding byte_at
byte_at-append_right [] v j = ap (byte_at v) (omega arith)
byte_at-append_right (b ∷ u) v j =
    let next : suc (length u) + j ≡ suc (length u + j) = omega arith in
    ap (byte_at (b ∷ (u ++ v))) next ∙ byte_at-append_right u v j

-- Each byte is the one of the digest at its index, modulo the length of the digest.
abbrev pub IsCyclic : Text → Text → Type 0
IsCyclic d out = (i : ℕ) → i < length out → byte_at out i ≡ byte_at d (i % length d)

length_le_take : (k : ℕ) (d : Text) → length (take k d) ≤ length d
length_le_take zero d = omega arith
length_le_take (suc k) [] = omega arith
length_le_take (suc k) (b ∷ d) = let rest = length_le_take k d in omega arith

append-IsCyclic :
    (d out : Text) (q k : ℕ)
    → length out ≡ length d * q
    → IsCyclic d out
    → IsCyclic d (out ++ take k d)
append-IsCyclic d out q k whole cyclic i h = elim (Bool-cases (ltb i (length out))) [
  | inl old ↦ byte_at-append_left out (take k d) i (ground arith) ∙ cyclic i (ground arith)
  | inr new ↦
      let j = i - length out in
      let here : i ≡ length out + j = ground arith in
      let sized = length-append out (take k d) in
      let inside : j < length (take k d) = ground arith in
      let bound = length_le_take k d in
      let wrapped =
        ap (λ t. (t + j) % length d) whole
        ∙ mul-add-mod_self_left (length d) q j
        ∙ mod-eq_of_lt (ground arith) in
      ap (byte_at (out ++ take k d)) here
      ∙ byte_at-append_right out (take k d) j
      ∙ byte_at-take k d j inside
      ∙ ap (byte_at d) (sym (ap (λ t. t % length d) here ∙ wrapped))
]

-- With a fuel of the bytes that are missing the loop gives n bytes.
repeat_from_lem :
    (fuel : ℕ) (d : Text) (n : ℕ) (out : Text) (q : ℕ)
    → 0 < length d
    → n ≤ length out + fuel
    → length out ≤ n
    → (length out < n → length out ≡ length d * q)
    → IsCyclic d out
    → (length (repeat_from fuel d n out) ≡ n) × IsCyclic d (repeat_from fuel d n out)
unfolding repeat_from
repeat_from_lem zero d n out q some_byte enough short whole cyclic = (omega arith, cyclic)
repeat_from_lem (suc fuel) d n out q some_byte enough short whole cyclic =
    elim (Bool-cases (ltb (length out) n)) [
      | inr done ↦ rw done (ground arith, cyclic)
      | inl more ↦
          let here : length out ≡ length d * q = whole (ground arith) in
          let below : length out < n = ground arith in
          let k = n - length out in
          let sized = length-append out (take k d) in
          let next = append-IsCyclic d out q k here cyclic in
          rw more (elim (Bool-cases (leb (length d) k)) [
            | inl full ↦
                let all_of_it = length-take_all k d (ground arith) in
                let grown : length d * suc q ≡ length d * q + length d = mul-suc (length d) q in
                repeat_from_lem fuel d n (out ++ take k d) (suc q) some_byte (omega arith)
                  (ground arith) (λ h. omega arith) next
            | inr part ↦
                let some_of_it = length-take_some k d (ground arith) in
                repeat_from_lem fuel d n (out ++ take k d) q some_byte (omega arith) (omega arith)
                  (λ h. absurd (omega arith)) next
          ])
    ]

-- For a digest with a byte in it the result has the length that is asked for, and each of its
-- bytes is the one of the digest at its index modulo the length of the digest.
pub repeat_to-IsCyclic :
    (d : Text) (n : ℕ) → 0 < length d → (length (repeat_to d n) ≡ n) × IsCyclic d (repeat_to d n)
unfolding repeat_to
repeat_to-IsCyclic d n some_byte =
    repeat_from_lem n d n [] 0 some_byte (omega arith) (omega arith) (λ h. omega arith)
      (λ i h. absurd (omega arith))
