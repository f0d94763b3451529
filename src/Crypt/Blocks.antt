-- ===== src/Crypt/Blocks.antt =====
-- The loop of sha512Crypt that writes a digest for the length of the password, and repeatTo, in
-- cli/internal/mailbox/sha512crypt.go.
use patrabahok.Base.{
  false, true, ℕ, zero, suc, ◌-◌, ◌≤◌, ◌≡◌, refl, ap, sym, ◌∙◌, [], ◌∷◌, ◌++◌, ltb, ◌==◌, arith,
  inl, inr, Bool-cases, length, take, length-append, append-nil, append_assoc,
}
use patrabahok.Base.Text.{Text}
use patrabahok.Crypt.{repeat_from, repeat_to, length_blocks}
use patrabahok.Crypt.Cycle.{length-take_some}

take_whole : (k : ℕ) (d : Text) → length d ≤ k → take k d ≡ d
take_whole zero [] h = refl
take_whole zero (b ∷ d) h = absurd (omega arith)
take_whole (suc k) [] h = refl
take_whole (suc k) (b ∷ d) h = ap (λ t. b ∷ t) (take_whole k d (omega arith))

-- A loop that has what it wants adds nothing.
repeat_from-full :
    (fuel : ℕ) (d : Text) (n : ℕ) (out : Text) → n ≤ length out → repeat_from fuel d n out ≡ out
unfolding repeat_from
repeat_from-full zero d n out h = refl
repeat_from-full (suc fuel) d n out h = ground arith

repeat_from-length_blocks :
    (fuel : ℕ) (d : Text) (n : ℕ) (out : Text)
    → length d ≡ 64
    → length out ≤ n
    → repeat_from fuel d n out ≡ out ++ length_blocks fuel d (n - length out)
unfolding repeat_from length_blocks
repeat_from-length_blocks zero d n out block short = sym (append-nil out)
repeat_from-length_blocks (suc fuel) d n out block short =
    let i = n - length out in
    elim (Bool-cases (ltb (length out) n)) [
      | inr done ↦
          let nothing_left : (i == 0) ≡ true = ground arith in
          rw (done, nothing_left) (sym (append-nil out))
      | inl more ↦
          let some_left : (i == 0) ≡ false = ground arith in
          elim (Bool-cases (ltb 64 i)) [
            | inl far ↦
                let all_of_it = take_whole i d (ground arith) in
                let sized = length-append out d in
                let left : n - length (out ++ d) ≡ i - 64 = ground arith in
                rw (more, some_left, far)
                  (ap (λ t. repeat_from fuel d n (out ++ t)) all_of_it
                    ∙ repeat_from-length_blocks fuel d n (out ++ d) block (ground arith)
                    ∙ ap (λ k. (out ++ d) ++ length_blocks fuel d k) left
                    ∙ append_assoc out d _)
            | inr last ↦
                let sized = length-append out (take i d) in
                let some_of_it = length-take_some i d (ground arith) in
                rw (more, some_left, last)
                  (repeat_from-full fuel d n (out ++ take i d) (ground arith))
          ]
    ]

-- For a digest of 64 bytes, the loop that counts the password's length down by 64 writes the same
-- bytes as repeatTo gives for that length.
pub length_blocks-repeat_to :
    (d : Text) (n : ℕ) → length d ≡ 64 → length_blocks n d n ≡ repeat_to d n
unfolding repeat_to
length_blocks-repeat_to d n block =
    sym (
      repeat_from-length_blocks n d n [] block (omega arith) ∙ ap (length_blocks n d) (omega arith))
