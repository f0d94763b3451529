-- ===== src/Db/Answers.antt =====
-- Programs that always end with an answer, and keep a property of the state.
use patrabahok.Db.Keeps.{Keeps}
use patrabahok.Db.Rules.{Runs-seq, Runs_mono, Runs-attempt-bind, Runs-pure, Runs}
use patrabahok.Base.{true, false, if◌then◌else◌, Bool}
use patrabahok.Address.{Result, ok, err}
use patrabahok.Db.{State, M, attempt, ◌>>=◌, pure}

-- An answer, and a state that has P.
abbrev pub Answered : {A : Type 0} → (State → Type 0) → Result A → State → Type 0
Answered P (ok a) t = P t
Answered P (err e) t = ⊥

-- A program that answers from every state that has P.
abbrev pub Answers : {A : Type 0} → (State → Type 0) → M A → Type 0
Answers P m = (s : State) → P s → Runs s m (Answered P)

module _ (P : State → Type 0) where
  pub pure-Answers : {A : Type 0} (a : A) → Answers P (pure a)
  pure-Answers a s h = Runs-pure (Answered P) a h

  -- What may fail stands under an attempt, and both outcomes are answered.
  pub attempt-Answers :
      {A B : Type 0} (m : M A) (k : Result A → M B)
      → Keeps P m
      → ((r : Result A) → Answers P (k r))
      → Answers P (attempt m >>= k)
  attempt-Answers m k keep next s h =
      Runs-attempt-bind (Answered P) m k (Runs_mono (λ r t p. next r t p) (keep s h))

  pub if-Answers :
      {A : Type 0} (b : Bool) (m n : M A)
      → Answers P m
      → Answers P n
      → Answers P (if b then m else n)
  if-Answers true m n yes_ no_ = yes_
  if-Answers false m n yes_ no_ = no_

  pub bind-Answers :
      {A B : Type 0} (m : M A) (k : A → M B)
      → Answers P m
      → ((a : A) → Answers P (k a))
      → Answers P (m >>= k)
  bind-Answers m k first next s h =
      Runs-seq (Answered P) (Answered P) m k (first s h) (λ e t p. absurd p) (λ a t p. next a t p)
