-- ===== src/Db/Rules.antt =====
-- What a program ends with from a given state, whatever fails: one rule for each way to build one.
use patrabahok.Base.{◌+◌, ◌≡◌, refl, Bool, true, false, List, [], ◌∷◌}
use patrabahok.Base.Text.{Text}
use patrabahok.Address.{Error, Result, ok, err, database, other}
use patrabahok.Db.{
  attempt, committed, transaction, rolled_back, State, World, M, pure, fail, lift, continue, ◌>>=◌,
  ◌>>◌, call, exec, query, disk, refuse_if, random,
}

-- From the state `s`, for every list of failures, `m` ends with a result and a state that satisfy Q.
pub record Runs {A : Type 0} (s : State) (m : M A) (Q : Result A → State → Type 0) : Type 0 where
  pub at :
      (faults : List Bool)
      → Q
          (m (record { state = s; faults = faults })).0
          (m (record { state = s; faults = faults })).1.state

module _ {A : Type 0} (Q : Result A → State → Type 0) {s : State} where
  pub Runs-pure : (a : A) → Q (ok a) s → Runs s (pure a) Q
  unfolding pure
  Runs-pure a h = record { at = λ fs. h }

  pub Runs-fail : (e : Error) → Q (err e) s → Runs s (fail e) Q
  unfolding fail
  Runs-fail e h = record { at = λ fs. h }

  pub Runs-lift : (r : Result A) → Q r s → Runs s (lift r) Q
  unfolding lift
  Runs-lift r h = record { at = λ fs. h }

  pub Runs-call :
      (e : Error) (f : State → A × State)
      → Q (err e) s
      → Q (ok (f s).0) (f s).1
      → Runs s (call e f) Q
  unfolding call
  Runs-call e f bad good = record { at = go }
    where
      go :
          (fs : List Bool)
          → Q
              (call e f (record { state = s; faults = fs })).0
              (call e f (record { state = s; faults = fs })).1.state
      go [] = good
      go (true ∷ fs) = bad
      go (false ∷ fs) = good

  pub Runs-exec :
      (f : State → A × State) → Q (err database) s → Q (ok (f s).0) (f s).1 → Runs s (exec f) Q
  unfolding exec
  Runs-exec f bad good = Runs-call database f bad good

  pub Runs-query : (f : State → A) → Q (err database) s → Q (ok (f s)) s → Runs s (query f) Q
  unfolding query
  Runs-query f bad good = Runs-call database (λ t. (f t, t)) bad good

module _ {A B : Type 0} (Q : Result B → State → Type 0) where
  -- What the first part must end with for the whole to end in Q.
  abbrev pub Then : (A → M B) → Result A → State → Type 0
  Then k (ok a) s = Runs s (k a) Q
  Then k (err e) s = Q (err e) s

  Then-continue :
      (k : A → M B) (r : Result A) (w : World)
      → Then k r w.state
      → Q (continue r k w).0 (continue r k w).1.state
  unfolding continue
  Then-continue k (ok a) w h = h.at w.faults
  Then-continue k (err e) w h = h

  pub Runs-bind : (m : M A) (k : A → M B) {s : State} → Runs s m (Then k) → Runs s (m >>= k) Q
  unfolding ◌>>=◌
  Runs-bind m k {s} h = record {
    at = λ fs. let w = m (record { state = s; faults = fs }) in Then-continue k w.0 w.1 (h.at fs);
  }

  -- The rules for a first part of each kind.
  pub Runs-query-bind :
      (f : State → A) (k : A → M B) {s : State}
      → Q (err database) s
      → Runs s (k (f s)) Q
      → Runs s (query f >>= k) Q
  Runs-query-bind f k bad good = Runs-bind (query f) k (Runs-query (Then k) f bad good)

  pub Runs-exec-bind :
      (f : State → A × State) (k : A → M B) {s : State}
      → Q (err database) s
      → Runs (f s).1 (k (f s).0) Q
      → Runs s (exec f >>= k) Q
  Runs-exec-bind f k bad good = Runs-bind (exec f) k (Runs-exec (Then k) f bad good)

  pub Runs-lift-bind :
      (r : Result A) (k : A → M B) {s : State}
      → ((e : Error) → r ≡ err e → Q (err e) s)
      → ((a : A) → r ≡ ok a → Runs s (k a) Q)
      → Runs s (lift r >>= k) Q
  Runs-lift-bind (ok a) k bad good =
      Runs-bind (lift (ok a)) k (Runs-lift (Then k) (ok a) (good a refl))
  Runs-lift-bind (err e) k bad good =
      Runs-bind (lift (err e)) k (Runs-lift (Then k) (err e) (bad e refl))

module _ {B : Type 0} (Q : Result B → State → Type 0) where
  pub Runs-refuse_if-bind :
      (b : Bool) (e : Error) (k : M B) {s : State}
      → (b ≡ true → Q (err e) s)
      → (b ≡ false → Runs s k Q)
      → Runs s (refuse_if b e >> k) Q
  unfolding ◌>>=◌ refuse_if
  Runs-refuse_if-bind true e k bad good = record { at = λ fs. bad refl }
  Runs-refuse_if-bind false e k bad good = record { at = λ fs. (good refl).at fs }

  pub Runs-random-bind :
      (k : Text → M B) {s : State}
      → Q (err other) s
      → Runs (record s { draws = s.draws + 1 }) (k (s.entropy s.draws)) Q
      → Runs s (random >>= k) Q
  unfolding random
  Runs-random-bind k bad good = Runs-bind Q random k (Runs-call (Then Q k) other _ bad good)

  pub Runs-disk-bind :
      (f : State → State) (k : M B) {s : State}
      → Q (err other) s
      → Runs (f s) k Q
      → Runs s (disk f >> k) Q
  unfolding disk
  Runs-disk-bind f k bad good =
      Runs-bind Q (disk f) (λ _. k) (Runs-call (Then Q (λ _. k)) other _ bad good)

pub Runs-refuse_if :
    (b : Bool) (e : Error) (Q : Result (Unit {0}) → State → Type 0) {s : State}
    → (b ≡ true → Q (err e) s)
    → (b ≡ false → Q (ok tt) s)
    → Runs s (refuse_if b e) Q
unfolding refuse_if
Runs-refuse_if true e Q bad good = record { at = λ fs. bad refl }
Runs-refuse_if false e Q bad good = record { at = λ fs. good refl }

module _ (Q : Result (Unit {0}) → State → Type 0) {s : State} where
  pub Runs-disk : (f : State → State) → Q (err other) s → Q (ok tt) (f s) → Runs s (disk f) Q
  unfolding disk
  Runs-disk f bad good = Runs-call Q other _ bad good

module _ {A : Type 0} {P Q : Result A → State → Type 0} where
  pub Runs_mono :
      ((r : Result A) (s : State) → P r s → Q r s) → {s : State} {m : M A} → Runs s m P → Runs s m Q
  Runs_mono f h = record { at = λ fs. f _ _ (h.at fs) }

  pub Runs_both : {s : State} {m : M A} → Runs s m P → Runs s m Q → Runs s m (λ r t. P r t × Q r t)
  Runs_both h k = record { at = λ fs. (h.at fs, k.at fs) }

module _ {A B : Type 0} (R : Result A → State → Type 0) (Q : Result B → State → Type 0) where
  seq-Then :
      (k : A → M B)
      → ((e : Error) (t : State) → R (err e) t → Q (err e) t)
      → ((a : A) (t : State) → R (ok a) t → Runs t (k a) Q)
      → (r : Result A) (t : State) → R r t
      → Then Q k r t
  seq-Then k bad good (ok a) t h = good a t h
  seq-Then k bad good (err e) t h = bad e t h

  -- Two parts, by what the first ends with.
  pub Runs-seq :
      (m : M A) (k : A → M B) {s : State}
      → Runs s m R
      → ((e : Error) (t : State) → R (err e) t → Q (err e) t)
      → ((a : A) (t : State) → R (ok a) t → Runs t (k a) Q)
      → Runs s (m >>= k) Q
  Runs-seq m k h bad good = Runs-bind Q m k (Runs_mono (seq-Then k bad good) h)

module _ {A B : Type 0} (Q : Result B → State → Type 0) where
  pub Runs-attempt-bind :
      (m : M A) (k : Result A → M B) {s : State}
      → Runs s m (λ r t. Runs t (k r) Q)
      → Runs s (attempt m >>= k) Q
  unfolding attempt ◌>>=◌
  Runs-attempt-bind m k {s} h = record {
    at = λ fs. let w = (m (record { state = s; faults = fs })).1 in (h.at fs).at w.faults;
  }

-- The outcome of a body whose failure takes back what it wrote.
abbrev pub OrBack : {A : Type 0} → (Result A → State → Type 0) → State → Result A → State → Type 0
OrBack Q s (ok a) t = Q (ok a) t
OrBack Q s (err e) t = Q (err e) s

module _ {A : Type 0} (Q : Result A → State → Type 0) where
  rolled_back-OrBack :
      (s : State) (r : Result A) (w : World)
      → OrBack Q s r w.state
      → Q (rolled_back s (r, w)).0 (rolled_back s (r, w)).1.state
  unfolding rolled_back
  rolled_back-OrBack s (ok a) w h = h
  rolled_back-OrBack s (err e) w h = h

  Then-commit :
      (s : State) (r : Result A) (t : State)
      → Q (err database) s
      → OrBack Q s r t
      → Then (OrBack Q s) (λ a. query (λ _. tt) >>= λ _. pure a) r t
  Then-commit s (ok a) t bad h =
      Runs-query-bind (OrBack Q s) (λ _. tt) (λ _. pure a) bad (Runs-pure (OrBack Q s) a h)
  Then-commit s (err e) t bad h = h

  Runs-committed :
      (m : M A) {s : State}
      → Q (err database) s
      → Runs s m (OrBack Q s)
      → Runs s (committed m) (OrBack Q s)
  unfolding committed
  Runs-committed m {s} bad h =
      Runs-query-bind (OrBack Q s) (λ _. tt) _ bad
        (Runs-bind (OrBack Q s) m _ (Runs_mono (λ r t. Then-commit s r t bad) h))

  pub Runs-transaction :
      (m : M A) {s : State} → Q (err database) s → Runs s m (OrBack Q s) → Runs s (transaction m) Q
  unfolding transaction
  Runs-transaction m {s} bad h =
      let inner = Runs-committed m bad h in
      record { at = λ fs. rolled_back-OrBack s _ _ (inner.at fs) }
