-- ===== src/Db/Keeps.antt =====
-- Programs that keep a property of the state, whatever fails: one rule for each way to build one.
use patrabahok.Base.{◌+◌, Bool}
use patrabahok.Address.{Error, Result}
use patrabahok.Db.{State, M, pure, fail, lift, ◌>>=◌, exec, query, disk, refuse_if, attempt, random}
use patrabahok.Db.Rules.{
  Runs, Runs-pure, Runs-fail, Runs-lift, Runs-exec, Runs-query, Runs-seq, Runs-disk, Runs-refuse_if,
  Runs-call,
}

abbrev pub Keeps : {A : Type 0} → (State → Type 0) → M A → Type 0
Keeps P m = (s : State) → P s → Runs s m (λ r t. P t)

module _ (P : State → Type 0) where
  pub Keeps-pure : {A : Type 0} (a : A) → Keeps P (pure a)
  Keeps-pure a s h = Runs-pure _ a h

  pub Keeps-fail : {A : Type 0} (e : Error) → Keeps P (fail {A = A} e)
  Keeps-fail e s h = Runs-fail _ e h

  pub Keeps-lift : {A : Type 0} (r : Result A) → Keeps P (lift r)
  Keeps-lift r s h = Runs-lift _ r h

  pub Keeps-query : {A : Type 0} (f : State → A) → Keeps P (query f)
  Keeps-query f s h = Runs-query _ f h h

  pub Keeps-exec :
      {A : Type 0} (f : State → A × State) → ((s : State) → P s → P (f s).1) → Keeps P (exec f)
  Keeps-exec f k s h = Runs-exec _ f h (k s h)

  pub Keeps-disk : (f : State → State) → ((s : State) → P s → P (f s)) → Keeps P (disk f)
  Keeps-disk f k s h = Runs-disk _ f h (k s h)

  pub Keeps-random : ((s : State) → P s → P (record s { draws = s.draws + 1 })) → Keeps P random
  unfolding random
  Keeps-random k s h = Runs-call _ _ _ h (k s h)

  pub Keeps-refuse_if : (b : Bool) (e : Error) → Keeps P (refuse_if b e)
  Keeps-refuse_if b e s h = Runs-refuse_if b e _ (λ _. h) (λ _. h)

  pub Keeps-bind :
      {A B : Type 0} (m : M A) (k : A → M B)
      → Keeps P m
      → ((a : A) → Keeps P (k a))
      → Keeps P (m >>= k)
  Keeps-bind m k h next s p =
      Runs-seq (λ r t. P t) (λ r t. P t) m k (h s p) (λ e t q. q) (λ a t q. next a t q)

  pub Keeps-attempt : {A : Type 0} (m : M A) → Keeps P m → Keeps P (attempt m)
  unfolding attempt
  Keeps-attempt m h s p = record { at = λ fs. (h s p).at fs }
