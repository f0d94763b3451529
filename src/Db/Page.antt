-- ===== src/Db/Page.antt =====
-- LIMIT and OFFSET of a query, as the lists of cli/internal pass them.
use patrabahok.Base.{ℕ, List, take, drop}
use patrabahok.Base.Int.{ℤ, pos, negsuc}
use patrabahok.Address.{database}
use patrabahok.Db.{M, pure, fail}

-- if f.Limit <= 0 { f.Limit = 50 }
abbrev pub limit_or_default : ℤ → ℕ
limit_or_default (pos Prim.Native.Nat.zero) = 50
limit_or_default (pos n) = n
limit_or_default (negsuc n) = 50

-- A negative offset is an error of the database.
unfoldable pub page_of : {A : Type 0} → ℤ → ℕ → List A → M (List A)
page_of (negsuc n) limit rows = fail database
page_of (pos n) limit rows = pure (take limit (drop n rows))
