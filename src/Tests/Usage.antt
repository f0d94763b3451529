-- ===== src/Tests/Usage.antt =====
-- The theorem on the usage of a mailbox, at a file of four lines.
use patrabahok.Base.{◌≡◌, List, [], ◌∷◌, map, refl, arith, some}
use patrabahok.Base.Text.{Text, codes, trim_left}
use patrabahok.Base.Int.{pos, negsuc}
use patrabahok.Mailboxes.Usage.{usage_bytes, usage_of}
use patrabahok.Mailboxes.Usage.Sum.{Delta, line_of, usage_bytes-line_of}
use patrabahok.Tests.Addresses.{bob_splits}

-- Two deliveries and a removal between them.
abbrev deltas : List Delta
deltas =
    record { bytes = pos 700; count = codes "1" }
    ∷ record { bytes = negsuc 199; count = codes "-1" }
    ∷ record { bytes = pos 50; count = codes "1" }
    ∷ []

abbrev header : Text
header = codes "1073741824S"

usage_of_text :
    usage_of (header ∷ codes "700 1" ∷ [] ∷ codes "-200 -1" ∷ codes "x" ∷ codes " +50 1" ∷ [])
    ≡ pos 550
unfolding usage_of trim_left
usage_of_text = refl

usage_bytes-line_of_example :
    usage_bytes (λ path. some (header ∷ map line_of deltas)) (codes "bob@a.org") ≡ pos 550
usage_bytes-line_of_example =
    usage_bytes-line_of (λ path. some (header ∷ map line_of deltas)) (codes "bob@a.org")
      (codes "bob") (codes "a.org") header deltas bob_splits refl
      (omega arith, (omega arith, (omega arith, tt))) (omega arith) (omega arith)
