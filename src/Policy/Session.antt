-- ===== src/Policy/Session.antt =====
-- The wire format of the policy service: the attribute lines that serveConn reads on one connection.
use patrabahok.Base.{
  String, ℕ, ◌≡◌, ◌≢◌, refl, sym, ap, ◌∙◌, Bool, List, [], ◌∷◌, ◌++◌, arith, All, ◌==◌, ◌||◌,
  if◌then◌else◌,
}
use patrabahok.Base.Text.{Text, codes, text_eq, cut, is_empty, trim_right}
use patrabahok.Base.Trim.{trim_right-append, trim_right-last}
use patrabahok.Address.Shape.{cut-append}
use patrabahok.Policy.{Request}

abbrev Attrs : Type 0
Attrs = List (Text × Text)

-- attrs[k], with the zero value for a missing key. A write goes in front, so the last one wins.
attr : Text → Attrs → Text
attr k [] = []
attr k ((j, v) ∷ rest) = if text_eq j k then v else attr k rest

-- strings.TrimRight(line, "\r\n")
abbrev is_line_end : ℕ → Bool
is_line_end c = c == 13 || c == 10

-- if k, v, ok := strings.Cut(line, "="); ok { attrs[k] = v }
add_line : Text → Attrs → Attrs
add_line line attrs = let (k, v, found) = cut b'=' line in if found then (k, v) ∷ attrs else attrs

request_of : Attrs → Request
unfolding attr
request_of attrs = record {
  sender = attr (codes "sender") attrs;
  recipient = attr (codes "recipient") attrs;
  sasl_username = attr (codes "sasl_username") attrs;
  client_address = attr (codes "client_address") attrs;
}

-- The inner loop up to the next empty line, and on over the connection: the requests that are
-- answered, in order. Lines after the last empty one are read and never answered.
requests_from : Attrs → List Text → List Request
unfolding add_line request_of
requests_from attrs [] = []
requests_from attrs (raw ∷ rest) =
    let line = trim_right is_line_end raw in
    let next = requests_from (add_line line attrs) rest in
    let done = request_of attrs ∷ requests_from [] rest in if is_empty line then done else next

unfoldable pub requests : List Text → List Request
unfolding requests_from
requests lines = requests_from [] lines

abbrev line_of : String → Text → Text
line_of name value = codes name ++ (b'=' ∷ (value ++ 10 ∷ []))

-- How Postfix writes the attributes that the service reads.
abbrev pub lines_of : Request → List Text
lines_of r =
    line_of "sender" r.sender
    ∷ line_of "recipient" r.recipient
    ∷ line_of "sasl_username" r.sasl_username
    ∷ line_of "client_address" r.client_address
    ∷ (10 ∷ [])
    ∷ []

equals-trimmed : (t : Text) → trim_right is_line_end (b'=' ∷ t) ≡ b'=' ∷ trim_right is_line_end t
unfolding trim_right
equals-trimmed t = refl

-- A value that a line can carry: what TrimRight leaves alone.
abbrev pub IsLineValue : Text → Type 0
IsLineValue v = trim_right is_line_end v ≡ v

line-trimmed :
    (name v : Text)
    → IsLineValue v
    → trim_right is_line_end (name ++ (b'=' ∷ (v ++ 10 ∷ []))) ≡ name ++ (b'=' ∷ v)
line-trimmed name v h =
    let value = trim_right-last is_line_end v 10 refl ∙ h in
    let tail = equals-trimmed (v ++ 10 ∷ []) ∙ ap (λ (t : Text). b'=' ∷ t) value in
    trim_right-append is_line_end name (b'=' ∷ (v ++ 10 ∷ [])) (rw tail)
    ∙ ap (λ (t : Text). name ++ t) tail

add_line-append :
    (name v : Text) (attrs : Attrs)
    → All (λ c. c ≢ b'=') name
    → add_line (name ++ (b'=' ∷ v)) attrs ≡ (name, v) ∷ attrs
unfolding add_line
add_line-append name v attrs h = rw (cut-append b'=' name v h)

requests_from-line :
    (c : ℕ) (name v : Text) (attrs : Attrs) (rest : List Text)
    → All (λ x. x ≢ b'=') (c ∷ name)
    → IsLineValue v
    → requests_from attrs (((c ∷ name) ++ (b'=' ∷ (v ++ 10 ∷ []))) ∷ rest)
      ≡ requests_from ((c ∷ name, v) ∷ attrs) rest
unfolding requests_from
requests_from-line c name v attrs rest h k =
    rw (line-trimmed (c ∷ name) v k)
      (ap (λ t. requests_from t rest) (add_line-append (c ∷ name) v attrs h))

requests_from-end :
    (attrs : Attrs) (rest : List Text)
    → requests_from attrs ((10 ∷ []) ∷ rest) ≡ request_of attrs ∷ requests_from [] rest
unfolding requests_from trim_right
requests_from-end attrs rest = refl

requests_lem : (lines : List Text) → requests lines ≡ requests_from [] lines
unfolding requests
requests_lem lines = refl

request_of-attrs :
    (r : Request)
    → request_of (
        (codes "client_address", r.client_address)
        ∷ (codes "sasl_username", r.sasl_username)
        ∷ (codes "recipient", r.recipient)
        ∷ (codes "sender", r.sender)
        ∷ [])
      ≡ r
unfolding request_of text_eq
request_of-attrs r = refl

pub requests-lines_of :
    (r : Request) (rest : List Text)
    → IsLineValue r.sender
    → IsLineValue r.recipient
    → IsLineValue r.sasl_username
    → IsLineValue r.client_address
    → requests (lines_of r ++ rest) ≡ r ∷ requests rest
requests-lines_of r rest hs hr hu hc =
    requests_lem (lines_of r ++ rest)
    ∙ requests_from-line _ (codes "ender") r.sender [] _ (omega arith) hs
    ∙ requests_from-line _ (codes "ecipient") r.recipient _ _ (omega arith) hr
    ∙ requests_from-line _ (codes "asl_username") r.sasl_username _ _ (omega arith) hu
    ∙ requests_from-line _ (codes "lient_address") r.client_address _ _ (omega arith) hc
    ∙ requests_from-end _ rest
    ∙ ap (λ q. q ∷ requests_from [] rest) (request_of-attrs r)
    ∙ ap (λ qs. r ∷ qs) (sym (requests_lem rest))
