-- ===== src/Security/Base64.antt =====
-- `_b64e` and `_b64d` of nadi/security.py, over the base64 functions of Python's library. Bytes and
-- texts are lists of numbers.
pub mod RoundTrip
mod Tests
use nadi.Common.{
  ℕ, zero, suc, ◌+◌, ◌-◌, ◌*◌, ◌/◌, ◌%◌, Bool, true, false, ◌&&◌, Option, none, some, List, [], ◌∷◌,
  ◌++◌, length, ltb, leb, ◌==◌, nat_eq, if◌then◌else◌,
}

-- The URL-safe letter of a value below 64.
unfoldable pub letter : ℕ → ℕ
letter v =
    if ltb v 26
    then v + 65
    else if ltb v 52
    then v + 71
    else if ltb v 62
    then v - 4
    else if v == 62
    then b'-'
    else b'_'

-- The value of a letter. `+` and `/` are letters of the plain alphabet, which decoding accepts too.
unfoldable pub sextet : ℕ → Option ℕ
sextet c =
    if leb b'A' c && leb c b'Z'
    then some (c - 65)
    else if leb b'a' c && leb c b'z'
    then some (c - 71)
    else if leb b'0' c && leb c b'9'
    then some (c + 4)
    else if c == b'-'
    then some 62
    else if c == b'+'
    then some 62
    else if c == b'_'
    then some 63
    else if c == b'/'
    then some 63
    else none

-- `base64.urlsafe_b64encode`
unfoldable pub urlsafe_b64encode : List ℕ → List ℕ
urlsafe_b64encode [] = []
urlsafe_b64encode (a ∷ []) = letter (a / 4) ∷ letter (a % 4 * 16) ∷ b'=' ∷ b'=' ∷ []
urlsafe_b64encode (a ∷ b ∷ []) =
    letter (a / 4) ∷ letter (a % 4 * 16 + b / 16) ∷ letter (b % 16 * 4) ∷ b'=' ∷ []
urlsafe_b64encode (a ∷ b ∷ c ∷ rest) =
    letter (a / 4)
    ∷ letter (a % 4 * 16 + b / 16)
    ∷ letter (b % 16 * 4 + c / 64)
    ∷ letter (c % 64)
    ∷ urlsafe_b64encode rest

-- What the decoder holds between two letters: how many of a group of four it has read, and the bits
-- of the last that are not written yet.
pub data Quad : Type 0 where
  start : Quad
  one two three : ℕ → Quad

abbrev pub prepend : ℕ → Option (List ℕ) → Option (List ℕ)
prepend b none = none
prepend b (some bytes) = some (b ∷ bytes)

-- The loop of `binascii.a2b_base64`: other characters are skipped, and enough padding ends it.
unfoldable pub a2b : Quad → ℕ → List ℕ → Option (List ℕ)
a2b start pads [] = some []
a2b (one _) pads [] = none
a2b (two _) pads [] = none
a2b (three _) pads [] = none
a2b start pads (c ∷ cs) = elim (sextet c) [ none ↦ a2b start pads cs | some v ↦ a2b (one v) 0 cs ]
a2b (one left) pads (c ∷ cs) = elim (sextet c) [
  | none ↦ a2b (one left) pads cs
  | some v ↦ prepend (left * 4 + v / 16) (a2b (two (v % 16)) 0 cs)
]
a2b (two left) pads (c ∷ cs) =
    let enough : Option (List ℕ) = if leb 1 pads then some [] else a2b (two left) (suc pads) cs in
    let other : Option (List ℕ) = elim (sextet c) [
      | none ↦ a2b (two left) pads cs
      | some v ↦ prepend (left * 16 + v / 4) (a2b (three (v % 4)) 0 cs)
    ] in
    if c == b'=' then enough else other
a2b (three left) pads (c ∷ cs) =
    let other : Option (List ℕ) = elim (sextet c) [
      | none ↦ a2b (three left) pads cs
      | some v ↦ prepend (left * 64 + v) (a2b start 0 cs)
    ] in
    if c == b'=' then some [] else other

abbrev pub is_ascii : List ℕ → Bool
is_ascii [] = true
is_ascii (c ∷ cs) = ltb c 128 && is_ascii cs

-- `raw.rstrip(b"=")`
unfoldable pub rstrip_pad : List ℕ → List ℕ
rstrip_pad [] = []
rstrip_pad (c ∷ cs) = elim (rstrip_pad cs) [
  | [] ↦ if c == b'=' then [] else c ∷ []
  | d ∷ ds ↦ c ∷ d ∷ ds
]

abbrev pub replicate : ℕ → ℕ → List ℕ
replicate zero c = []
replicate (suc n) c = c ∷ replicate n c

unfoldable pub b64e : List ℕ → List ℕ
b64e raw = rstrip_pad (urlsafe_b64encode raw)

-- `-len(data) % 4` of Python is this number of missing characters.
abbrev pub missing : ℕ → ℕ
missing n = (4 - n % 4) % 4

-- A text that is not ASCII or not base64 is an error.
unfoldable pub b64d : List ℕ → Option (List ℕ)
b64d text =
    if is_ascii text then a2b start 0 (text ++ replicate (missing (length text)) b'=') else none
