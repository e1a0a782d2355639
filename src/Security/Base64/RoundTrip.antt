-- ===== src/Security/Base64/RoundTrip.antt =====
-- `_b64d` undoes `_b64e`.
use mathlib.Core.Path.{ap₂}
use nadi.Common.{
  ℕ, suc, ◌+◌, ◌*◌, ◌/◌, ◌%◌, ◌<◌, ◌≡◌, ◌≢◌, refl, ap, true, some, List, [], ◌∷◌, ◌++◌, length, All,
  nat_eq, arith,
}
use nadi.Security.Base64.{
  letter, sextet, urlsafe_b64encode, a2b, start, one, two, three, prepend, is_ascii, rstrip_pad,
  replicate, b64e, b64d, missing,
}

abbrev pub IsBytes : List ℕ → Type 0
IsBytes = All (λ b. b < 256)

-- A letter gives back its value, is ASCII, and is neither padding nor a dot.
sextet-letter : (v : ℕ) → v < 64 → sextet (letter v) ≡ some v
unfolding sextet letter
sextet-letter v h = ground arith

letter_plain : (v : ℕ) → v < 64 → (letter v < 128) × (letter v ≢ b'=') × (letter v ≢ b'.')
unfolding letter
letter_plain v h = ground arith

-- The letters without the padding.
core : List ℕ → List ℕ
core [] = []
core (a ∷ []) = letter (a / 4) ∷ letter (a % 4 * 16) ∷ []
core (a ∷ b ∷ []) = letter (a / 4) ∷ letter (a % 4 * 16 + b / 16) ∷ letter (b % 16 * 4) ∷ []
core (a ∷ b ∷ c ∷ rest) =
    letter (a / 4)
    ∷ letter (a % 4 * 16 + b / 16)
    ∷ letter (b % 16 * 4 + c / 64)
    ∷ letter (c % 64)
    ∷ core rest

abbrev pub IsPlain : ℕ → Type 0
IsPlain c = (c < 128) × (c ≢ b'=') × (c ≢ b'.')

core-All : (raw : List ℕ) → IsBytes raw → All IsPlain (core raw)
unfolding core
core-All [] h = tt
core-All (a ∷ []) h = (letter_plain _ (omega arith), (letter_plain _ (omega arith), tt))
core-All (a ∷ b ∷ []) h = (
  letter_plain _ (omega arith),
  (letter_plain _ (omega arith), (letter_plain _ (omega arith), tt)),
)
core-All (a ∷ b ∷ c ∷ rest) h = (
  letter_plain _ (omega arith),
  (
    letter_plain _ (omega arith),
    (letter_plain _ (omega arith), (letter_plain _ (omega arith), core-All rest h.1.1.1)),
  ),
)

rstrip_pad-cons : (c : ℕ) (cs : List ℕ) → c ≢ b'=' → rstrip_pad (c ∷ cs) ≡ c ∷ rstrip_pad cs
unfolding rstrip_pad
rstrip_pad-cons c cs h = ground arith

rstrip_pad-letter :
    (v : ℕ) (cs : List ℕ) → v < 64 → rstrip_pad (letter v ∷ cs) ≡ letter v ∷ rstrip_pad cs
rstrip_pad-letter v cs h = rstrip_pad-cons (letter v) cs (letter_plain v h).1

-- Stripping the padding leaves the letters.
b64e-eq-core : (raw : List ℕ) → IsBytes raw → rstrip_pad (urlsafe_b64encode raw) ≡ core raw
unfolding core urlsafe_b64encode
b64e-eq-core [] h = unfold rstrip_pad in refl
b64e-eq-core (a ∷ []) h =
    rw (rstrip_pad-letter (a / 4) _ (omega arith), rstrip_pad-letter (a % 4 * 16) _ (omega arith))
      (unfold rstrip_pad in refl)
b64e-eq-core (a ∷ b ∷ []) h =
    rw
      (
        rstrip_pad-letter (a / 4) _ (omega arith),
        rstrip_pad-letter (a % 4 * 16 + b / 16) _ (omega arith),
        rstrip_pad-letter (b % 16 * 4) _ (omega arith),
      )
      (unfold rstrip_pad in refl)
b64e-eq-core (a ∷ b ∷ c ∷ rest) h = rw (
  rstrip_pad-letter (a / 4) _ (omega arith),
  rstrip_pad-letter (a % 4 * 16 + b / 16) _ (omega arith),
  rstrip_pad-letter (b % 16 * 4 + c / 64) _ (omega arith),
  rstrip_pad-letter (c % 64) _ (omega arith),
  b64e-eq-core rest h.1.1.1,
)

pub is_ascii_plain : (cs : List ℕ) → All IsPlain cs → is_ascii cs ≡ true
is_ascii_plain [] h = refl
is_ascii_plain (c ∷ cs) h = ground (arith, h.0.0, is_ascii_plain cs h.1)

-- One letter of each state of the decoder.
module _ (v pads : ℕ) (cs : List ℕ) (h : v < 64) where
  a2b-start : a2b start pads (letter v ∷ cs) ≡ a2b (one v) 0 cs
  unfolding a2b
  a2b-start = rw (sextet-letter v h, a2b)

  a2b-one :
      (left : ℕ)
      → a2b (one left) pads (letter v ∷ cs) ≡ prepend (left * 4 + v / 16) (a2b (two (v % 16)) 0 cs)
  unfolding a2b
  a2b-one left = rw (sextet-letter v h, a2b)

  a2b-two :
      (left : ℕ)
      → a2b (two left) pads (letter v ∷ cs) ≡ prepend (left * 16 + v / 4) (a2b (three (v % 4)) 0 cs)
  unfolding a2b
  a2b-two left = ground (arith, sextet-letter v h, (letter_plain v h).1)

  a2b-three :
      (left : ℕ) → a2b (three left) pads (letter v ∷ cs) ≡ prepend (left * 64 + v) (a2b start 0 cs)
  unfolding a2b
  a2b-three left = ground (arith, sextet-letter v h, (letter_plain v h).1)

missing_group : (n : ℕ) → missing (suc (suc (suc (suc n)))) ≡ missing n
missing_group n = omega arith

three_bytes :
    (x y z : ℕ) (rest : List ℕ) (a b c : ℕ)
    → x ≡ a
    → y ≡ b
    → z ≡ c
    → some (x ∷ y ∷ z ∷ rest) ≡ some (a ∷ b ∷ c ∷ rest)
three_bytes x y z rest a b c p q r = cc

-- The padding that `_b64d` puts back makes the decoder end well.
a2b-core :
    (raw : List ℕ)
    → IsBytes raw
    → a2b start 0 (core raw ++ replicate (missing (length (core raw))) b'=') ≡ some raw
unfolding core
a2b-core [] h = unfold a2b in refl
a2b-core (a ∷ []) h =
    rw (a2b-start (a / 4) 0 _ (omega arith), a2b-one (a % 4 * 16) 0 _ (omega arith))
      (unfold a2b in ap (λ x. some (x ∷ [])) (omega arith))
a2b-core (a ∷ b ∷ []) h =
    rw
      (
        a2b-start (a / 4) 0 _ (omega arith),
        a2b-one (a % 4 * 16 + b / 16) 0 _ (omega arith),
        a2b-two (b % 16 * 4) 0 _ (omega arith),
      )
      (unfold a2b in ap₂ (λ x y. some (x ∷ y ∷ [])) (omega arith) (omega arith))
a2b-core (a ∷ b ∷ c ∷ rest) h =
    rw
      (
        a2b-start (a / 4) 0 _ (omega arith),
        a2b-one (a % 4 * 16 + b / 16) 0 _ (omega arith),
        a2b-two (b % 16 * 4 + c / 64) 0 _ (omega arith),
        a2b-three (c % 64) 0 _ (omega arith),
        missing_group (length (core rest)),
        a2b-core rest h.1.1.1,
      )
      (three_bytes _ _ _ rest a b c (omega arith) (omega arith) (omega arith))

-- Bytes that are encoded and stripped of their padding decode to themselves.
pub b64d-b64e : (raw : List ℕ) → IsBytes raw → b64d (b64e raw) ≡ some raw
unfolding b64d b64e
b64d-b64e raw h =
    rw (b64e-eq-core raw h, is_ascii_plain (core raw) (core-All raw h)) (a2b-core raw h)

-- An encoded text is ASCII and has no dot, so that a token can be cut at its dots.
pub b64e-IsPlain : (raw : List ℕ) → IsBytes raw → All IsPlain (b64e raw)
unfolding b64e
b64e-IsPlain raw h = rw (b64e-eq-core raw h) (core-All raw h)
