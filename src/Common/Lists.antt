-- ===== src/Common/Lists.antt =====
-- Lists measured by native numbers, and the predicates on lists that the components share.
use Prim.Native.Nat.{ℕ, zero, suc, ◌+◌, ◌-◌}
use mathlib.Core.Path.{◌≡◌, refl, ap, ap₂, ◌∙◌}
use mathlib.Core.List.{List, [], ◌∷◌, ◌++◌, map, map-append}
use native.Mathlib.Nat.{add_comm, add-zero, sub-zero}
use native.Mathlib.Omega.{arith}

module _ {ℓ} {A : Type ℓ} where
  abbrev pub length : List A → ℕ
  length [] = 0
  length (x ∷ xs) = suc (length xs)

  pub length-append : (xs ys : List A) → length (xs ++ ys) ≡ length xs + length ys
  length-append [] ys = omega arith
  length-append (x ∷ xs) ys = omega (arith, length-append xs ys)

  abbrev pub All {κ} : (A → Type κ) → List A → Type κ
  All P [] = Unit
  All P (x ∷ xs) = P x × All P xs

  pub All-append {κ} :
      (P : A → Type κ) (left right : List A) → All P left → All P right → All P (left ++ right)
  All-append P [] right h k = k
  All-append P (a ∷ left) right h k = (h.0, All-append P left right h.1 k)

  pub All-map {κ μ} :
      (P : A → Type κ) (Q : A → Type μ) (xs : List A) → ((a : A) → P a → Q a) → All P xs → All Q xs
  All-map P Q [] f h = tt
  All-map P Q (x ∷ xs) f h = (f x h.0, All-map P Q xs f h.1)

pub length-map {ℓ κ} :
    {A : Type ℓ} {B : Type κ} (f : A → B) (xs : List A) → length (map f xs) ≡ length xs
length-map f [] = refl
length-map f (x ∷ xs) = ap suc (length-map f xs)

-- The numbers start, …, start + n - 1.
abbrev pub range : ℕ → ℕ → List ℕ
range start zero = []
range start (suc n) = start ∷ range (suc start) n

pub range-append : (start n : ℕ) → range start n ++ (start + n) ∷ [] ≡ range start (suc n)
range-append start zero = ap (λ k. k ∷ []) (omega arith)
range-append start (suc n) = ground (arith, range-append (suc start) n)

-- A column of numbers that counts 1, 2, 3, … down the rows.
abbrev pub CountsUp {ℓ} : {A : Type ℓ} → (A → ℕ) → List A → Type 0
CountsUp key xs = map key xs ≡ range 1 (length xs)

pub CountsUp-snoc {ℓ} :
    {A : Type ℓ} (key : A → ℕ) (xs : List A) (x : A)
    → CountsUp key xs
    → key x ≡ length xs + 1
    → CountsUp key (xs ++ x ∷ [])
CountsUp-snoc key xs x h e =
    rw (map-append, h, e, length-append xs (x ∷ []))
      (ground (arith, range-append 1 (length xs), add_comm 1 (length xs)))

abbrev pub drop {ℓ} : {A : Type ℓ} → ℕ → List A → List A
drop zero xs = xs
drop (suc n) [] = []
drop (suc n) (x ∷ xs) = drop n xs

pub map-drop-range {ℓ} :
    {A : Type ℓ} (key : A → ℕ) (k : ℕ) (xs : List A) (s n : ℕ)
    → map key xs ≡ range s n
    → map key (drop k xs) ≡ range (s + k) (n - k)
map-drop-range key zero xs s n h = rw (add-zero, sub-zero) h
map-drop-range key (suc k) [] s zero h = ground arith
map-drop-range key (suc k) [] s (suc n) h = ground arith
map-drop-range key (suc k) (x ∷ xs) s zero h = ground arith
map-drop-range key (suc k) (x ∷ xs) s (suc n) h =
    let below : map key (drop k xs) ≡ range (suc s + k) (n - k) =
      map-drop-range key k xs (suc s) n (ground arith) in
    below ∙ ap₂ range (omega arith) (omega arith)

pub All-drop {ℓ κ} :
    {A : Type ℓ} (P : A → Type κ) (k : ℕ) (xs : List A) → All P xs → All P (drop k xs)
All-drop P zero xs h = h
All-drop P (suc k) [] h = h
All-drop P (suc k) (x ∷ xs) h = All-drop P k xs h.1
