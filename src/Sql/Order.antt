-- ===== src/Sql/Order.antt =====
-- ORDER BY: a table that is in order is left alone, and the first row is a least one.
use mathlib.Core.Path.{subst}
use nadi.Common.{
  ℕ, zero, suc, ◌≤◌, ◌≡◌, refl, Bool, true, false, none, some, List, [], ◌∷◌, map, range, All,
  arith, Bool-cases, inl, inr,
}
use nadi.Sql.{select, insert_by, order_by, ascending, limit_one}

module _ {A : Type 0} (key : A → ℕ) where
  -- A column that never falls, from a bound on.
  abbrev pub Ascends : ℕ → List A → Type 0
  Ascends b [] = Unit
  Ascends b (x ∷ xs) = (b ≤ key x) × Ascends (key x) xs

  Ascends-mono : (a b : ℕ) (xs : List A) → a ≤ b → Ascends b xs → Ascends a xs
  Ascends-mono a b [] h k = tt
  Ascends-mono a b (x ∷ xs) h k = (omega arith, k.1)

  pub Ascends-range : (xs : List A) (s n : ℕ) → map key xs ≡ range s n → Ascends s xs
  Ascends-range [] s n h = tt
  Ascends-range (x ∷ xs) s zero h = absurd (ground arith)
  Ascends-range (x ∷ xs) s (suc n) h = (
    ground arith,
    Ascends-mono (key x) (suc s) xs (ground arith) (Ascends-range xs (suc s) n (ground arith)),
  )

  pub Ascends-select : (p : A → Bool) (b : ℕ) (xs : List A) → Ascends b xs → Ascends b (select p xs)
  unfolding select
  Ascends-select p b [] h = tt
  Ascends-select p b (x ∷ xs) h = elim (Bool-cases (p x)) [
    | inl e ↦ rw e (h.0, Ascends-select p (key x) xs h.1)
    | inr e ↦ rw e (Ascends-mono b (key x) (select p xs) h.0 (Ascends-select p (key x) xs h.1))
  ]

  pub Ascends-map :
      (f : A → A) (b : ℕ) (xs : List A)
      → ((x : A) → key (f x) ≡ key x)
      → Ascends b xs
      → Ascends b (map f xs)
  Ascends-map f b [] same h = tt
  Ascends-map f b (x ∷ xs) same h = rw (same x) (h.0, Ascends-map f (key x) xs same h.1)

  insert_by-Ascends :
      (x : A) (xs : List A) → Ascends (key x) xs → insert_by (ascending key) x xs ≡ x ∷ xs
  unfolding insert_by
  insert_by-Ascends x [] h = refl
  insert_by-Ascends x (y ∷ ys) h = ground arith

  pub order_by-Ascends : (b : ℕ) (xs : List A) → Ascends b xs → order_by (ascending key) xs ≡ xs
  unfolding order_by
  order_by-Ascends b [] h = refl
  order_by-Ascends b (x ∷ xs) h =
      ground (arith, order_by-Ascends (key x) xs h.1, insert_by-Ascends x xs h.1)

  pub order_by-range :
      (xs : List A) (s n : ℕ) → map key xs ≡ range s n → order_by (ascending key) xs ≡ xs
  order_by-range xs s n h = order_by-Ascends s xs (Ascends-range xs s n h)

  Ascends-All : (b : ℕ) (xs : List A) → Ascends b xs → All (λ x. b ≤ key x) xs
  Ascends-All b [] h = tt
  Ascends-All b (x ∷ xs) h = (h.0, Ascends-All b xs (Ascends-mono b (key x) xs h.0 h.1))

some_eq : {A : Type 0} (x y : A) → some x ≡ some y → x ≡ y
some_eq x y e = cc

module _ {A : Type 0} (le : A → A → Bool) where
  insert_by-All {κ} :
      (P : A → Type κ) (x : A) (ys : List A) → P x → All P ys → All P (insert_by le x ys)
  unfolding insert_by
  insert_by-All P x [] px h = (px, tt)
  insert_by-All P x (y ∷ ys) px h = elim (Bool-cases (le x y)) [
    | inl e ↦ rw e (px, h)
    | inr e ↦ rw e (h.0, insert_by-All P x ys px h.1)
  ]

  insert_by-All_back {κ} :
      (P : A → Type κ) (x : A) (ys : List A) → All P (insert_by le x ys) → P x × All P ys
  unfolding insert_by
  insert_by-All_back P x [] h = h
  insert_by-All_back P x (y ∷ ys) h = elim (Bool-cases (le x y)) [
    | inl e ↦ rw e at h
    | inr e ↦
        let k : P y × All P (insert_by le x ys) = rw e at h in
        let (px, r) = insert_by-All_back P x ys k.1 in (px, (k.0, r))
  ]

  -- ORDER BY keeps every row and adds none.
  pub order_by-All {κ} : (P : A → Type κ) (xs : List A) → All P xs → All P (order_by le xs)
  unfolding order_by
  order_by-All P [] h = tt
  order_by-All P (x ∷ xs) h = insert_by-All P x (order_by le xs) h.0 (order_by-All P xs h.1)

  pub order_by-All_back {κ} : (P : A → Type κ) (xs : List A) → All P (order_by le xs) → All P xs
  unfolding order_by
  order_by-All_back P [] h = tt
  order_by-All_back P (x ∷ xs) h =
      let (px, r) = insert_by-All_back P x (order_by le xs) h in (px, order_by-All_back P xs r)

module _ {A : Type 0} (le : A → A → Bool) where
  insert_by-some : (x : A) (ys : List A) → (y : A) × (limit_one (insert_by le x ys) ≡ some y)
  unfolding insert_by
  insert_by-some x [] = (x, refl)
  insert_by-some x (y ∷ ys) = elim (Bool-cases (le x y)) [ inl e ↦ (x, rw e) | inr e ↦ (y, rw e) ]

  -- A sorted table has a first row unless it is empty.
  pub limit_one-none : (xs : List A) → limit_one (order_by le xs) ≡ none → xs ≡ []
  unfolding order_by
  limit_one-none [] h = refl
  limit_one-none (x ∷ xs) h = let (y, e) = insert_by-some x (order_by le xs) in absurd (cc (e, h))

module _ {A : Type 0} (le : A → A → Bool) (key : A → ℕ)
    (mono : (a b : A) → le a b ≡ true → key a ≤ key b)
    (anti : (a b : A) → le a b ≡ false → key b ≤ key a) where
  insert_by-Ascends_le :
      (b : ℕ) (x : A) (ys : List A)
      → b ≤ key x
      → Ascends key b ys
      → Ascends key b (insert_by le x ys)
  unfolding insert_by
  insert_by-Ascends_le b x [] h k = (h, tt)
  insert_by-Ascends_le b x (y ∷ ys) h k = elim (Bool-cases (le x y)) [
    | inl e ↦ rw e (h, (mono x y e, k.1))
    | inr e ↦ rw e (k.0, insert_by-Ascends_le (key y) x ys (anti x y e) k.1)
  ]

  order_by-Ascends_le : (xs : List A) → Ascends key 0 (order_by le xs)
  unfolding order_by
  order_by-Ascends_le [] = tt
  order_by-Ascends_le (x ∷ xs) =
      insert_by-Ascends_le 0 x (order_by le xs) (omega arith) (order_by-Ascends_le xs)

  least_first :
      (ys : List A) (h : A) → Ascends key 0 ys → limit_one ys ≡ some h → All (λ y. key h ≤ key y) ys
  least_first [] h a e = tt
  least_first (y ∷ ys) h a e =
      subst (λ k. All (λ x. key k ≤ key x) (y ∷ ys)) (some_eq y h e)
        (omega arith, Ascends-All key (key y) ys a.1)

  -- The row that ORDER BY … LIMIT 1 returns has the least key of all.
  pub limit_one-order_by :
      (xs : List A) (h : A) → limit_one (order_by le xs) ≡ some h → All (λ x. key h ≤ key x) xs
  limit_one-order_by xs h e =
      order_by-All_back le (λ x. key h ≤ key x) xs
        (least_first (order_by le xs) h (order_by-Ascends_le xs) e)

pub limit_one-All :
    {A : Type 0} (P : A → Type 0) (xs : List A) (x : A) → All P xs → limit_one xs ≡ some x → P x
limit_one-All P [] x h e = absurd (cc)
limit_one-All P (y ∷ ys) x h e = subst P (ground arith) h.0
