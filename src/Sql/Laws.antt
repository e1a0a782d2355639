-- ===== src/Sql/Laws.antt =====
-- Laws of the table operations.
use nadi.Common.{
  ◌||◌, not, ℕ, zero, suc, ◌+◌, ◌≡◌, refl, Bool, true, false, none, some, List, [], ◌∷◌, ◌++◌, map,
  inl, inr, Bool-cases, range, drop, ◌-◌, ltb, ◌&&◌, All, arith, if◌then◌else◌, leb,
}
use nadi.Sql.{delete_where, select, fetch_one, exists_where, max_of, count_where}

module _ {A : Type 0} (p : A → Bool) where
  pub select-append : (xs ys : List A) → select p (xs ++ ys) ≡ select p xs ++ select p ys
  unfolding select
  select-append [] ys = refl
  select-append (x ∷ xs) ys = ground (arith, select-append xs ys)

  -- A new row at the end is selected exactly if it fits.
  pub select-snoc :
      (xs : List A) (y : A)
      → select p (xs ++ y ∷ []) ≡ (if p y then select p xs ++ y ∷ [] else select p xs)
  unfolding select
  select-snoc [] y = refl
  select-snoc (x ∷ xs) y = ground (arith, select-snoc xs y)

  pub select-All : (xs : List A) → All (λ x. p x ≡ true) (select p xs)
  unfolding select
  select-All [] = tt
  select-All (x ∷ xs) = ground (arith, select-All xs)

  pub All-select {κ} : (P : A → Type κ) (xs : List A) → All P xs → All P (select p xs)
  unfolding select
  All-select P [] h = tt
  All-select P (x ∷ xs) h = elim (Bool-cases (p x)) [
    | inl e ↦ rw e (h.0, All-select P xs h.1)
    | inr e ↦ rw e (All-select P xs h.1)
  ]

  pub count_where-snoc :
      (xs : List A) (y : A)
      → count_where p (xs ++ y ∷ []) ≡ count_where p xs + (if p y then 1 else 0)
  unfolding select
  count_where-snoc [] y = ground arith
  count_where-snoc (x ∷ xs) y = ground (arith, count_where-snoc xs y)

  pub exists_where-snoc :
      (xs : List A) (y : A)
      → exists_where p (xs ++ y ∷ []) ≡ (if exists_where p xs then true else p y)
  unfolding exists_where
  exists_where-snoc [] y = ground arith
  exists_where-snoc (x ∷ xs) y = ground (arith, exists_where-snoc xs y)

  pub fetch_one-snoc :
      (xs : List A) (y : A)
      → fetch_one p (xs ++ y ∷ [])
        ≡ (if exists_where p xs then fetch_one p xs else if p y then some y else none)
  unfolding fetch_one exists_where
  fetch_one-snoc [] y = refl
  fetch_one-snoc (x ∷ xs) y = ground (arith, fetch_one-snoc xs y)

  pub select_nil : (xs : List A) → select p xs ≡ [] → exists_where p xs ≡ false
  unfolding select exists_where
  select_nil [] h = refl
  select_nil (x ∷ xs) h = ground (arith, select_nil xs)

  pub select_none : (xs : List A) → exists_where p xs ≡ false → select p xs ≡ []
  unfolding select exists_where
  select_none [] h = refl
  select_none (x ∷ xs) h = ground (arith, select_none xs)

  -- A row that was found is found when rows follow.
  pub fetch_one-append :
      (xs ys : List A) (x : A) → fetch_one p xs ≡ some x → fetch_one p (xs ++ ys) ≡ some x
  unfolding fetch_one
  fetch_one-append [] ys x h = absurd (cc)
  fetch_one-append (y ∷ xs) ys x h = ground (arith, fetch_one-append xs ys x)

  pub fetch_one-none : (xs : List A) → exists_where p xs ≡ false → fetch_one p xs ≡ none
  unfolding fetch_one exists_where
  fetch_one-none [] h = refl
  fetch_one-none (x ∷ xs) h = ground (arith, fetch_one-none xs)

  -- `fetchone` finds a row that fits if there is one.
  pub fetch_one_fits : (xs : List A) (x : A) → fetch_one p xs ≡ some x → p x ≡ true
  unfolding fetch_one
  fetch_one_fits [] x h = ground arith
  fetch_one_fits (y ∷ xs) x h = ground (arith, fetch_one_fits xs x)

  pub fetch_one_exists :
      (xs : List A) → exists_where p xs ≡ true → (x : A) × (fetch_one p xs ≡ some x)
  unfolding fetch_one exists_where
  fetch_one_exists [] h = absurd (ground arith)
  fetch_one_exists (y ∷ xs) h = elim (Bool-cases (p y)) [
    | inl e ↦ (y, rw e)
    | inr e ↦ rw e (fetch_one_exists xs (rw e at h))
  ]

  pub fetch_one-exists : (xs : List A) (x : A) → fetch_one p xs ≡ some x → exists_where p xs ≡ true
  unfolding exists_where fetch_one
  fetch_one-exists [] x h = absurd (ground arith)
  fetch_one-exists (y ∷ ys) x h = elim (Bool-cases (p y)) [
    | inl e ↦ rw e refl
    | inr e ↦ rw e (fetch_one-exists ys x (ground (arith, h, e)))
  ]

drop_nil : {A : Type 0} (k : ℕ) → ◌≡◌ {A = List A} [] (drop k [])
drop_nil zero = refl
drop_nil (suc k) = refl

drop_cons_none :
    {A : Type 0} (x : A) (xs : List A) (k j : ℕ) → k ≡ 0 → j ≡ 0 → x ∷ drop j xs ≡ drop k (x ∷ xs)
drop_cons_none x xs k j e f = rw (e, f)

drop_cons : {A : Type 0} (x : A) (xs : List A) (k j : ℕ) → k ≡ suc j → drop j xs ≡ drop k (x ∷ xs)
drop_cons x xs k j e = rw e

module _ {A : Type 0} (key : A → ℕ) where
  pub max_of-range :
      (xs : List A) (s n : ℕ)
      → map key xs ≡ range (suc s) n
      → max_of key xs ≡ (if leb n 0 then 0 else s + n)
  unfolding max_of
  max_of-range [] s zero h = ground arith
  max_of-range [] s (suc n) h = ground arith
  max_of-range (x ∷ xs) s zero h = ground arith
  max_of-range (x ∷ xs) s (suc n) h = ground (arith, max_of-range xs (suc s) n)

  -- The rows past a bound are those that remain when the rows up to it are dropped.
  pub select_above :
      (xs : List A) (s n after : ℕ)
      → map key xs ≡ range s n
      → select (λ x. ltb after (key x)) xs ≡ drop (after + 1 - s) xs
  unfolding select
  select_above [] s n after h = drop_nil (after + 1 - s)
  select_above (x ∷ xs) s zero after h = ground arith
  select_above (x ∷ xs) s (suc n) after h = elim (Bool-cases (ltb after (key x))) [
    | inl e ↦
        rw (e, select_above xs (suc s) n after (ground arith))
          (drop_cons_none x xs (after + 1 - s) (after + 1 - suc s) (ground arith) (ground arith))
    | inr e ↦
        rw (e, select_above xs (suc s) n after (ground arith))
          (drop_cons x xs (after + 1 - s) (after + 1 - suc s) (ground arith))
  ]

module _ {A : Type 0} (p q : A → Bool) where
  -- Two conditions select in two passes.
  pub select_and : (xs : List A) → select (λ x. p x && q x) xs ≡ select q (select p xs)
  unfolding select
  select_and [] = refl
  select_and (x ∷ xs) = ground (arith, select_and xs)

module _ {A : Type 0} (p q : A → Bool) where
  -- Where one row fits `p`, some row fits `q` or `p`.
  pub exists_where-fetch_one :
      (xs : List A) (x : A) → fetch_one p xs ≡ some x → exists_where (λ y. q y || p y) xs ≡ true
  unfolding fetch_one exists_where
  exists_where-fetch_one [] x h = ground arith
  exists_where-fetch_one (y ∷ xs) x h = ground (arith, exists_where-fetch_one xs x)

  pub exists_where_none :
      (xs : List A) → exists_where (λ y. q y || p y) xs ≡ false → exists_where p xs ≡ false
  unfolding exists_where
  exists_where_none [] h = refl
  exists_where_none (y ∷ xs) h = ground (arith, exists_where_none xs)

  pub exists_where-deleted :
      (xs : List A) → exists_where p xs ≡ false → exists_where p (delete_where q xs) ≡ false
  unfolding exists_where delete_where
  exists_where-deleted [] h = refl
  exists_where-deleted (x ∷ xs) h = ground (arith, exists_where-deleted xs)

  -- A row that no deletion touches and no other row matches stands for itself.
  pub exists_where-delete :
      (xs : List A) (y : A)
      → exists_where p xs ≡ false
      → exists_where p (delete_where q (xs ++ y ∷ [])) ≡ (not (q y) && p y)
  unfolding exists_where delete_where
  exists_where-delete [] y h = ground arith
  exists_where-delete (x ∷ xs) y h = ground (arith, exists_where-delete xs y)

  -- After the rows that `q` picks are deleted, a test that only those meet finds the new row alone.
  pub fetch_one-delete :
      (xs : List A) (y : A)
      → ((x : A) → p x ≡ true → q x ≡ true)
      → fetch_one p (delete_where q xs ++ y ∷ []) ≡ (if p y then some y else none)
  unfolding fetch_one delete_where
  fetch_one-delete [] y h = ground arith
  fetch_one-delete (x ∷ xs) y h = ground (arith, h x, fetch_one-delete xs y h)

  -- A test that no deleted row meets finds what it found before, or the new row.
  pub fetch_one-delete_other :
      (xs : List A) (y : A)
      → ((x : A) → p x ≡ true → q x ≡ false)
      → p y ≡ false
      → fetch_one p (delete_where q xs ++ y ∷ []) ≡ fetch_one p xs
  unfolding fetch_one delete_where
  fetch_one-delete_other [] y h e = ground arith
  fetch_one-delete_other (x ∷ xs) y h e = ground (arith, h x, fetch_one-delete_other xs y h e)
