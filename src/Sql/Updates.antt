-- ===== src/Sql/Updates.antt =====
-- Laws of UPDATE.
use nadi.Common.{
  CountsUp, length, ap, ◌≤◌, ℕ, suc, ◌≡◌, refl, Bool, true, false, none, some, List, [], ◌∷◌, map,
  inl, inr, Bool-cases, All, arith, if◌then◌else◌,
}
use nadi.Sql.{select, fetch_one, update_where, exists_where, count_where}

module _ {A : Type 0} (p q : A → Bool) (f : A → A) where
  -- An update that leaves the test `p` as it is selects the updated rows.
  pub select-update :
      (xs : List A)
      → ((x : A) → p (f x) ≡ p x)
      → select p (update_where q f xs) ≡ update_where q f (select p xs)
  unfolding select update_where
  select-update [] h = refl
  select-update (x ∷ xs) h = ground (arith, h x, select-update xs h)

  pub exists_where-update :
      (xs : List A)
      → ((x : A) → p (f x) ≡ p x)
      → exists_where p (update_where q f xs) ≡ exists_where p xs
  unfolding exists_where update_where
  exists_where-update [] h = refl
  exists_where-update (x ∷ xs) h = ground (arith, h x, exists_where-update xs h)

  pub fetch_one-update :
      (xs : List A)
      → ((x : A) → p (f x) ≡ p x)
      → fetch_one p (update_where q f xs)
        ≡ (elim (fetch_one p xs) [ none ↦ none | some x ↦ some (if q x then f x else x) ])
  unfolding fetch_one update_where
  fetch_one-update [] h = refl
  fetch_one-update (x ∷ xs) h = ground (arith, h x, fetch_one-update xs h)

module _ {A : Type 0} (p : A → Bool) (f : A → A) where
  -- After an update of all rows that fit, none of which fits any more.
  pub select-update_out :
      (xs : List A) → ((x : A) → p (f x) ≡ false) → select p (update_where p f xs) ≡ []
  unfolding select update_where
  select-update_out [] h = refl
  select-update_out (x ∷ xs) h = ground (arith, h x, select-update_out xs h)

module _ {A : Type 0} (p q : A → Bool) (f : A → A) where
  -- An update whose rows, and no others, meet a new test is read back by that test.
  pub select-update_exactly :
      (xs : List A)
      → ((x : A) → q (f x) ≡ true)
      → All (λ x. q x ≡ false) xs
      → select q (update_where p f xs) ≡ map f (select p xs)
  unfolding select update_where
  select-update_exactly [] hit miss = refl
  select-update_exactly (x ∷ xs) hit miss = elim (Bool-cases (p x)) [
    | inl e ↦ rw (e, hit x, select-update_exactly xs hit miss.1)
    | inr e ↦ rw (e, miss.0, select-update_exactly xs hit miss.1)
  ]

  pub All-update {κ} :
      (P : A → Type κ) (xs : List A)
      → ((x : A) → P x → P (f x))
      → All P xs
      → All P (update_where p f xs)
  unfolding update_where
  All-update P [] keep h = tt
  All-update P (x ∷ xs) keep h = elim (Bool-cases (p x)) [
    | inl e ↦ rw e (keep x h.0, All-update P xs keep h.1)
    | inr e ↦ rw e (h.0, All-update P xs keep h.1)
  ]

  -- As above, where the rows that the update leaves alone do not matter.
  pub All-update_fits {κ} :
      (P : A → Type κ) (xs : List A)
      → ((x : A) → p x ≡ true → P x → P (f x))
      → All P xs
      → All P (update_where p f xs)
  unfolding update_where
  All-update_fits P [] keep h = tt
  All-update_fits P (x ∷ xs) keep h = elim (Bool-cases (p x)) [
    | inl e ↦ rw e (keep x e h.0, All-update_fits P xs keep h.1)
    | inr e ↦ rw e (h.0, All-update_fits P xs keep h.1)
  ]

  -- What the update makes true of the rows that fit, and what was true of all others.
  pub All-updated {κ} :
      (P : A → Type κ) (xs : List A)
      → ((x : A) → p x ≡ true → P (f x))
      → ((x : A) → p x ≡ false → P x)
      → All P (update_where p f xs)
  unfolding update_where
  All-updated P [] hit miss = tt
  All-updated P (x ∷ xs) hit miss = elim (Bool-cases (p x)) [
    | inl e ↦ rw e (hit x e, All-updated P xs hit miss)
    | inr e ↦ rw e (miss x e, All-updated P xs hit miss)
  ]

module _ {A B : Type 0} (p : A → Bool) (f : A → A) (key : A → B) where
  -- An update that leaves a column alone leaves it alone in the whole table.
  pub map-update :
      (xs : List A) → ((x : A) → key (f x) ≡ key x) → map key (update_where p f xs) ≡ map key xs
  unfolding update_where
  map-update [] h = refl
  map-update (x ∷ xs) h = ground (arith, h x, map-update xs h)

module _ {A : Type 0} (p : A → Bool) (f : A → A) where
  pub length-update : (xs : List A) → length (update_where p f xs) ≡ length xs
  unfolding update_where
  length-update [] = refl
  length-update (x ∷ xs) = ap suc (length-update xs)

  pub CountsUp-update :
      (key : A → ℕ) (xs : List A)
      → ((x : A) → key (f x) ≡ key x)
      → CountsUp key xs
      → CountsUp key (update_where p f xs)
  CountsUp-update key xs same h = rw (map-update p f key xs same, length-update xs) h

module _ {A : Type 0} (p q : A → Bool) (f : A → A) where
  -- An update that makes no row fit a test makes none more fit it.
  pub count_where-update_le :
      (xs : List A)
      → ((x : A) → p (f x) ≡ true → p x ≡ true)
      → count_where p (update_where q f xs) ≤ count_where p xs
  unfolding select update_where
  count_where-update_le [] h = omega arith
  count_where-update_le (x ∷ xs) h = ground (arith, h x, count_where-update_le xs h)

pub All-rows :
    {A : Type 0} (P : A → Type 0) (p : A → Bool) (f : A → A) (xs : List A)
    → All (λ x. P (if p x then f x else x)) xs
    → All P (update_where p f xs)
unfolding update_where
All-rows P p f [] h = tt
All-rows P p f (x ∷ xs) h = (h.0, All-rows P p f xs h.1)

pub All-mono :
    {A : Type 0} (P Q : A → Type 0) (xs : List A) → ((x : A) → P x → Q x) → All P xs → All Q xs
All-mono P Q [] f h = tt
All-mono P Q (x ∷ xs) f h = (f x h.0, All-mono P Q xs f h.1)
