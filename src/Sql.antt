-- ===== src/Sql.antt =====
-- What the SQL statements of nadi/store.py do to a table. A table is the list of its rows in the
-- order of their insertion.
pub mod Laws
pub mod Updates
pub mod Order
use nadi.Common.{
  ℕ, suc, ◌<◌, ◌≡◌, Bool, true, false, not, Option, none, some, List, [], ◌∷◌, length,
  if◌then◌else◌, leb,
}

module _ {A : Type 0} where
  -- SELECT * FROM rows WHERE p
  unfoldable pub select : (A → Bool) → List A → List A
  select p [] = []
  select p (x ∷ xs) = if p x then x ∷ select p xs else select p xs

  -- … .fetchone(), where at most one row fits
  unfoldable pub fetch_one : (A → Bool) → List A → Option A
  fetch_one p [] = none
  fetch_one p (x ∷ xs) = if p x then some x else fetch_one p xs

  -- UPDATE rows SET f WHERE p
  unfoldable pub update_where : (A → Bool) → (A → A) → List A → List A
  update_where p f [] = []
  update_where p f (x ∷ xs) = (if p x then f x else x) ∷ update_where p f xs

  -- DELETE FROM rows WHERE p
  unfoldable pub delete_where : (A → Bool) → List A → List A
  delete_where p [] = []
  delete_where p (x ∷ xs) = if p x then delete_where p xs else x ∷ delete_where p xs

  -- whether a row fits: a reference that a foreign key needs, or a value that UNIQUE forbids
  unfoldable pub exists_where : (A → Bool) → List A → Bool
  exists_where p [] = false
  exists_where p (x ∷ xs) = if p x then true else exists_where p xs

  -- SELECT COUNT(*) FROM rows WHERE p
  abbrev pub count_where : (A → Bool) → List A → ℕ
  count_where p rows = length (select p rows)

  -- ORDER BY, as an insertion sort by the test `le`
  unfoldable pub insert_by : (A → A → Bool) → A → List A → List A
  insert_by le x [] = x ∷ []
  insert_by le x (y ∷ ys) = if le x y then x ∷ y ∷ ys else y ∷ insert_by le x ys

  unfoldable pub order_by : (A → A → Bool) → List A → List A
  unfolding insert_by
  order_by le [] = []
  order_by le (x ∷ xs) = insert_by le x (order_by le xs)

  -- ORDER BY one column of numbers, ascending
  abbrev pub ascending : (A → ℕ) → A → A → Bool
  ascending key x y = leb (key x) (key y)

  -- LIMIT 1
  abbrev pub limit_one : List A → Option A
  limit_one [] = none
  limit_one (x ∷ xs) = some x

  -- SELECT COALESCE(MAX(key), 0) FROM rows
  unfoldable pub max_of : (A → ℕ) → List A → ℕ
  max_of key [] = 0
  max_of key (x ∷ xs) = let m = max_of key xs in if leb (key x) m then m else key x
