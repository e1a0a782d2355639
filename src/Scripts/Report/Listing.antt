-- ===== src/Scripts/Report/Listing.antt =====
-- The files that `python_files` lists.
use nadi.Common.{
  ◌≡◌, refl, ap, ◌∙◌, String, Bool, false, not, ◌&&◌, ◌||◌, ◌++◌, List, [], ◌∷◌, arith, ◌==◌,
  string_eq, eq_iff, if◌then◌else◌, Bool-cases, inl, inr,
}
use nadi.Sql.{select, order_by, insert_by, exists_where, count_where}
use nadi.Scripts.Report.{Tree, listed_files, distinct, python_files, path_leb, is_cached}

count-insert_by :
    {A : Type 0} (le : A → A → Bool) (q : A → Bool) (x : A) (ys : List A)
    → count_where q (insert_by le x ys) ≡ count_where q (x ∷ ys)
unfolding select insert_by
count-insert_by le q x [] = refl
count-insert_by le q x (y ∷ ys) = ground (arith, count-insert_by le q x ys)

count-order_by :
    {A : Type 0} (le : A → A → Bool) (q : A → Bool) (xs : List A)
    → count_where q (order_by le xs) ≡ count_where q xs
unfolding select order_by
count-order_by le q [] = refl
count-order_by le q (x ∷ xs) =
    count-insert_by le q x (order_by le xs) ∙ ground (arith, count-order_by le q xs)

exists-distinct :
    (p : String) (xs : List String)
    → exists_where (λ q. p == q) (distinct xs) ≡ exists_where (λ q. p == q) xs
unfolding distinct exists_where
exists-distinct p [] = refl
exists-distinct p (x ∷ xs) = elim (Bool-cases (exists_where (λ q. x == q) (distinct xs))) [
  | inl e ↦ rw e (ground (arith, exists-distinct p xs, e, eq_iff p x))
  | inr e ↦ rw e (ground (arith, exists-distinct p xs))
]

none-count :
    (p : String) (xs : List String)
    → exists_where (λ q. p == q) xs ≡ false
    → count_where (λ q. p == q) xs ≡ 0
unfolding exists_where select
none-count p [] h = refl
none-count p (x ∷ xs) h = ground (arith, none-count p xs)

count-distinct :
    (p : String) (xs : List String)
    → count_where (λ q. p == q) (distinct xs) ≡ (if exists_where (λ q. p == q) xs then 1 else 0)
unfolding distinct exists_where select
count-distinct p [] = refl
count-distinct p (x ∷ xs) = elim (Bool-cases (exists_where (λ q. x == q) (distinct xs))) [
  | inl e ↦ rw e (ground (arith, count-distinct p xs, exists-distinct p xs, e, eq_iff p x))
  | inr e ↦ rw e (
      ground (
        arith,
        count-distinct p xs,
        none-count p (distinct xs),
        exists-distinct p xs,
        e,
        eq_iff p x,
      ))
]

exists-append :
    (p : String) (xs ys : List String)
    → exists_where (λ q. p == q) (xs ++ ys)
      ≡ (exists_where (λ q. p == q) xs || exists_where (λ q. p == q) ys)
unfolding exists_where
exists-append p [] ys = ground arith
exists-append p (x ∷ xs) ys = ground (arith, exists-append p xs ys)

-- An argument that is a Python file stands for itself; any other one that is a directory stands for the
-- `.py` paths below it that are in no `__pycache__`.
module _ (tree : Tree) (p : String) where
  abbrev pub is_python : String → Bool
  is_python path = tree.is_file path && tree.suffix path == ".py"

  abbrev pub is_uncached : Bool
  is_uncached = not (exists_where (λ part. part == "__pycache__") (tree.parts p))

  abbrev pub stands_for_it : String → Bool
  stands_for_it path =
      (is_python path && p == path)
      || (not (is_python path)
          && (tree.is_dir path && (is_uncached && exists_where (λ q. p == q) (tree.rglob_py path))))

  exists-uncached :
      (found : List String)
      → exists_where (λ q. p == q) (select (λ q. not (is_cached tree q)) found)
        ≡ (is_uncached && exists_where (λ q. p == q) found)
  unfolding exists_where select
  exists-uncached [] = ground arith
  exists-uncached (q ∷ found) = elim (Bool-cases (p == q)) [
    | inl e ↦
        let same : is_cached tree p ≡ is_cached tree q = ap (is_cached tree) ((eq_iff p q).0 e) in
        elim (Bool-cases (is_cached tree q)) [
          | inl cached ↦ rw (cached, e) (ground (arith, exists-uncached found, same, cached))
          | inr kept ↦ rw (kept, e) (ground (arith, e, same, kept))
        ]
    | inr e ↦ elim (Bool-cases (is_cached tree q)) [
      | inl cached ↦ rw (cached, e) (exists-uncached found)
      | inr kept ↦ rw (kept, e) (ground (arith, e, exists-uncached found))
    ]
  ]

  exists-listed :
      (paths : List String)
      → exists_where (λ q. p == q) (listed_files tree paths) ≡ exists_where stands_for_it paths
  unfolding exists_where listed_files
  exists-listed [] = refl
  exists-listed (path ∷ paths) = elim (Bool-cases (is_python path)) [
    | inl python ↦ rw python (ground (arith, python, exists-listed paths))
    | inr other ↦ elim (Bool-cases (tree.is_dir path)) [
      | inl dir ↦
          rw (other, dir)
            (exists-append p (select (λ q. not (is_cached tree q)) (tree.rglob_py path))
                (listed_files tree paths)
              ∙ ground
                  (arith, other, dir, exists-uncached (tree.rglob_py path), exists-listed paths))
      | inr file ↦ rw (other, file) (ground (arith, other, file, exists-listed paths))
    ]
  ]

-- A path is listed once, however often it is found, if one of the arguments stands for it: the argument
-- is that path, a file with the suffix `.py`; or it is a directory, and the path is among the `.py` paths
-- below it and in no `__pycache__`. No other path is listed.
pub python_files_lem :
    (tree : Tree) (paths : List String) (p : String)
    → count_where (λ q. p == q) (python_files tree paths)
      ≡ (if exists_where (stands_for_it tree p) paths then 1 else 0)
unfolding python_files
python_files_lem tree paths p =
    count-order_by (path_leb tree) (λ q. p == q) (distinct (listed_files tree paths))
    ∙ (count-distinct p (listed_files tree paths) ∙ rw (exists-listed tree p paths) refl)
