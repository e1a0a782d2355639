-- ===== src/Dict.antt =====
-- Python's `dict`, of which the program reads no order.
use nadi.Sql.{select, insert_by, order_by}
use nadi.Common.{
  ◌≡◌, ◌∙◌, sym, ap, Bool, inl, inr, Bool-cases, refl, Option, none, some, List, [], ◌∷◌, arith, Eq,
  ◌==◌, if◌then◌else◌,
}

abbrev pub Dict : Type 0 → Type 0 → Type 0
Dict K V = List (K × V)

module _ {K V : Type 0} ⦃e : Eq K⦄ where
  -- `d.get(k)`
  unfoldable pub lookup : K → Dict K V → Option V
  lookup k [] = none
  lookup k ((j, v) ∷ d) = if j == k then some v else lookup k d

  -- `d[k] = v`
  unfoldable pub put : K → V → Dict K V → Dict K V
  put k v [] = (k, v) ∷ []
  put k v ((j, w) ∷ d) = if j == k then (k, v) ∷ d else (j, w) ∷ put k v d

  -- `d.pop(k, None)`
  unfoldable pub remove : K → Dict K V → Dict K V
  remove k [] = []
  remove k ((j, v) ∷ d) = if j == k then remove k d else (j, v) ∷ remove k d

  pub lookup-put :
      (k j : K) (v : V) (d : Dict K V)
      → lookup j (put k v d) ≡ (if k == j then some v else lookup j d)
  unfolding lookup put
  lookup-put k j v [] = refl
  lookup-put k j v ((i, w) ∷ d) =
      ground (arith, e.equals_iff k j, e.equals_iff i k, e.equals_iff i j, lookup-put k j v d)

  pub lookup-remove :
      (k j : K) (d : Dict K V) → lookup j (remove k d) ≡ (if k == j then none else lookup j d)
  unfolding lookup remove
  lookup-remove k j [] = ground arith
  lookup-remove k j ((i, w) ∷ d) =
      ground (arith, e.equals_iff k j, e.equals_iff i k, e.equals_iff i j, lookup-remove k j d)

  -- No key stands in two entries.
  unfoldable pub AreDistinct : Dict K V → Type 0
  AreDistinct [] = Unit {0}
  AreDistinct ((k, v) ∷ d) = (lookup k d ≡ none) × AreDistinct d

  pub put-AreDistinct : (k : K) (v : V) (d : Dict K V) → AreDistinct d → AreDistinct (put k v d)
  unfolding AreDistinct put lookup
  put-AreDistinct k v [] h = (refl, tt)
  put-AreDistinct k v ((j, w) ∷ d) h = elim (Bool-cases (j == k)) [
    | inl here ↦ rw here (rw (sym ((e.equals_iff j k).0 here)) h.0, h.1)
    | inr there ↦ rw there (
      ground (arith, e.equals_iff k j, e.equals_iff j k, lookup-put k j v d, h.0),
      put-AreDistinct k v d h.1,
    )
  ]

  pub lookup-select :
      (p : K × V → Bool) (k : K) (d : Dict K V)
      → AreDistinct d
      → lookup k (select p d)
        ≡ (elim (lookup k d) [ none ↦ none | some v ↦ if p (k, v) then some v else none ])
  unfolding AreDistinct select lookup
  lookup-select p k [] h = refl
  lookup-select p k ((j, w) ∷ d) h = elim (Bool-cases (j == k)) [
    | inl here ↦
        let same = (e.equals_iff j k).0 here in
        ground (
          arith,
          here,
          ap (λ x. p (x, w)) same,
          lookup-select p k d h.1,
          ap (λ x. lookup x d) same,
          h.0,
        )
    | inr there ↦ ground (arith, there, lookup-select p k d h.1)
  ]

  lookup-insert_by :
      (le : K × V → K × V → Bool) (x : K × V) (k : K) (d : Dict K V)
      → lookup x.0 d ≡ none
      → lookup k (insert_by le x d) ≡ lookup k (x ∷ d)
  unfolding insert_by lookup
  lookup-insert_by le x k [] h = refl
  lookup-insert_by le x k (y ∷ d) h = ground (
    arith,
    lookup-insert_by le x k d,
    e.equals_iff x.0 k,
    e.equals_iff y.0 k,
    e.equals_iff y.0 x.0,
  )

  insert_by-AreDistinct :
      (le : K × V → K × V → Bool) (x : K × V) (d : Dict K V)
      → lookup x.0 d ≡ none
      → AreDistinct d
      → AreDistinct (insert_by le x d)
  unfolding insert_by lookup AreDistinct
  insert_by-AreDistinct le x [] h k = (refl, tt)
  insert_by-AreDistinct le x (y ∷ d) h k = elim (Bool-cases (le x y)) [
    | inl first ↦ rw first (h, k)
    | inr later ↦ rw later (
      ground
          (arith, lookup-insert_by le x y.0 d, e.equals_iff x.0 y.0, e.equals_iff y.0 x.0, h, k.0),
      insert_by-AreDistinct le x d (ground (arith, h)) k.1,
    )
  ]

  -- A dictionary that is sorted holds the same entries.
  pub lookup-order_by :
      (le : K × V → K × V → Bool) (k : K) (d : Dict K V)
      → AreDistinct d
      → lookup k (order_by le d) ≡ lookup k d
  unfolding order_by lookup AreDistinct
  lookup-order_by le k [] h = refl
  lookup-order_by le k (x ∷ d) h =
      lookup-insert_by le x k (order_by le d) (lookup-order_by le x.0 d h.1 ∙ h.0)
      ∙ ground (arith, lookup-order_by le k d h.1)

  pub order_by-AreDistinct :
      (le : K × V → K × V → Bool) (d : Dict K V) → AreDistinct d → AreDistinct (order_by le d)
  unfolding order_by AreDistinct
  order_by-AreDistinct le [] h = tt
  order_by-AreDistinct le (x ∷ d) h =
      insert_by-AreDistinct le x (order_by le d) (lookup-order_by le x.0 d h.1 ∙ h.0)
        (order_by-AreDistinct le d h.1)
