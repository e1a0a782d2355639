-- ===== src/Store/Hosts/Placement.antt =====
-- The host that `choose_cell_host` picks.
use nadi.Common.{
  ℕ, ◌≤◌, ◌≡◌, Bool, true, false, none, some, List, [], ◌∷◌, All, arith, string_eq, nat_eq, ◌↔◌,
  Bool-cases, inl, inr,
}
use nadi.Sql.{select, order_by, exists_where}
use nadi.Sql.Laws.{select-All, select_nil, select_none}
use nadi.Sql.Order.{limit_one-All, limit_one-none, limit_one-order_by, order_by-All}
use nadi.Store.Schema.{CellHost, Store}
use nadi.Store.Hosts.{has_room, comes_first, best_host}

module _ {Text : Type 0} where
  comes_first_le :
      (a b : CellHost Text) → comes_first a b ≡ true → a.capacity_used ≤ b.capacity_used
  comes_first_le a b h = ground arith

  comes_first_ge :
      (a b : CellHost Text) → comes_first a b ≡ false → b.capacity_used ≤ a.capacity_used
  comes_first_ge a b h = ground arith

  All-unselect :
      (p : CellHost Text → Bool) (n : ℕ) (xs : List (CellHost Text))
      → All (λ x. n ≤ x.capacity_used) (select p xs)
      → All (λ x. p x ≡ true → n ≤ x.capacity_used) xs
  unfolding select
  All-unselect p n [] h = tt
  All-unselect p n (x ∷ xs) h = elim (Bool-cases (p x)) [
    | inl e ↦
        let k : (n ≤ x.capacity_used) × All (λ x. n ≤ x.capacity_used) (select p xs) = rw e at h in
        (λ _. k.0, All-unselect p n xs k.1)
    | inr e ↦ (λ f. absurd (cc), All-unselect p n xs (rw e at h))
  ]

  -- The chosen host is ready and has room, and no host that is ready and has room is used less.
  pub best_host-least :
      (s : Store Text) (h : CellHost Text)
      → best_host s ≡ some h
      → (has_room h ≡ true)
        × All (λ x. has_room x ≡ true → h.capacity_used ≤ x.capacity_used) s.cell_hosts
  unfolding best_host
  best_host-least s h e =
      let ready = select has_room s.cell_hosts in
      (
        limit_one-All (λ x. has_room x ≡ true) (order_by comes_first ready) h
            (order_by-All comes_first (λ x. has_room x ≡ true) ready
              (select-All has_room s.cell_hosts))
            e,
        All-unselect has_room h.capacity_used s.cell_hosts (
            limit_one-order_by comes_first (λ x. x.capacity_used) comes_first_le comes_first_ge
              ready h e),
      )

  -- No host is chosen exactly if none is ready with room.
  pub best_host-none :
      (s : Store Text) → (best_host s ≡ none) ↔ (exists_where has_room s.cell_hosts ≡ false)
  unfolding best_host order_by
  best_host-none s = (
    λ e. select_nil has_room s.cell_hosts (limit_one-none comes_first _ e),
    λ e. rw (select_none has_room s.cell_hosts e, order_by),
  )
