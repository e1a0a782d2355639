-- ===== src/Broker/Capacity.antt =====
-- The capacity of the hosts that `place_session` places sessions on.
use nadi.Common.{
  ◌+◌, ◌≡◌, ◌⊎◌, ◌&&◌, sym, ap, ℕ, String, Bool, true, some, List, [], ◌∷◌, All, arith, ◌==◌,
  string_eq, inl, inr, Bool-cases, Option-cases, if◌then◌else◌,
}
use mathlib.Core.Path.{subst}
use nadi.Common.Int.{pos, ltb_ℤ, ◌≤ℤ◌}
use nadi.Json.{Fields}
use nadi.Exec.{ok, or_raise, no_callback}
use nadi.Exec.Keeps.{Keeps, bind-Keeps, or_raise-Keeps, continue-after}
use nadi.Sql.{select, order_by, update_where, exists_where}
use nadi.Sql.Updates.{All-rows, All-mono}
use nadi.Sql.Laws.{select-All, All-select}
use nadi.Sql.Order.{order_by-All, limit_one-All}
use nadi.Store.Schema.{Store, CellHost}
use nadi.Store.Sessions.{has_session, update_session_status}
use nadi.Store.Events.{append_event}
use nadi.Store.Hosts.{choose_cell_host, best_host, has_room, comes_first, cell_host_row}
use nadi.Store.Leases.{create_lease, is_host}
use nadi.Security.Jwt.{sign}
use nadi.Dict.{lookup}
use nadi.World.{World, Config}
use nadi.Celld.{create_cell, append_cell_event}
use nadi.Broker.{place_session}

All-update_room :
    {Text : Type 0} (p : CellHost Text → Bool) (t : ℕ) (xs : List (CellHost Text))
    → All (λ x. p x ≡ true → ltb_ℤ (pos x.capacity_used) x.capacity_total ≡ true) xs
    → All (λ x. pos x.capacity_used ≤ℤ x.capacity_total) xs
    → All
        (λ x. pos x.capacity_used ≤ℤ x.capacity_total)
        (update_where p (λ h. record h { capacity_used = h.capacity_used + 1; updated_at = t }) xs)
unfolding update_where
All-update_room p t [] room fits = tt
All-update_room p t (x ∷ xs) room fits = elim (Bool-cases (p x)) [
  | inl e ↦ rw e (ground (arith, room.0 e), All-update_room p t xs room.1 fits.1)
  | inr e ↦ rw e (fits.0, All-update_room p t xs room.1 fits.1)
]

module _ {Text : Type 0} where
  -- No other row of the table has the id of this one.
  abbrev pub IsAlone : List (CellHost Text) → CellHost Text → Type 0
  IsAlone hosts a = All (λ b. (b.id == a.id) ≡ true → a ≡ b) hosts

  abbrev pub Fits : CellHost Text → Type 0
  Fits h = pos h.capacity_used ≤ℤ h.capacity_total

  -- The primary key of the hosts, and that none of them is used beyond its capacity.
  pub record IsWithin (s : Store Text) : Type 0 where
    pub keyed : All (IsAlone s.cell_hosts) s.cell_hosts
    pub fits : All Fits s.cell_hosts

  IsWithin-cong : (s s' : Store Text) → s'.cell_hosts ≡ s.cell_hosts → IsWithin s → IsWithin s'
  IsWithin-cong s s' e h = record {
    keyed = subst (λ hs. All (IsAlone hs) hs) (sym e) h.keyed;
    fits = subst (All Fits) (sym e) h.fits;
  }

  -- Every row with the chosen host's id has room.
  abbrev HasRoom : String → Store Text → Type 0
  HasRoom id s =
      All (λ b. (b.id == id) ≡ true → ltb_ℤ (pos b.capacity_used) b.capacity_total ≡ true)
        s.cell_hosts

  best_host-HasRoom :
      (s : Store Text) (h : CellHost Text) → IsWithin s → best_host s ≡ some h → HasRoom h.id s
  unfolding best_host
  best_host-HasRoom s h k e =
      let ready = select has_room s.cell_hosts in
      let room : has_room h ≡ true =
        limit_one-All (λ x. has_room x ≡ true) (order_by comes_first ready) h
          (order_by-All comes_first (λ x. has_room x ≡ true) ready
            (select-All has_room s.cell_hosts))
          e in
      let alone : IsAlone s.cell_hosts h =
        limit_one-All (IsAlone s.cell_hosts) (order_by comes_first ready) h
          (order_by-All comes_first (IsAlone s.cell_hosts) ready
            (All-select has_room (IsAlone s.cell_hosts) s.cell_hosts k.keyed))
          e in
      let free : ltb_ℤ (pos h.capacity_used) h.capacity_total ≡ true = ground (arith, room) in
      All-mono _ _ s.cell_hosts
        (λ b same eq.
          subst (λ (x : CellHost Text). ltb_ℤ (pos x.capacity_used) x.capacity_total ≡ true)
            (same eq) free)
        alone

  -- One more session on the host with the id.
  abbrev take_place : String → ℕ → List (CellHost Text) → List (CellHost Text)
  take_place id t =
      update_where (is_host id)
        (λ h. record h { capacity_used = h.capacity_used + 1; updated_at = t })

  row_of : String → ℕ → CellHost Text → CellHost Text
  row_of id t h =
      if is_host id h then record h { capacity_used = h.capacity_used + 1; updated_at = t } else h

  row_of-id : (id : String) (t : ℕ) (h : CellHost Text) → (row_of id t h).id ≡ h.id
  unfolding row_of
  row_of-id id t h = ground arith

  take_place-IsAlone :
      (id : String) (t : ℕ) (hosts : List (CellHost Text))
      → All (IsAlone hosts) hosts
      → All (IsAlone (take_place id t hosts)) (take_place id t hosts)
  unfolding row_of
  take_place-IsAlone id t hosts h =
      let next = take_place id t hosts in
      let g = row_of id t in
      let pick =
        λ (x : CellHost Text). record x { capacity_used = x.capacity_used + 1; updated_at = t } in
      All-rows (IsAlone next) (is_host id) pick hosts (
        All-mono (IsAlone hosts) (λ a. IsAlone next (g a)) hosts
          (λ a alone.
            All-rows (λ b. (b.id == (g a).id) ≡ true → g a ≡ b) (is_host id) pick hosts
              (All-mono (λ b. (b.id == a.id) ≡ true → a ≡ b)
                (λ b. ((g b).id == (g a).id) ≡ true → g a ≡ g b) hosts
                (λ b same eq. ap g (same (rw (row_of-id id t a, row_of-id id t b) at eq))) alone))
          h)

  take_place-Fits :
      (id : String) (t : ℕ) (s : Store Text)
      → HasRoom id s
      → All Fits s.cell_hosts
      → All Fits (take_place id t s.cell_hosts)
  take_place-Fits id t s room fits = All-update_room (is_host id) t s.cell_hosts room fits

module _ {Text : Type 0} (c : Config Text) where
  create_lease_hosts :
      (sid id : String) (s : Store Text)
      → ((create_lease c.env sid id (pos 3600) s).1.cell_hosts ≡ s.cell_hosts)
        ⊎ ((create_lease c.env sid id (pos 3600) s).1.cell_hosts
            ≡ take_place id (c.env.time s.clock_reads) s.cell_hosts)
  unfolding create_lease
  create_lease_hosts sid id s =
      elim (Bool-cases (has_session sid s && exists_where (is_host id) s.cell_hosts)) [
        | inl e ↦ inr (ground (arith, e))
        | inr e ↦ inl (ground (arith, e))
      ]

  create_lease-IsWithin :
      (sid id : String) (s : Store Text)
      → HasRoom id s
      → IsWithin s
      → IsWithin (create_lease c.env sid id (pos 3600) s).1
  create_lease-IsWithin sid id s room h = elim (create_lease_hosts sid id s) [
    | inl e ↦ IsWithin-cong s _ e h
    | inr e ↦
        let t = c.env.time s.clock_reads in
        record {
          keyed =
              subst (λ hs. All (IsAlone hs) hs) (sym e)
                (take_place-IsAlone id t s.cell_hosts h.keyed);
          fits = subst (All Fits) (sym e) (take_place-Fits id t s room h.fits);
        }
  ]

  abbrev IsWithinWorld : World Text → Type 0
  IsWithinWorld w = IsWithin w.store

  create_cell-IsWithin : (host_id sid : String) → Keeps IsWithinWorld (create_cell c host_id sid)
  unfolding create_cell append_cell_event append_event sign update_session_status
  create_cell-IsWithin host_id sid w h = IsWithin-cong w.store _ (ground arith) h

  choose_cell_host-store : (s : Store Text) → (choose_cell_host c.env s).1 ≡ s
  unfolding choose_cell_host
  choose_cell_host-store s = ground arith

  choose_cell_host-HasRoom :
      (s : Store Text) (host : CellHost Fields)
      → IsWithin s
      → (choose_cell_host c.env s).0 ≡ ok host
      → HasRoom host.id s
  unfolding choose_cell_host cell_host_row
  choose_cell_host-HasRoom s host h e = elim (Option-cases (best_host s)) [
    | inl none' ↦ absurd (ground (arith, e, none'))
    | inr (row, found) ↦
        let same : row.id ≡ host.id = ground (arith, e, found) in
        subst (λ id. HasRoom id s) same (best_host-HasRoom s row h found)
  ]

  -- Where no host is used beyond its capacity and no two hosts share an id, both hold after
  -- `place_session`, whatever it returns or raises.
  pub place_session-IsWithin :
      (sid : String) (w : World Text) → IsWithin w.store → IsWithin (place_session c sid w).1.store
  unfolding place_session
  place_session-IsWithin sid w h =
      let s = (choose_cell_host c.env w.store).1 in
      let same = choose_cell_host-store w.store in
      continue-after IsWithinWorld (choose_cell_host c.env w.store).0 _ (record w { store = s })
        (subst IsWithin (sym same) h)
        (λ host e.
          let leased =
            create_lease-IsWithin sid host.id s
              (subst (HasRoom host.id) (sym same) (choose_cell_host-HasRoom w.store host h e))
              (subst IsWithin (sym same) h) in
          continue-after IsWithinWorld (create_lease c.env sid host.id (pos 3600) s).0 _ _ leased
            (λ lease _.
              let found = lookup host.host_id w.cell_callbacks in
              let placed = record w { store = (create_lease c.env sid host.id (pos 3600) s).1 } in
              bind-Keeps IsWithinWorld (or_raise found no_callback) _
                (or_raise-Keeps IsWithinWorld found no_callback)
                (λ callback.
                  bind-Keeps IsWithinWorld (create_cell c callback sid) _
                    (create_cell-IsWithin callback sid) (λ _ w h. h))
                placed leased))
