-- ===== src/Store/Hosts.antt =====
-- The tables `cell_hosts` and `sandbox_hosts`: registration, heartbeats and the choice of a host.
pub mod Placement
use nadi.Common.{
  ℕ, String, Bool, ◌&&◌, ◌||◌, Option, none, some, [], ◌∷◌, ◌++◌, ltb, leb, ◌==◌, string_eq, nat_eq,
  if◌then◌else◌,
}
use nadi.Common.Int.{ℤ, pos, ltb_ℤ}
use nadi.Json.{Fields}
use nadi.Exec.{
  Action, Result, ok, pure, raise, lift, gets, modify, or_raise, raise_if, integrity,
  bad_host_table, no_capacity, then_result, ◌>>=◌, ◌>>◌,
}
use nadi.Sql.{select, fetch_one, update_where, exists_where, order_by, limit_one}
use nadi.Store.Schema.{Env, CellHost, Store, now, uuid4, json_text, json_loads}

module _ {Text : Type 0} where
  -- WHERE status='ready' AND capacity_used < capacity_total
  abbrev pub has_room : CellHost Text → Bool
  has_room h = h.status == "ready" && ltb_ℤ (pos h.capacity_used) h.capacity_total

  -- ORDER BY capacity_used ASC, created_at ASC
  abbrev pub comes_first : CellHost Text → CellHost Text → Bool
  comes_first a b =
      ltb a.capacity_used b.capacity_used
      || (a.capacity_used == b.capacity_used && leb a.created_at b.created_at)

  -- The row that `choose_cell_host` selects.
  unfoldable pub best_host : Store Text → Option (CellHost Text)
  best_host s = limit_one (order_by comes_first (select has_room s.cell_hosts))

module _ {Text : Type 0} (env : Env Text) where
  -- The two branches of `upsert_cell_host`, and its result `cid`.
  refresh_cell_host :
      String → String → String → ℤ → Option Fields → ℕ → String → Action (Store Text) String
  refresh_cell_host host_id zone address capacity_total metadata t cid = do
    modify (λ s. record s {
      cell_hosts =
          update_where (λ h. h.host_id == host_id)
            (λ h. record h {
              zone = zone;
              address = address;
              capacity_total = capacity_total;
              status = "ready";
              last_heartbeat_at = some t;
              metadata = json_text env metadata;
              updated_at = t;
            })
            s.cell_hosts;
    })
    pure cid

  insert_cell_host : String → String → String → ℤ → Option Fields → ℕ → Action (Store Text) String
  unfolding uuid4
  insert_cell_host host_id zone address capacity_total metadata t = do
    cid ← uuid4 env
    taken ← gets (λ s. exists_where (λ h. h.id == cid) s.cell_hosts)
    raise_if taken integrity
    modify (λ s. record s {
      cell_hosts =
          s.cell_hosts
          ++ record {
            id = cid;
            host_id = host_id;
            zone = zone;
            address = address;
            capacity_total = capacity_total;
            capacity_used = 0;
            status = "ready";
            last_heartbeat_at = some t;
            metadata = json_text env metadata;
            created_at = t;
            updated_at = t;
          }
            ∷ [];
    })
    pure cid

  unfoldable pub upsert_cell_host :
      String → String → String → ℤ → Option Fields → Action (Store Text) String
  unfolding refresh_cell_host insert_cell_host now
  upsert_cell_host host_id zone address capacity_total metadata = do
    t ← now env
    existing ← gets (λ s. fetch_one (λ h. h.host_id == host_id) s.cell_hosts)
    elim existing [
      | some h ↦ refresh_cell_host host_id zone address capacity_total metadata t h.id
      | none ↦ insert_cell_host host_id zone address capacity_total metadata t
    ]

  refresh_sandbox_host :
      String → String → String → Option Fields → ℕ → String → Action (Store Text) String
  refresh_sandbox_host host_id zone address metadata t sid = do
    modify (λ s. record s {
      sandbox_hosts =
          update_where (λ h. h.host_id == host_id)
            (λ h. record h {
              zone = zone;
              address = address;
              status = "ready";
              last_heartbeat_at = some t;
              metadata = json_text env metadata;
              updated_at = t;
            })
            s.sandbox_hosts;
    })
    pure sid

  insert_sandbox_host : String → String → String → Option Fields → ℕ → Action (Store Text) String
  unfolding uuid4
  insert_sandbox_host host_id zone address metadata t = do
    sid ← uuid4 env
    taken ← gets (λ s. exists_where (λ h. h.id == sid) s.sandbox_hosts)
    raise_if taken integrity
    modify (λ s. record s {
      sandbox_hosts =
          s.sandbox_hosts
          ++ record {
            id = sid;
            host_id = host_id;
            zone = zone;
            address = address;
            status = "ready";
            last_heartbeat_at = some t;
            metadata = json_text env metadata;
            created_at = t;
            updated_at = t;
          }
            ∷ [];
    })
    pure sid

  unfoldable pub upsert_sandbox_host :
      String → String → String → Option Fields → Action (Store Text) String
  unfolding refresh_sandbox_host insert_sandbox_host now
  upsert_sandbox_host host_id zone address metadata = do
    t ← now env
    existing ← gets (λ s. fetch_one (λ h. h.host_id == host_id) s.sandbox_hosts)
    elim existing [
      | some h ↦ refresh_sandbox_host host_id zone address metadata t h.id
      | none ↦ insert_sandbox_host host_id zone address metadata t
    ]

  -- `heartbeat_host` on each of the two tables; the clock is read twice.
  beat_cell_host : String → Action (Store Text) (Unit {0})
  unfolding now
  beat_cell_host host_id = do
    beat ← now env
    t ← now env
    modify (λ s. record s {
      cell_hosts =
          update_where (λ h. h.host_id == host_id)
            (λ h. record h { last_heartbeat_at = some beat; status = "ready"; updated_at = t })
            s.cell_hosts;
    })

  beat_sandbox_host : String → Action (Store Text) (Unit {0})
  unfolding now
  beat_sandbox_host host_id = do
    beat ← now env
    t ← now env
    modify (λ s. record s {
      sandbox_hosts =
          update_where (λ h. h.host_id == host_id)
            (λ h. record h { last_heartbeat_at = some beat; status = "ready"; updated_at = t })
            s.sandbox_hosts;
    })

  unfoldable pub heartbeat_host : String → String → Action (Store Text) (Unit {0})
  unfolding beat_cell_host beat_sandbox_host
  heartbeat_host table host_id =
      if table == "cell_hosts"
      then beat_cell_host host_id
      else if table == "sandbox_hosts"
      then beat_sandbox_host host_id
      else raise bad_host_table

  -- `_row` of a cell host
  unfoldable pub cell_host_row : CellHost Text → Result (CellHost Fields)
  cell_host_row row = then_result (json_loads env row.metadata) λ m. ok (record {
    id = row.id;
    host_id = row.host_id;
    zone = row.zone;
    address = row.address;
    capacity_total = row.capacity_total;
    capacity_used = row.capacity_used;
    status = row.status;
    last_heartbeat_at = row.last_heartbeat_at;
    metadata = m;
    created_at = row.created_at;
    updated_at = row.updated_at;
  })

  unfoldable pub choose_cell_host : Action (Store Text) (CellHost Fields)
  unfolding best_host cell_host_row
  choose_cell_host = do
    row ← gets best_host
    found ← or_raise row no_capacity
    lift (cell_host_row found)
