-- ===== src/Gateway/Opening.antt =====
-- The objects of a new server after a client has opened a session there.
use nadi.Common.{
  ℕ, ◌+◌, ◌*◌, ◌<◌, ◌≡◌, refl, ap, ◌∙◌, String, true, Option, some, none, [], ◌∷◌, arith, string_eq,
  beq_self,
}
use nadi.Common.Int.{pos, second, seconds, ltb_ℤ, ◌+ℤ◌}
use nadi.Json.{Fields, end, or_empty}
use nadi.Exec.{Action, ok, gets, then_result, or_raise, no_capacity, lift, ◌>>=◌}
use nadi.Exec.Returns.{bind_exact}
use nadi.Sql.{select, fetch_one, exists_where, max_of, order_by}
use nadi.Store.Schema.{CellHost, RoundTrips, json_text, json_loads}
use nadi.Store.Sessions.{create_session}
use nadi.Store.Events.{next_sequence}
use nadi.Store.Hosts.{
  upsert_cell_host, upsert_sandbox_host, choose_cell_host, best_host, cell_host_row,
}
use nadi.Store.Leases.{is_host, route_at, Route}
use nadi.Store.Leases.Routes.{lease_of, route_at-with_lease}
use nadi.Celld.Invariant.{create_cell-Keeps}
use nadi.Celld.Starting.{create_cell_ok}
use nadi.Store.Idle.{IsIdle, IsIdle-IsKept, Routing, Routing-IsKept}
use nadi.Dict.{lookup, put}
use nadi.World.{World, Config, empty_world, on_store}
use nadi.Store.Schema.{empty_store}
use nadi.Store.WellFormed.{
  IsWellFormed, IsWellFormed-moved, empty_store-IsWellFormed, store-IsWellFormed,
}
use nadi.Celld.{create_cell}
use nadi.Gateway.Conversation.{IsReady, route_at_same}
use nadi.Celld.Replying.{IsNext}
use nadi.Broker.{place_session}
use nadi.Broker.Placed.{placement, leased, place_session_ok}
use nadi.Stack.{local_stack}
use nadi.Gateway.{Created, open_session}

module _ {Text : Type 0} (c : Config Text) (tenant : String) (metadata : Option Fields) where
  abbrev created : World Text
  created =
      (on_store (create_session c.env tenant none none (some (or_empty metadata)))
        (local_stack c empty_world).1).1

  abbrev host_with : {J : Type 0} → J → CellHost J
  host_with meta = record {
    id = c.env.uuid 1;
    host_id = "cell-local";
    zone = "local";
    address = "inproc://cell";
    capacity_total = pos 100;
    capacity_used = 0;
    status = "ready";
    last_heartbeat_at = some (c.env.time 1);
    metadata = meta;
    created_at = c.env.time 1;
    updated_at = c.env.time 1;
  }

  created_hosts : created.store.cell_hosts ≡ host_with (json_text c.env none) ∷ []
  unfolding local_stack upsert_cell_host upsert_sandbox_host fetch_one exists_where create_session
  created_hosts = refl

  local_stack_ok : local_stack c empty_world ≡ (ok tt, (local_stack c empty_world).1)
  unfolding local_stack upsert_cell_host upsert_sandbox_host fetch_one exists_where
  local_stack_ok = refl

  created_id :
      (on_store
        (create_session c.env tenant none none (some (or_empty metadata)))
        (local_stack c empty_world).1).0
      ≡ ok (c.env.uuid 2)
  unfolding local_stack upsert_cell_host upsert_sandbox_host fetch_one exists_where create_session
  created_id = refl

  pub created-IsNext : IsNext c "cell-local" (c.env.uuid 2) 1 created.store
  unfolding local_stack upsert_cell_host upsert_sandbox_host fetch_one exists_where create_session
      next_sequence select max_of
  created-IsNext = (rw (beq_self (c.env.uuid 2)) refl, refl)

  best_created : best_host created.store ≡ some (host_with (json_text c.env none))
  unfolding local_stack upsert_cell_host upsert_sandbox_host fetch_one exists_where create_session
      best_host select order_by
  best_created = refl

  chosen :
      RoundTrips c.env → choose_cell_host c.env created.store ≡ (ok (host_with end), created.store)
  unfolding choose_cell_host cell_host_row
  chosen round =
      let row = host_with (json_text c.env none) in
      let read : cell_host_row c.env row ≡ ok (host_with end) =
        rw (round end, then_result, json_loads) refl in
      bind_exact (gets best_host)
        (λ x. or_raise x no_capacity >>= λ found. lift (cell_host_row c.env found)) created.store
        created.store (some row) (ap (λ b. (ok b, created.store)) best_created)
      ∙ ap (λ r. (r, created.store)) read

  callback : lookup "cell-local" created.cell_callbacks ≡ some "cell-local"
  unfolding local_stack lookup put upsert_cell_host upsert_sandbox_host fetch_one exists_where
      create_session
  callback = refl

  object : lookup "cell-local" created.cell_objects ≡ some "cell-local"
  unfolding local_stack lookup put upsert_cell_host upsert_sandbox_host fetch_one exists_where
      create_session
  object = refl

  -- The rest of the store is as it was.
  pub untouched :
      (created.store.events ≡ [])
      × (created.store.command_inbox ≡ [])
      × (created.store.last_command_id ≡ 0)
      × (created.store.clock_reads ≡ 3)
      × (created.store.uuid_reads ≡ 3)
      × (created.store.revoked_tokens ≡ [])
  unfolding local_stack upsert_cell_host upsert_sandbox_host fetch_one exists_where create_session
  untouched = (refl, refl, refl, refl, refl, refl)

  abbrev pub sid : String
  sid = c.env.uuid 2

  abbrev pub ready_for_cell : World Text
  ready_for_cell = leased c sid (host_with end) created

  abbrev pub opened : World Text
  opened = (create_cell c "cell-local" sid ready_for_cell).1

  open_session_steps :
      RoundTrips c.env
      → open_session c tenant metadata (local_stack c empty_world).1 ≡ (
        ok (record {
          session_id = sid;
          status = "running";
          route = placement c sid (host_with end) created;
        }),
        opened,
      )
  unfolding open_session exists_where
  open_session_steps round =
      let w = (local_stack c empty_world).1 in
      let hosted : exists_where (is_host (c.env.uuid 1)) created.store.cell_hosts ≡ true =
        rw created_hosts (rw (beq_self (c.env.uuid 1)) refl) in
      bind_exact (on_store (create_session c.env tenant none none (some (or_empty metadata)))) _ w
        created sid (ap (λ r. (r, created)) created_id)
      ∙ bind_exact (place_session c sid) _ created opened _ (
          place_session_ok c sid (host_with end) created "cell-local" 1 created-IsNext
            (chosen round) hosted callback)

  -- What a client that opens a session on a new server goes on with.
  pub opened_then :
      {B : Type 0} (m : Created → Action (World Text) B)
      → RoundTrips c.env
      → ((local_stack c >>= λ _. open_session c tenant metadata >>= m) empty_world)
        ≡ m
            (record {
              session_id = sid;
              status = "running";
              route = placement c sid (host_with end) created;
            })
            opened
  opened_then m round =
      let w = (local_stack c empty_world).1 in
      bind_exact (local_stack c) _ empty_world w tt local_stack_ok
      ∙ bind_exact (open_session c tenant metadata) m w opened _ (open_session_steps round)

  ready_for_cell-IsWellFormed : IsWellFormed c.env ready_for_cell.store
  ready_for_cell-IsWellFormed =
      IsWellFormed-moved c.env empty_store ready_for_cell.store untouched.0 untouched.1 untouched.2
        (omega arith) (empty_store-IsWellFormed c.env)

  abbrev pub route : Route
  route = record {
    lease = lease_of c.env sid (c.env.uuid 1) (pos 3600) created.store;
    host_id = "cell-local";
    address = "inproc://cell";
    zone = "local";
  }

  hosted :
      fetch_one (is_host (c.env.uuid 1)) created.store.cell_hosts
      ≡ some (host_with (json_text c.env none))
  unfolding fetch_one
  hosted = rw created_hosts (rw (beq_self (c.env.uuid 1)) refl)

  routed :
      (limit : ℕ)
      → ((t : ℕ) → t < limit → c.env.time t < c.env.time 3 + 3600 * second)
      → (t : ℕ) → t < limit
      → route_at sid (c.env.time t) ready_for_cell.store ≡ some route
  unfolding ◌+ℤ◌ seconds
  routed limit lives t h =
      let live : ltb_ℤ (pos (c.env.time t)) route.expires_at ≡ true =
        rw untouched.3 (ground (arith, lives t h)) in
      route_at-with_lease c.env sid (c.env.uuid 1) (pos 3600) created.store (c.env.time t)
        (host_with (json_text c.env none)) hosted
      ∙ rw live refl

  module _ (distinct : (i j : ℕ) → c.env.uuid i ≡ c.env.uuid j → i ≡ j)
      (round : RoundTrips c.env) where
    pub opened-IsReady :
        (limit : ℕ)
        → ((t : ℕ) → t < limit → c.env.time t < c.env.time 3 + 3600 * second)
        → IsReady c sid "cell-local" route limit 2 0 opened
    unfolding next_sequence select
    opened-IsReady limit lives =
        let w = ready_for_cell in
        let idle : IsIdle c.env sid w.store = rw untouched.1 refl in
        let next : IsNext c "cell-local" sid 1 w.store = created-IsNext in
        let cell = create_cell_ok c "cell-local" sid w 1 next in
        let frame =
          create_cell-Keeps c (Routing c.env w.store.session_leases w.store.cell_hosts 0)
            (Routing-IsKept c.env w.store.session_leases w.store.cell_hosts 0) "cell-local" sid w
            (record { holds = (refl, refl, untouched.2) }) in
        record {
          fit =
              (create_cell-Keeps c (IsWellFormed c.env)
                (store-IsWellFormed c.env distinct round "").kept "cell-local" sid w
                (record { holds = ready_for_cell-IsWellFormed })).holds;
          next = cell.1;
          idle =
              (create_cell-Keeps c (IsIdle c.env sid) (IsIdle-IsKept c.env sid) "cell-local" sid w
                (record { holds = idle })).holds;
          last = frame.holds.2;
          routed = λ t lt.
              route_at_same c sid (c.env.time t) w.store opened.store frame.holds.0 frame.holds.1
              ∙ routed limit lives t lt;
          registered = ap (lookup "cell-local") cell.2 ∙ object;
        }

    pub opened_clock : opened.store.clock_reads ≡ 7
    unfolding next_sequence
    opened_clock =
        let cell = create_cell_ok c "cell-local" sid ready_for_cell 1 created-IsNext in
        omega (arith, cell.3, untouched.3)
