-- ===== src/Broker/Placed.antt =====
-- What `place_session` returns where a host is there.
use nadi.Common.{ℕ, ◌≡◌, refl, ap, ◌∙◌, String, true, some, string_eq}
use nadi.Common.Int.{pos}
use nadi.Json.{Fields}
use nadi.Exec.{ok, or_raise}
use nadi.Exec.Returns.{bind_exact, bind_returned}
use nadi.Sql.{exists_where}
use nadi.Store.Schema.{CellHost}
use nadi.Store.Hosts.{choose_cell_host}
use nadi.Store.Leases.{is_host, create_lease}
use nadi.Store.Leases.Routes.{with_lease, create_lease_lem}
use nadi.Store.Events.{next_sequence}
use nadi.Dict.{lookup}
use nadi.World.{World, Config, on_store}
use nadi.Celld.{create_cell}
use nadi.Celld.Replying.{IsNext}
use nadi.Celld.Starting.{create_cell_ok}
use nadi.Broker.{Placement, place_session}

module _ {Text : Type 0} (c : Config Text) (sid : String) (host : CellHost Fields)
    (w : World Text) where
  -- The lease is written.
  abbrev pub leased : World Text
  leased = record w { store = with_lease c.env sid host.id (pos 3600) w.store }

  abbrev pub placement : Placement
  placement = record {
    session_id = sid;
    cell_host = host.host_id;
    lease_token = c.env.uuid w.store.uuid_reads;
    address = host.address;
  }

  -- The chosen host gets the lease, and its `Celld` makes the cell.
  pub place_session_ok :
      (celld : String) (n : ℕ)
      → IsNext c celld sid n w.store
      → choose_cell_host c.env w.store ≡ (ok host, w.store)
      → exists_where (is_host host.id) w.store.cell_hosts ≡ true
      → lookup host.host_id w.cell_callbacks ≡ some celld
      → place_session c sid w ≡ (ok placement, (create_cell c celld sid leased).1)
  unfolding place_session next_sequence
  place_session_ok celld n h chosen hosted back =
      let written : create_lease c.env sid host.id (pos 3600) w.store
          ≡ (ok (c.env.uuid w.store.uuid_reads), leased.store) =
        create_lease_lem c.env sid host.id (pos 3600) w.store ∙ rw (h.0, hosted) refl in
      bind_exact (on_store (choose_cell_host c.env)) _ w w host
        (ap (λ p. (p.0, record w { store = p.1 })) chosen)
      ∙ bind_exact (on_store (create_lease c.env sid host.id (pos 3600))) _ w leased _
          (ap (λ p. (p.0, record w { store = p.1 })) written)
      ∙ rw (back, or_raise)
          (bind_returned (create_cell c celld sid) _ leased _
            (create_cell_ok c celld sid leased n h).0)
