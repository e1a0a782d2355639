-- ===== src/Broker.antt =====
-- `Broker` of nadi/broker.py.
pub mod Placing
pub mod Placed
pub mod Capacity
mod Tests
use nadi.Common.{ℕ, String, Option, none, some, List, [], ◌∷◌, ◌==◌, string_eq, if◌then◌else◌}
use nadi.Common.Int.{ℤ, pos}
use nadi.Exec.{
  Action, pure, raise, gets, modify, or_raise, no_callback, no_active_route, key_error, ◌>>=◌, ◌>>◌,
}
use nadi.Store.Hosts.{upsert_cell_host, upsert_sandbox_host, heartbeat_host, choose_cell_host}
use nadi.Store.Leases.{Route, create_lease, get_route}
use nadi.Dict.{lookup, put}
use nadi.World.{World, Config, on_store}
use nadi.Celld.{create_cell}

-- The dictionary that `place_session` returns.
pub record Placement : Type 0 where
  pub session_id : String
  pub cell_host : String
  pub lease_token : String
  pub address : String

module _ {Text : Type 0} (c : Config Text) where
  -- `create_cell` is the method of the `Celld` with the given name.
  unfoldable pub register_cell_host :
      String → String → String → ℤ → String → Option String → Action (World Text) String
  register_cell_host host_id zone address capacity_total celld object_ref = do
    cid ← on_store (upsert_cell_host c.env host_id zone address capacity_total none)
    modify (λ w. record w { cell_callbacks = put host_id celld w.cell_callbacks })
    modify (λ w. record w {
      cell_objects = elim object_ref [
        | none ↦ w.cell_objects
        | some o ↦ put host_id o w.cell_objects
      ];
    })
    pure cid

  unfoldable pub register_sandbox_host :
      String → String → String → Option String → Action (World Text) String
  register_sandbox_host host_id zone address object_ref = do
    sid ← on_store (upsert_sandbox_host c.env host_id zone address none)
    modify (λ w. record w {
      sandbox_objects = elim object_ref [
        | none ↦ w.sandbox_objects
        | some o ↦ put host_id o w.sandbox_objects
      ];
    })
    pure sid

  unfoldable pub heartbeat : String → String → Action (World Text) (Unit {0})
  heartbeat host_type host_id =
      if host_type == "cell"
      then on_store (heartbeat_host c.env "cell_hosts" host_id)
      else if host_type == "sandbox"
      then on_store (heartbeat_host c.env "sandbox_hosts" host_id)
      else raise key_error

  -- The lease is made before the callback is looked up.
  unfoldable pub place_session : String → Action (World Text) Placement
  place_session session_id = do
    host ← on_store (choose_cell_host c.env)
    lease ← on_store (create_lease c.env session_id host.id (pos 3600))
    found ← gets (λ w. lookup host.host_id w.cell_callbacks)
    callback ← or_raise found no_callback
    create_cell c callback session_id
    pure (record {
      session_id = session_id;
      cell_host = host.host_id;
      lease_token = lease;
      address = host.address;
    })

  -- The name of the `Celld` that the session's route leads to.
  unfoldable pub celld_for_route : String → Action (World Text) String
  celld_for_route session_id = do
    found ← on_store (get_route c.env session_id)
    route ← or_raise found no_active_route
    object ← gets (λ w. lookup route.host_id w.cell_objects)
    or_raise object key_error
