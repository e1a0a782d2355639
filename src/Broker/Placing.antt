-- ===== src/Broker/Placing.antt =====
-- What `place_session` leaves alone: the channels. It only adds to the identifiers that were given out.
use nadi.Common.{◌≤◌, ◌≡◌, ◌∙◌, String, arith, string_eq}
use nadi.Common.Int.{pos}
use nadi.Exec.{or_raise, no_callback}
use nadi.Exec.Keeps.{Keeps, bind-Keeps, or_raise-Keeps}
use nadi.Store.Schema.{Store}
use nadi.Store.Sessions.{update_session_status}
use nadi.Store.Events.{append_event}
use nadi.Store.Hosts.{choose_cell_host}
use nadi.Store.Leases.{create_lease}
use nadi.Security.Jwt.{sign}
use nadi.Dict.{lookup}
use nadi.World.{World, Config, on_store}
use nadi.Celld.{create_cell, append_cell_event}
use nadi.Broker.{place_session}

-- A later store with the same channels.
abbrev pub Later : {Text : Type 0} → Store Text → Store Text → Type 0
Later s s' = (s'.channels ≡ s.channels) × (s.uuid_reads ≤ s'.uuid_reads)

module _ {Text : Type 0} (c : Config Text) (start : Store Text) where
  pub record IsLater (w : World Text) : Type 0 where
    pub later : Later start w.store

  step : (w w' : World Text) → Later w.store w'.store → IsLater w → IsLater w'
  step w w' (e, le) h = record { later = (e ∙ h.later.0, omega (arith, le, h.later.1)) }

  choose_cell_host-Later : (s : Store Text) → Later s (choose_cell_host c.env s).1
  unfolding choose_cell_host
  choose_cell_host-Later s = ground arith

  create_lease-Later :
      (sid hid : String) (s : Store Text) → Later s (create_lease c.env sid hid (pos 3600) s).1
  unfolding create_lease
  create_lease-Later sid hid s = ground arith

  create_cell-Later :
      (host_id sid : String) (w : World Text) → Later w.store (create_cell c host_id sid w).1.store
  unfolding create_cell append_cell_event append_event sign update_session_status
  create_cell-Later host_id sid w = ground arith

  pub place_session-IsLater : (sid : String) → Keeps IsLater (place_session c sid)
  unfolding place_session
  place_session-IsLater sid =
      bind-Keeps IsLater (on_store (choose_cell_host c.env)) _
        (λ w. step w _ (choose_cell_host-Later w.store))
        (λ host.
          bind-Keeps IsLater (on_store (create_lease c.env sid host.id (pos 3600))) _
            (λ w. step w _ (create_lease-Later sid host.id w.store))
            (λ lease w h.
              let found = lookup host.host_id w.cell_callbacks in
              bind-Keeps IsLater (or_raise found no_callback) _
                (or_raise-Keeps IsLater found no_callback)
                (λ callback.
                  bind-Keeps IsLater (create_cell c callback sid) _
                    (λ w. step w _ (create_cell-Later callback sid w)) (λ _ w h. h))
                w h))
