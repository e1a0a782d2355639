-- ===== src/Gateway/Invariant.antt =====
-- A property that the methods of the store keep is kept by the broker and the gateway too.
use nadi.Common.{
  ℕ, String, Option, none, some, arith, string_eq, ◌≡◌, refl, sym, if◌then◌else◌, ◌==◌,
}
use mathlib.Core.Path.{subst}
use nadi.Common.Int.{pos}
use nadi.Json.{Fields, or_empty}
use nadi.Exec.{or_raise, no_callback, no_capacity, lift, no_active_route, no_route, key_error, pure}
use nadi.Exec.Keeps.{Keeps, bind-Keeps, or_raise-Keeps, on_error-Keeps, branch-Keeps}
use nadi.Store.Schema.{Store, uuid4}
use nadi.Store.Invariant.{IsInvariant}
use nadi.Store.Sessions.{create_session, update_session_status}
use nadi.Store.Events.{get_events}
use nadi.Store.Commands.{enqueue_command}
use nadi.Store.Hosts.{choose_cell_host, best_host, cell_host_row}
use nadi.Store.Leases.{create_lease, get_route}
use nadi.Store.Channels.{get_or_create_channel}
use nadi.Dict.{lookup}
use nadi.World.{Config, on_store}
use nadi.Celld.{create_cell, consume_commands}
use nadi.Broker.{place_session, celld_for_route}
use nadi.Gateway.{
  open_session, resource_or_anonymous, join_channel, get_or_create_channel_session, route,
  send_command, get_session_events,
}
use nadi.Celld.Invariant.{Holds, on_store-Keeps, create_cell-Keeps, consume_commands-Keeps}

module _ {Text : Type 0} (c : Config Text) (Q : Store Text → Type 0)
    (tick : (s : Store Text) (n : ℕ) → Q s → Q (record s { clock_reads = n })) where
  get_route-Keeps : (sid : String) → Keeps (Holds Q) (on_store (get_route c.env sid))
  unfolding get_route
  get_route-Keeps sid w h = record { holds = tick w.store _ h.holds }

  pub route-Keeps : (sid : String) → Keeps (Holds Q) (route c sid)
  unfolding route
  route-Keeps sid =
      bind-Keeps (Holds Q) (on_store (get_route c.env sid)) _ (get_route-Keeps sid)
        (λ found. or_raise-Keeps (Holds Q) found no_route)

  pub celld_for_route-Keeps : (sid : String) → Keeps (Holds Q) (celld_for_route c sid)
  unfolding celld_for_route
  celld_for_route-Keeps sid =
      bind-Keeps (Holds Q) (on_store (get_route c.env sid)) _ (get_route-Keeps sid) (λ found.
        bind-Keeps (Holds Q) (or_raise found no_active_route) _
          (or_raise-Keeps (Holds Q) found no_active_route)
          (λ route w h.
            or_raise-Keeps (Holds Q) (lookup route.host_id w.cell_objects) key_error w h))

module _ {Text : Type 0} (c : Config Text) (tenant : String) (Q : Store Text → Type 0)
    (inv : IsInvariant c.env tenant Q) where
  choose_cell_host-same : (s : Store Text) → (choose_cell_host c.env s).1 ≡ s
  unfolding choose_cell_host
  choose_cell_host-same s =
      bind-Keeps (λ t. t ≡ s) (or_raise (best_host s) no_capacity)
        (λ found. lift (cell_host_row c.env found))
        (or_raise-Keeps (λ t. t ≡ s) (best_host s) no_capacity) (λ found t same. same) s refl

  place_session-Keeps : (sid : String) → Keeps (Holds Q) (place_session c sid)
  unfolding place_session
  place_session-Keeps sid =
      bind-Keeps (Holds Q) (on_store (choose_cell_host c.env)) _
        (on_store-Keeps Q (choose_cell_host c.env)
          (λ s q. subst Q (sym (choose_cell_host-same s)) q))
        (λ host.
          bind-Keeps (Holds Q) (on_store (create_lease c.env sid host.id (pos 3600))) _
            (on_store-Keeps Q (create_lease c.env sid host.id (pos 3600))
              (inv.leases sid host.id (pos 3600)))
            (λ lease w h.
              let found = lookup host.host_id w.cell_callbacks in
              bind-Keeps (Holds Q) (or_raise found no_callback) _
                (or_raise-Keeps (Holds Q) found no_callback)
                (λ callback.
                  bind-Keeps (Holds Q) (create_cell c callback sid) _
                    (create_cell-Keeps c Q inv.kept callback sid) (λ _ w h. h))
                w h))

  pub open_session-Keeps :
      (metadata : Option Fields) → Keeps (Holds Q) (open_session c tenant metadata)
  unfolding open_session
  open_session-Keeps metadata =
      bind-Keeps (Holds Q)
        (on_store (create_session c.env tenant none none (some (or_empty metadata)))) _
        (on_store-Keeps Q (create_session c.env tenant none none (some (or_empty metadata)))
          (inv.creates (some (or_empty metadata))))
        (λ sid. bind-Keeps (Holds Q) (place_session c sid) _ (place_session-Keeps sid) (λ _ w h. h))

  uuid4-Keeps : Keeps (Holds Q) (on_store (uuid4 c.env))
  unfolding uuid4
  uuid4-Keeps w h = record { holds = inv.kept.draw w.store _ (omega arith) h.holds }

  resource_or_anonymous-Keeps :
      (platform given : String) → Keeps (Holds Q) (resource_or_anonymous c platform given)
  resource_or_anonymous-Keeps platform given =
      branch-Keeps (Holds Q) (given == "") _ _
        (bind-Keeps (Holds Q) (on_store (uuid4 c.env)) _ uuid4-Keeps (λ id w h. h)) (λ w h. h)

  abandon-Keeps :
      (sid : String) → Keeps (Holds Q) (on_store (update_session_status c.env sid "abandoned"))
  abandon-Keeps sid =
      on_store-Keeps Q (update_session_status c.env sid "abandoned")
        (inv.kept.updates sid "abandoned")

  join_channel-Keeps :
      (platform channel_id thread_id sid resource_id : String) (metadata : Option Fields)
      → Keeps (Holds Q) (join_channel c platform channel_id thread_id sid resource_id metadata)
  join_channel-Keeps platform channel_id thread_id sid resource_id metadata =
      bind-Keeps (Holds Q) (place_session c sid) _ (place_session-Keeps sid) (λ _.
        bind-Keeps (Holds Q)
          (on_store
            (get_or_create_channel c.env platform channel_id thread_id sid resource_id metadata))
          _
          (on_store-Keeps Q
            (get_or_create_channel c.env platform channel_id thread_id sid resource_id metadata)
            (inv.joins platform channel_id thread_id sid resource_id metadata))
          (λ (actual, cid, created).
            bind-Keeps (Holds Q)
              (if created then pure tt else on_store (update_session_status c.env sid "abandoned"))
              _ (branch-Keeps (Holds Q) created (pure tt) _ (λ w h. h) (abandon-Keeps sid))
              (λ _ w h. h)))

  pub get_or_create_channel_session-Keeps :
      (platform channel_id thread_id given : String) (metadata : Option Fields)
      → Keeps
          (Holds Q)
          (get_or_create_channel_session c platform channel_id thread_id tenant given metadata)
  unfolding get_or_create_channel_session
  get_or_create_channel_session-Keeps platform channel_id thread_id given metadata =
      bind-Keeps (Holds Q) (resource_or_anonymous c platform given) _
        (resource_or_anonymous-Keeps platform given)
        (λ rid.
          bind-Keeps (Holds Q)
            (on_store (create_session c.env tenant none none (some (or_empty metadata)))) _
            (on_store-Keeps Q (create_session c.env tenant none none (some (or_empty metadata)))
              (inv.creates (some (or_empty metadata))))
            (λ sid.
              on_error-Keeps (Holds Q)
                (join_channel c platform channel_id thread_id sid rid metadata)
                (on_store (update_session_status c.env sid "abandoned"))
                (join_channel-Keeps platform channel_id thread_id sid rid metadata)
                (abandon-Keeps sid)))

  pub send_command-Keeps :
      (sid ty : String) (payload : Option Fields) (actor : Option String)
      → Keeps (Holds Q) (send_command c sid ty payload actor)
  unfolding send_command
  send_command-Keeps sid ty payload actor =
      bind-Keeps (Holds Q) (route c sid) _ (route-Keeps c Q inv.kept.tick sid) (λ _.
        bind-Keeps (Holds Q)
          (on_store (enqueue_command c.env sid ty (some (or_empty payload)) actor)) _
          (on_store-Keeps Q (enqueue_command c.env sid ty (some (or_empty payload)) actor)
            (inv.enqueues sid ty (some (or_empty payload)) actor))
          (λ id.
            bind-Keeps (Holds Q) (celld_for_route c sid) _
              (celld_for_route-Keeps c Q inv.kept.tick sid)
              (λ host.
                bind-Keeps (Holds Q) (consume_commands c host sid) _
                  (consume_commands-Keeps c Q inv.kept host sid) (λ evs w h. h))))

  pub get_session_events-Keeps :
      (sid : String) (after : ℕ) → Keeps (Holds Q) (get_session_events c sid after)
  unfolding get_session_events get_events
  get_session_events-Keeps sid after =
      bind-Keeps (Holds Q) (route c sid) _ (route-Keeps c Q inv.kept.tick sid)
        (λ _ w h. record { holds = h.holds })
