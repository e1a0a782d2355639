-- ===== src/Store/Tests.antt =====
-- The store's operations and theorems at concrete inputs.
use nadi.Common.{
  ◌≤◌, ◌≡◌, ◌≢◌, refl, String, true, false, none, some, [], ◌∷◌, ◌++◌, map, drop, All, arith,
  if◌then◌else◌, eq_iff, ◌↔◌, ◌&&◌,
}
use nadi.Common.Int.{◌+ℤ◌, seconds, pos, ltb_ℤ}
use nadi.Json.{end}
use nadi.Exec.{ok, err, integrity}
use nadi.Sql.{select, exists_where, fetch_one, update_where, order_by}
use nadi.Store.Sessions.{has_session}
use nadi.Store.Fixture.{
  test_env, test_env-RoundTrips, tally, tally_distinct, small_store, general, cell_local,
  first_event,
}
use nadi.Store.Events.{append_event, get_events}
use nadi.Store.Events.Log.{entry_of, add_entry, log_of, log_of-append_event, get_events-log_of}
use nadi.Common.{length, range, if◌then◌else◌, List, ◌-◌}
use nadi.Store.Sessions.{has_session}
use nadi.Json.{Fields, end}
use nadi.Store.Schema.{Event}
use nadi.Store.Events.Sequence.{IsSequenced, append_event-IsSequenced}
use nadi.Store.Commands.{is_waiting, claim_row, claim_pending_commands, enqueue_command}
use nadi.Store.Commands.Claims.{decode, claim_pending_commands_lem}
use nadi.Store.Commands.Limits.{IsBounded, enqueue_command-IsBounded}
use nadi.Store.Hosts.{has_room, best_host}
use nadi.Store.Hosts.Placement.{best_host-least, best_host-none}
use nadi.Store.Leases.{is_host, route_at, create_lease}
use nadi.Store.Leases.Routes.{lease_of, with_lease, create_lease_lem, route_at-create_lease}
use nadi.Store.Channels.{find_channel, get_or_create_channel}
use nadi.Store.Channels.Routing.{
  new_row, find_channel-get_or_create_channel, get_or_create_channel_new,
}
use nadi.Store.Fixture.Fitting.{small_store-IsSequenced, small_store-IsInbox, small_store-IsBounded}

append_event-IsSequenced_example :
    IsSequenced (append_event test_env "s1" "command.received" none none small_store).1.events
append_event-IsSequenced_example =
    append_event-IsSequenced test_env "s1" "command.received" none none small_store
      small_store-IsSequenced

get_events-log_of_example :
    (evs : List (Event Fields)) × (get_events test_env "s1" 0 small_store ≡ (ok evs, small_store))
    × (map entry_of evs ≡ drop 0 (log_of test_env small_store "s1"))
    × (map (λ ev. ev.sequence) evs ≡ range 1 (length (log_of test_env small_store "s1") - 0))
get_events-log_of_example =
    get_events-log_of test_env "s1" 0 small_store small_store-IsSequenced
      ((first_event.payload, refl), tt)

log_of-append_event_example :
    log_of test_env (append_event test_env "s1" "command.received" none none small_store).1 "s1" ≡ (
      if has_session "s1" small_store
      then add_entry "s1"
          (record { event_type = "command.received"; payload = end; actor_resource_id = none })
          (log_of test_env small_store)
          "s1"
      else log_of test_env small_store "s1")
log_of-append_event_example =
    log_of-append_event test_env test_env-RoundTrips "s1" "command.received" none none small_store
      "s1"

claim_pending_commands_example : claim_pending_commands test_env "s1" "cell-local" small_store ≡ (
  ok (
      map (decode test_env) (
        map
          (claim_row "cell-local" (tally 4) 10_000_000)
          (select (is_waiting "s1") small_store.command_inbox))),
  record small_store {
    uuid_reads = 5;
    clock_reads = 10;
    command_inbox =
        update_where
          (is_waiting "s1")
          (claim_row "cell-local" (tally 4) 10_000_000)
          small_store.command_inbox;
  },
)
claim_pending_commands_example =
    claim_pending_commands_lem test_env tally_distinct "s1" "cell-local" small_store
      small_store-IsInbox

enqueue_command-IsBounded_example :
    IsBounded (enqueue_command test_env "s1" "echo" none none small_store).1
enqueue_command-IsBounded_example =
    enqueue_command-IsBounded test_env "s1" "echo" none none small_store small_store-IsBounded

best_host-least_example :
    (has_room cell_local ≡ true)
    × All
        (λ x. has_room x ≡ true → cell_local.capacity_used ≤ x.capacity_used)
        small_store.cell_hosts
unfolding best_host select order_by
best_host-least_example = best_host-least small_store cell_local refl

host_with_room :
    (best_host small_store ≡ none) ↔ (exists_where has_room small_store.cell_hosts ≡ false)
host_with_room = best_host-none small_store

leased : create_lease test_env "s1" "h1" (pos 3600) small_store ≡ (
    if has_session "s1" small_store && exists_where (is_host "h1") small_store.cell_hosts
    then (ok (tally 4), with_lease test_env "s1" "h1" (pos 3600) small_store)
    else (err integrity, record small_store { clock_reads = 10; uuid_reads = 5 }))
leased = create_lease_lem test_env "s1" "h1" (pos 3600) small_store

route_at-create_lease_example :
    let made = create_lease test_env "s1" "h1" (pos 3600) small_store in
    let l = lease_of test_env "s1" "h1" (pos 3600) small_store in
    (made.0 ≡ ok (tally 4))
    × (route_at "s1" 20_000_000 made.1 ≡ (
        if ltb_ℤ (pos 20_000_000) (pos (test_env.time 9) +ℤ seconds (pos 3600))
        then some (record {
          lease = l;
          host_id = "cell-local";
          address = "inproc://cell";
          zone = "local";
        })
        else none))
unfolding fetch_one exists_where
route_at-create_lease_example =
    route_at-create_lease test_env "s1" "h1" (pos 3600) small_store 20_000_000 cell_local refl refl

other_session : (let k : String = "s2" in let l : String = "s1" in k ≢ l)
other_session e = absurd (ground (arith, (eq_iff "s2" "s1").1 e))

find_channel-get_or_create_channel_example :
    find_channel "slack" "general" ""
      (get_or_create_channel test_env "slack" "random" "" "s1" "slack:u2" none small_store).1
    ≡ some general
unfolding find_channel fetch_one
find_channel-get_or_create_channel_example =
    find_channel-get_or_create_channel test_env "slack" "general" "" "slack" "random" "" "s1"
      "slack:u2" none small_store general refl

channel_of_its_own :
    get_or_create_channel test_env "slack" "random" "" "s1" "slack:u2" none small_store ≡ (
      ok ("s1", tally 4, true),
      record small_store {
        clock_reads = 10;
        uuid_reads = 5;
        channels =
            small_store.channels
            ++ new_row test_env "slack" "random" "" "s1" "slack:u2" none small_store ∷ [];
      },
    )
unfolding exists_where
channel_of_its_own =
    get_or_create_channel_new test_env "slack" "random" "" "s1" "slack:u2" none small_store
      test_env-RoundTrips refl refl
