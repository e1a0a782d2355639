-- ===== src/Gateway/Tests.antt =====
-- A command at its way from the gateway into the inbox, to the cell host and back.
use nadi.Common.{
  ℕ, ◌+◌, ◌*◌, ◌<◌, String, Option, eq_iff, arith, ◌≡◌, refl, ap, some, none, List, [], ◌∷◌, All,
  inr,
}
use nadi.Common.Int.{pos, second}
use nadi.Json.{Fields, str, single, get, get_or}
use nadi.Exec.{Result, ok, each, ◌>>=◌}
use nadi.Sql.{select, fetch_one, exists_where, update_where, max_of, order_by}
use nadi.Store.Schema.{SessionLease}
use nadi.Store.Events.{append_event, next_sequence, get_events, event_row, Appended}
use nadi.Store.Commands.{
  is_waiting, enqueue_command, claim_pending_commands, complete_command, command_row,
}
use nadi.Store.Leases.{Route, get_route, route_at}
use nadi.Store.Fixture.{test_env, test_env-RoundTrips, tally, tally_distinct, small_store}
use nadi.Store.WellFormed.{IsWellFormed, IsWellFormed-moved}
use nadi.Store.Fixture.Fitting.{small_store-IsWellFormed}
use nadi.Security.Jwt.{sign}
use nadi.Dict.{lookup, put}
use nadi.World.{World, empty_world, empty_state}
use nadi.Security.Jwt.Fixture.{test_token, test_crypto-IsCodec}
use nadi.Sandboxd.Texts.{text_answer}
use nadi.Celld.Tooling.{tool_payload, HasToken}
use nadi.Gateway.Tooling.{send_command-tool}
use nadi.Runtime.{handle}
use nadi.Stack.Fixture.{test_config, small_world}
use nadi.Celld.{
  append_cell_event, consume_commands, cell_or_reconstruct, reconstruct_cell, run_commands,
  run_command, emit, replay,
}
use nadi.Celld.Completing.{IsDone, IsCompleted, value_or, consume_commands-IsDone}
use nadi.Broker.{celld_for_route}
use nadi.Gateway.{Sent, send_command, route, open_session}
use nadi.Gateway.Conversation.{IsReady, send_all, replies, send_all-replies}
use nadi.Celld.Replying.{event_at}
use nadi.Gateway.Calling.{open_session-replies}
use nadi.Stack.{local_stack}
use nadi.Gateway.Completing.{send_command-IsDone}

abbrev consumed : Result (List Appended) × World Fields
consumed = consume_commands test_config "cell-local" "s1" small_world

abbrev answers : List Appended
answers = value_or [] consumed.0

answers_ok : consumed.0 ≡ ok answers
unfolding consume_commands cell_or_reconstruct reconstruct_cell run_commands run_command emit replay
    append_cell_event append_event next_sequence get_events claim_pending_commands complete_command
    handle sign select fetch_one exists_where update_where max_of order_by lookup put each event_row
    command_row
answers_ok = refl

consume_commands-IsDone_example :
    All (λ r. IsDone r.id consumed.1.store) (select (is_waiting "s1") small_store.command_inbox)
consume_commands-IsDone_example =
    consume_commands-IsDone test_config "cell-local" "s1" tally_distinct test_env-RoundTrips
      small_world consumed.1 answers small_store-IsWellFormed (ap (λ r. (r, consumed.1)) answers_ok)

-- The lease that leads to the cell host.
abbrev lease : SessionLease
lease = record {
  session_id = "s1";
  cell_host_id = "h1";
  lease_token = "l1";
  status = "active";
  expires_at = pos 3_600_000_000;
  created_at = 0;
  updated_at = 0;
}

abbrev routed_world : World Fields
routed_world = record small_world { store = record small_store { session_leases = lease ∷ [] } }

abbrev sending : Result Sent × World Fields
sending =
    send_command test_config "s1" "model" (some (single "prompt" (str "hi"))) none routed_world

abbrev sent : Sent
sent = value_or (record { command_id = 0; events = [] }) sending.0

sent_ok : sending.0 ≡ ok sent
unfolding send_command route get_route route_at celld_for_route enqueue_command consume_commands
    cell_or_reconstruct reconstruct_cell run_commands run_command emit replay append_cell_event
    append_event next_sequence get_events claim_pending_commands complete_command handle sign select
    fetch_one exists_where update_where max_of order_by lookup put each event_row command_row
sent_ok = refl

send_command-IsDone_example : IsCompleted "s1" "model" sent.command_id sending.1.store
send_command-IsDone_example =
    send_command-IsDone test_config tally_distinct test_env-RoundTrips "s1" "model"
      (some (single "prompt" (str "hi"))) none routed_world sending.1 sent
      (IsWellFormed-moved test_env small_store routed_world.store refl refl refl (omega arith)
        small_store-IsWellFormed)
      (ap (λ r. (r, sending.1)) sent_ok)

-- The same session with nothing in the inbox.
abbrev idle_world : World Fields
idle_world = record routed_world {
  store = record routed_world.store { command_inbox = []; last_command_id = 0 };
}

idle-IsWellFormed : IsWellFormed test_env idle_world.store
unfolding select
idle-IsWellFormed = record {
  numbered = small_store-IsWellFormed.numbered;
  readable = small_store-IsWellFormed.readable;
  inbox = record { numbered = refl; last = refl; issued = tt; readable = tt };
  bounded = λ sid. omega arith;
}

abbrev route_to_local : Route
route_to_local = record {
  lease = lease;
  host_id = "cell-local";
  address = "inproc://cell";
  zone = "local";
}

lease_lives :
    (t : ℕ) → t < 100 → route_at "s1" (test_env.time t) idle_world.store ≡ some route_to_local
unfolding route_at fetch_one
lease_lives t h = ground arith

idle-IsReady : IsReady test_config "s1" "cell-local" route_to_local 100 2 0 idle_world
unfolding select exists_where next_sequence max_of lookup
idle-IsReady = record {
  fit = idle-IsWellFormed;
  next = (refl, refl);
  idle = refl;
  last = refl;
  routed = lease_lives;
  registered = refl;
}

abbrev two_commands : List (String × Option Fields)
two_commands = ("echo", some (single "text" (str "hi"))) ∷ ("model", none) ∷ []

send_all-replies_example :
    (send_all test_config "s1" none two_commands idle_world).0
    ≡ ok (replies test_config "cell-local" "s1" 2 0 two_commands)
send_all-replies_example =
    send_all-replies test_config tally_distinct test_env-RoundTrips "s1" "cell-local" none
      route_to_local 100 2 0 two_commands idle_world idle-IsReady (omega arith) (omega arith)
      (λ e. cc ((eq_iff "echo" "tool").1 e), (λ e. cc ((eq_iff "model" "tool").1 e), tt))

first_hour : (t : ℕ) → t < 25 → test_env.time t < test_env.time 3 + 3600 * second
first_hour t h = ground arith

open_session-replies_example :
    ((local_stack test_config >>= λ _. open_session test_config "local" none >>= λ s.
    send_all test_config s.session_id none two_commands)
      empty_world).0
    ≡ ok (replies test_config "cell-local" (tally 2) 2 0 two_commands)
open_session-replies_example =
    open_session-replies test_config "local" none tally_distinct test_env-RoundTrips none
      two_commands first_hour (omega arith)
      (λ e. cc ((eq_iff "echo" "tool").1 e), (λ e. cc ((eq_iff "model" "tool").1 e), tt))

-- The same session with a live cell.
abbrev token_world : World Fields
token_world = record idle_world {
  cells =
      (("cell-local", "s1"), record { session_id = "s1"; jwt = test_token; state = empty_state })
      ∷ [];
}

token_world-HasToken : HasToken test_config "cell-local" "s1" 15 token_world
unfolding lookup exists_where
token_world-HasToken = record {
  cell = record { session_id = "s1"; jwt = test_token; state = empty_state };
  jti = "iiii";
  exp = pos 60;
  live = refl;
  made = refl;
  codec = test_crypto-IsCodec;
  alive = omega arith;
  named = refl;
  unrevoked = refl;
}

send_command-tool_example :
    (send_command test_config "s1" "tool"
      (some (tool_payload "uppercase" (single "text" (str "nadi"))))
      none
      token_world).0
    ≡ ok (record {
      command_id = 1;
      events =
          event_at test_config "cell-local" "s1" 3
            ("tool.result", text_answer test_config "uppercase" "nadi")
          ∷ [];
    })
unfolding select route_at fetch_one lookup exists_where next_sequence max_of get get_or
send_command-tool_example =
    send_command-tool test_config tally_distinct test_env-RoundTrips "s1" "cell-local" "uppercase"
      (single "text" (str "nadi")) none route_to_local route_to_local token_world idle-IsWellFormed
      refl refl (omega arith) refl refl refl token_world-HasToken (inr refl)
