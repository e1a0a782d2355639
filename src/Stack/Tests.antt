-- ===== src/Stack/Tests.antt =====
-- The objects of one process at concrete inputs.
use Prim.Native.Char.{code}
use nadi.Common.{
  ◌⊎◌, ℕ, zero, suc, some, ◌+◌, ◌*◌, ◌<◌, ◌≡◌, ◌≢◌, refl, ap, String, Bool, false, true, none, List,
  [], ◌∷◌, arith, Bool-cases, inl, inr, ◌==◌, string_eq, nat_eq,
}
use nadi.Strings.{words, split_on}
use nadi.Common.Int.{◌+ℤ◌, second, seconds, pos}
use nadi.Json.{Fields, str, obj, end, field, single, arr, nil, cons, get_or, get}
use nadi.Exec.{◌>>=◌, ok, err, no_route, Result, jwt, token_revoked}
use nadi.Sql.{select, fetch_one, exists_where, delete_where, order_by}
use nadi.Store.Fixture.{tally_distinct, test_env, test_env-RoundTrips, tally, first_event, general}
use nadi.Store.Events.{in_session}
use nadi.Store.Events.Sequence.{IsSequenced}
use nadi.Store.Channels.{find_channel}
use nadi.Security.Jwt.{contains}
use nadi.Security.Jwt.Fixture.{test_crypto, test_token, test_crypto-IsCodec}
use nadi.Store.Leases.{route_at, create_lease}
use nadi.Dict.{lookup, put}
use nadi.Security.Jwt.{claims}
use nadi.Security.Jwt.Fixture.{crypto_for, crypto_for-IsCodec}
use nadi.Stack.{local_stack}
use nadi.Sandboxd.Texts.{text_answer}
use nadi.Celld.Replying.{event_at}
use nadi.Celld.Tooling.{tool_payload}
use nadi.Gateway.{open_session}
use nadi.Gateway.Calling.{open_session-tool}
use nadi.World.{Config, empty_world, World, Cell, empty_state}
use nadi.Stack.Fixture.{test_config, small_world}
use nadi.Sandboxd.{path_parts, list_files, execute_tool, join_path, text_arg}
use nadi.Sandboxd.Guarded.{
  IsGenuine, IsTurnedAway, IsAuditedAfter, listing, list_files_ok, execute_tool-Genuine,
}
use nadi.Celld.{append_cell_event, create_cell, consume_commands}
use nadi.Celld.Replay.{IsLive}
use nadi.Celld.Consume.{consume_commands-IsLive}
use nadi.Gateway.{Joined, get_or_create_channel_session, send_command}
use nadi.Gateway.Sending.{clock_read, send_command_unrouted}
use nadi.Gateway.Joining.{get_or_create_channel_session_old}
use nadi.Broker.{place_session}
use nadi.Sql.{update_where, max_of}
use nadi.Store.Sessions.{create_session, update_session_status}
use nadi.Store.Events.{append_event, next_sequence}
use nadi.Store.Hosts.{choose_cell_host, best_host}
use nadi.Store.Channels.{get_or_create_channel}
use nadi.Security.Jwt.{
  sign, verify, check_signature, check_expiry, check_session, check_scope, check_revoked,
  split_dots,
}
use nadi.Security.Base64.{letter, sextet, urlsafe_b64encode, a2b, rstrip_pad, b64e, b64d}
use nadi.Store.Tokens.{is_token_revoked, revoke_token}
use nadi.Celld.{destroy_cell, revoke_cell_token}
use nadi.Celld.Destroying.{verify-destroy_cell}
use nadi.Store.Audit.{audit}
use nadi.Sandboxd.{run_tool}

small_world-IsSequenced : IsSequenced small_world.store.events
unfolding select
small_world-IsSequenced sid = elim (Bool-cases (in_session sid first_event)) [
  | inl e ↦ rw e
  | inr e ↦ rw e
]

small_world-IsLive : IsLive test_config "cell-local" small_world
unfolding lookup
small_world-IsLive = record {
  numbered = small_world-IsSequenced;
  readable = ((first_event.payload, refl), tt);
  current = λ sid cell h. absurd (cc);
}

consume_commands-IsLive_example :
    IsLive test_config "cell-local" (consume_commands test_config "cell-local" "s1" small_world).1
consume_commands-IsLive_example =
    consume_commands-IsLive test_config "cell-local" test_env-RoundTrips "s1" small_world
      small_world-IsLive

send_command_unrouted_example :
    send_command test_config "s1" "echo" none none small_world
    ≡ (err no_route, clock_read test_config "s1" small_world)
unfolding fetch_one route_at
send_command_unrouted_example =
    send_command_unrouted test_config "s1" small_world "echo" none none refl

-- The call of a second user in the channel `general`.
abbrev second_call : Result Joined × World Fields
second_call =
    get_or_create_channel_session test_config "slack" "general" "" "local" "slack:u2" none
      small_world

second_call_joined :
    second_call.0 ≡ ok (record { session_id = "s1"; channel_id = "c1"; created = false })
unfolding get_or_create_channel_session place_session create_session choose_cell_host create_lease
    create_cell append_cell_event append_event update_session_status sign get_or_create_channel
    lookup put select fetch_one exists_where update_where delete_where order_by next_sequence max_of
    best_host
second_call_joined = refl

abbrev begins_with_c : String → Bool
begins_with_c String.[] = false
begins_with_c (String.◌∷◌ c s) = code c == b'c'

general_spent : (k : ℕ) → general.id ≢ tally k
general_spent zero e = absurd (cc)
general_spent (suc k) e = absurd (ground (arith, ap begins_with_c e))

get_or_create_channel_session_old_example : ("s1" ≡ general.session_id) × (false ≡ false)
unfolding find_channel fetch_one
get_or_create_channel_session_old_example =
    get_or_create_channel_session_old test_config "slack" "general" "" general end refl "local"
      "slack:u2" none small_world second_call.1
      (record { session_id = "s1"; channel_id = "c1"; created = false })
      (λ k le e. absurd (general_spent k e)) refl (ap (λ r. (r, second_call.1)) second_call_joined)

list_files_example :
    (rel : String) × (rest : List String) × (text_arg test_config (obj end) "path" "." ≡ ok rel)
    × (join_path ("srv" ∷ []) rel ≡ "srv" ∷ rest)
    × (single "files" (arr (cons (str "a") (cons (str "b") nil)))
        ≡ listing test_config ("srv" ∷ rest))
unfolding list_files join_path split_on path_parts order_by get_or get
list_files_example =
    list_files_ok test_config (obj end) (single "files" (arr (cons (str "a") (cons (str "b") nil))))
      refl

abbrev echo_call : Result Fields × World Fields
echo_call =
    execute_tool test_config "s1" test_token "echo" (obj (single "text" (str "hi"))) small_world

abbrev echo_answer : Fields
echo_answer = field "tool" (str "echo") (single "result" (obj (single "text" (str "hi"))))

echo_call_ok : echo_call.0 ≡ ok echo_answer
unfolding execute_tool verify check_signature check_expiry check_session check_scope check_revoked
    split_dots words contains get get_or is_token_revoked audit run_tool letter sextet
    urlsafe_b64encode a2b rstrip_pad b64e b64d exists_where delete_where
echo_call_ok = refl

execute_tool-Genuine_example :
    (IsGenuine test_config "s1" test_token small_world
      ⊎ IsTurnedAway test_config "s1" test_token "echo"
          (obj (single "text" (str "hi")))
          small_world)
    × IsAuditedAfter test_config "s1" "echo" echo_call
execute_tool-Genuine_example =
    execute_tool-Genuine test_config "s1" test_token "echo" (obj (single "text" (str "hi")))
      small_world

abbrev held_cell : Cell
held_cell = record { session_id = "s1"; jwt = test_token; state = empty_state }

abbrev held_world : World Fields
held_world = record small_world { cells = (("cell-local", "s1"), held_cell) ∷ [] }

verify-destroy_cell_example :
    (verify test_env test_crypto [] test_token "s1" "tool" true
      (destroy_cell test_config "cell-local" "s1" held_world).1.store).0
    ≡ err (jwt token_revoked)
unfolding words contains exists_where lookup destroy_cell revoke_cell_token split_dots b64e
    rstrip_pad urlsafe_b64encode get letter b64d a2b sextet get_or revoke_token
    update_session_status seconds
verify-destroy_cell_example =
    verify-destroy_cell test_config "cell-local" "cell-local" "s1" "cell tool" (pos 60) "iiii"
      "tool" held_cell held_world test_crypto-IsCodec refl refl refl refl (omega arith) refl
      (inl refl)

-- The first cell's claims on a new server at time 0, and a configuration that knows them.
abbrev new_claims : Fields
new_claims = claims "cell-local" (tally 2) "cell tool" (pos 3605) (tally 4)

abbrev new_config : Config Fields
new_config = record test_config { crypto = crypto_for new_claims }

soon : (t : ℕ) → t < 14 → test_env.time t < test_env.time 3 + 3600 * second
soon t h = ground arith

open_session-tool_example :
    ((local_stack new_config >>= λ _. open_session new_config "local" none >>= λ s.
    send_command new_config s.session_id "tool"
      (some (tool_payload "echo" (single "text" (str "hi"))))
      none)
      empty_world).0
    ≡ ok (record {
      command_id = 1;
      events =
          event_at new_config "cell-local"
            (tally 2)
            3
            ("tool.result", text_answer new_config "echo" "hi")
          ∷ [];
    })
unfolding get get_or ◌+ℤ◌
open_session-tool_example =
    open_session-tool new_config "local" none tally_distinct test_env-RoundTrips
      (crypto_for-IsCodec new_claims refl) soon (omega arith) refl "echo" (single "text" (str "hi"))
      none (inl refl)
