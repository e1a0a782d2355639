-- ===== src/Server/Tests.antt =====
-- The server at concrete requests.
use nadi.Common.{◌≡◌, ◌≢◌, refl, ap, none, some, [], All, arith}
use nadi.Common.Int.{pos}
use nadi.Json.{Fields, str, single, get_or}
use nadi.Exec.{ok}
use nadi.Store.Schema.{uuid4}
use nadi.Store.Fixture.{test_env, test_env-RoundTrips, tally_distinct}
use nadi.Store.WellFormed.{IsWellFormed}
use nadi.Sql.{select, fetch_one, exists_where, update_where, delete_where, max_of, order_by}
use nadi.Strings.{utf8_size, take_chars}
use nadi.Store.Sessions.{create_session, update_session_status}
use nadi.Store.Events.{append_event, next_sequence}
use nadi.Store.Hosts.{choose_cell_host, best_host}
use nadi.Store.Leases.{create_lease}
use nadi.Store.Channels.{get_or_create_channel, find_channel, channel_row}
use nadi.Security.Jwt.{sign}
use nadi.Dict.{lookup, put}
use nadi.Celld.{create_cell, append_cell_event, apply_event}
use nadi.Broker.{place_session}
use nadi.Gateway.{open_session, get_or_create_channel_session}
use nadi.World.{World}
use nadi.Stack.Fixture.{test_config, small_world}
use nadi.Server.{
  Refusal, make_server, oversized_field, post_body, Request, Handler, do_get, do_post,
  check_api_key, read_body, post_channel, sized_fields, refuse, unauthorized, body_too_large,
}
use nadi.Celld.Completing.{value_or}
use nadi.Store.Fixture.Fitting.{small_store-IsWellFormed}
use nadi.Server.Once.{after_claim, claim_once}
use nadi.Store.Commands.{claim_pending_commands, command_row}
use nadi.Store.Leases.{get_route, route_at}
use nadi.Strings.{split_on, strip, lstrip, rstrip}
use nadi.Gateway.{get_session_events, route}
use nadi.Server.{path_split}
use nadi.Exec.{each}
use nadi.Common.{◌⊎◌, ◌==◌, nat_eq, List, false}
use nadi.Store.Schema.{Command}
use nadi.Server.Runs.{at_start, after_get, after_post, make_server-Reached}
use nadi.Server.Refusals.{HasKey, HasBody, IsRefused, Fits, do_post-HasKey, post_channel-Fits}

abbrev local : Handler
local = record { api_key = some "secret"; tenant_id = "local" }

abbrev new_session : Request
new_session = record {
  path = "/sessions";
  key = some "secret";
  content_length = some (pos 0);
  read = λ n. [];
}

abbrev after_session : World Fields
after_session = (do_post test_config local new_session small_world).1

abbrev served : Handler × World Fields
served = make_server test_config (some "secret") "local"

abbrev after_two : World Fields
after_two =
    (do_get test_config served.0 (record new_session { path = "/sessions/s1/events" })
      (do_post test_config served.0 new_session served.1).1).1

make_server-Reached_example :
    IsWellFormed test_env after_two.store
    × All (λ r. r.tenant_id ≡ "local") after_two.store.sessions
make_server-Reached_example =
    make_server-Reached test_config (some "secret") "local" tally_distinct test_env-RoundTrips
      after_two
      (after_get _ (record new_session { path = "/sessions/s1/events" })
        (after_post served.1 new_session at_start))

-- What the first claim returns, and what is claimed after a request.
abbrev claimed_commands : List (Command Fields)
claimed_commands =
    value_or [] (claim_pending_commands test_env "s1" "cell-local" small_world.store).0

abbrev later_world : World Fields
later_world =
    (do_get test_config local (record new_session { path = "/sessions/s1/events" })
      (after_claim test_config "s1" "cell-local" small_world)).1

claimed_ok :
    (claim_pending_commands test_env "s1" "cell-local" small_world.store).0 ≡ ok claimed_commands
unfolding claim_pending_commands update_where select order_by each command_row
claimed_ok = refl

claimed_none : (claim_pending_commands test_env "s1" "cell-other" later_world.store).0 ≡ ok []
unfolding claim_pending_commands update_where select order_by each command_row do_get check_api_key
    path_split get_session_events route get_route route_at fetch_one split_on strip lstrip rstrip
claimed_none = refl

abbrev no_commands : List (Command Fields)
no_commands = []

claim_once_example :
    All (λ cmd. All (λ cmd'. (cmd'.id == cmd.id) ≡ false) no_commands) claimed_commands
claim_once_example =
    claim_once test_config local tally_distinct test_env-RoundTrips small_world later_world "s1"
      "cell-local" "s1" "cell-other" claimed_commands [] small_store-IsWellFormed claimed_ok
      (after_get _ (record new_session { path = "/sessions/s1/events" }) at_start) claimed_none

session_drawn : after_session.store.uuid_reads ≡ 7
unfolding do_post check_api_key read_body post_body get_or open_session create_session exists_where
    place_session choose_cell_host order_by select create_lease lookup create_cell sign
    update_session_status append_cell_event append_event apply_event put best_host max_of
    update_where delete_where fetch_one next_sequence
session_drawn = refl

session_changed : after_session ≢ small_world
session_changed e = absurd (omega (arith, session_drawn, ap (λ w. w.store.uuid_reads) e))

do_post-HasKey_example :
    ((¬ HasKey (some "secret") new_session)
      × IsRefused test_config local small_world 401 unauthorized new_session)
    ⊎ (HasKey (some "secret") new_session
        × (HasBody test_config local small_world new_session
            ⊎ ((refusal : Refusal) × IsRefused test_config local small_world 413 refusal
                  new_session)))
do_post-HasKey_example = do_post-HasKey test_config local small_world new_session

abbrev channel_body : Fields
channel_body = single "platform" (str "slack")

channel_drawn : (post_channel test_config local channel_body small_world).1.store.uuid_reads ≡ 9
unfolding post_channel get_or oversized_field utf8_size get_or_create_channel_session uuid4
    take_chars get_or_create_channel find_channel channel_row create_session exists_where
    place_session choose_cell_host order_by select create_lease lookup create_cell sign
    update_session_status append_cell_event append_event apply_event put best_host max_of
    update_where delete_where fetch_one next_sequence
channel_drawn = refl

channel_changed : (post_channel test_config local channel_body small_world).1 ≢ small_world
channel_changed e = absurd (omega (arith, channel_drawn, ap (λ w. w.store.uuid_reads) e))

post_channel-Fits_example : All (λ k. Fits (get_or channel_body k (str ""))) sized_fields
post_channel-Fits_example =
    post_channel-Fits test_config local small_world channel_body channel_changed

without_key :
    do_post test_config local (record new_session { key = none }) small_world
    ≡ (ok (refuse 401 unauthorized), small_world)
unfolding do_post check_api_key
without_key = refl

too_long :
    do_post test_config local
      (record new_session { content_length = some (pos 2_000_000) })
      small_world
    ≡ (ok (refuse 413 (body_too_large (pos 2_000_000))), small_world)
unfolding do_post check_api_key read_body
too_long = refl
