-- ===== src/Gateway.antt =====
-- `Gateway` of nadi/gateway.py.
mod Tests
pub mod Sending
pub mod Joining
pub mod Invariant
pub mod Completing
pub mod Answering
pub mod Conversation
pub mod Calling
pub mod Tooling
pub mod Opening
use nadi.Common.{
  ℕ, String, ◌<>◌, Bool, true, false, Option, none, some, List, ◌==◌, string_eq, if◌then◌else◌,
}
use nadi.Json.{Fields, or_empty}
use nadi.Exec.{Action, pure, gets, or_raise, on_error, no_route, ◌>>=◌, ◌>>◌}
use nadi.Store.Schema.{Event, uuid4}
use nadi.Store.Sessions.{create_session, update_session_status}
use nadi.Store.Events.{Appended, get_events}
use nadi.Store.Commands.{enqueue_command}
use nadi.Store.Channels.{get_or_create_channel}
use nadi.Store.Leases.{Route, get_route}
use nadi.World.{World, Config, on_store}
use nadi.Strings.{take_chars}
use nadi.Celld.{consume_commands}
use nadi.Broker.{Placement, place_session, celld_for_route}

-- The dictionaries that the methods return.
pub record Created : Type 0 where
  pub session_id : String
  pub status : String
  pub route : Placement

pub record Joined : Type 0 where
  pub session_id : String
  pub channel_id : String
  pub created : Bool

pub record Sent : Type 0 where
  pub command_id : ℕ
  pub events : List Appended

module _ {Text : Type 0} (c : Config Text) where
  unfoldable pub open_session : String → Option Fields → Action (World Text) Created
  open_session tenant_id metadata = do
    sid ← on_store (create_session c.env tenant_id none none (some (or_empty metadata)))
    placement ← place_session c sid
    pure (record { session_id = sid; status = "running"; route = placement })

  -- `initiator_resource_id or f"{platform}:anon-{uuid4().hex[:8]}"`; the first eight characters of
  -- a UUID are the same with and without its dashes.
  abbrev pub resource_or_anonymous : String → String → Action (World Text) String
  resource_or_anonymous platform initiator_resource_id =
      if initiator_resource_id == ""
      then (do id ← on_store (uuid4 c.env); pure (platform <> (":anon-" <> take_chars 8 id)))
      else pure initiator_resource_id

  -- the `try` block
  abbrev pub join_channel :
      String → String → String → String → String → Option Fields → Action (World Text) Joined
  join_channel platform channel_id thread_id sid resource_id metadata = do
    place_session c sid
    (actual_sid, cid, created) ←
        on_store
          (get_or_create_channel c.env platform channel_id thread_id sid resource_id metadata)
    (if created then pure tt else on_store (update_session_status c.env sid "abandoned"))
    pure (record { session_id = actual_sid; channel_id = cid; created = created })

  unfoldable pub get_or_create_channel_session :
      String → String → String → String → String → Option Fields → Action (World Text) Joined
  get_or_create_channel_session platform channel_id thread_id tenant_id initiator_resource_id
        metadata =
      do
        resource_id ← resource_or_anonymous platform initiator_resource_id
        sid ← on_store (create_session c.env tenant_id none none (some (or_empty metadata)))
        on_error (join_channel platform channel_id thread_id sid resource_id metadata)
            (on_store (update_session_status c.env sid "abandoned"))

  unfoldable pub route : String → Action (World Text) Route
  route session_id = do found ← on_store (get_route c.env session_id); or_raise found no_route

  -- The route is checked before the command is stored.
  unfoldable pub send_command :
      String → String → Option Fields → Option String → Action (World Text) Sent
  send_command session_id command_type payload actor_resource_id = do
    route session_id
    command_id ←
        on_store (
          enqueue_command c.env session_id command_type (some (or_empty payload)) actor_resource_id)
    celld ← celld_for_route c session_id
    events ← consume_commands c celld session_id
    pure (record { command_id = command_id; events = events })

  unfoldable pub get_session_events : String → ℕ → Action (World Text) (List (Event Fields))
  get_session_events session_id after = do
    route session_id
    on_store (get_events c.env session_id after)
