-- ===== src/Adapters/Slack.antt =====
-- The handlers of `SlackAdapter` (nadi/adapters/slack_adapter.py). The state is the gateway's; what
-- a handler returns is the message that it says, with the thread, if it says one.
use nadi.Common.{ℕ, String, Bool, ◌||◌, Option, none, some, if◌then◌else◌}
use nadi.Strings.{take_chars}
use nadi.Json.{Value, Fields, null, str, obj, end, single, get_or, is_truthy, text_of}
use nadi.Exec.{Result, ok, err, attribute_error}
use nadi.Adapters.{GatewayProtocol, make_resource_id, converse, guarded}

-- `_MAX_TEXT`
abbrev pub max_text : ℕ
max_text = 8000

-- `say(reply, thread_ts=thread_ts)`
pub record Said : Type 0 where
  pub reply : String
  pub thread_ts : String

abbrev pub is_set : Fields → String → Bool
is_set event k = is_truthy (get_or event k null)

abbrev pub event_of_body : Value → Result Fields
event_of_body (obj event) = ok event
event_of_body _ = err attribute_error

abbrev pub said_in : String → Option String → Option Said
said_in thread_ts none = none
said_in thread_ts (some reply) = some (record { reply = reply; thread_ts = thread_ts })

module _ {S : Type 0} (repr : Value → String) (gateway : GatewayProtocol S)
    (tenant_id command_type : String) where
  -- Slack's identifiers are texts.
  abbrev pub event_text : Fields → String → String → String
  event_text event k default = text_of repr (get_or event k (str default))

  unfoldable pub slack_handle : Fields → S → Option Said × S
  slack_handle event s =
      let thread_ts = event_text event "thread_ts" "" in
      let text = take_chars max_text (event_text event "text" "") in
      let resource_id = make_resource_id "slack" (event_text event "user" "unknown") in
      let (reply, s') =
        guarded
          (converse repr gateway "slack" (event_text event "channel" "") thread_ts tenant_id
            resource_id (single "team" (get_or event "team" null)) command_type text)
          s in
      (said_in thread_ts reply, s')

  -- `on_message` passes over the messages of bots and the edits.
  unfoldable pub on_message : Fields → S → Result (Option Said) × S
  on_message body s = elim (event_of_body (get_or body "event" (obj end))) [
    | err e ↦ (err e, s)
    | ok event ↦
        if is_set event "bot_id" || is_set event "subtype"
        then (ok none, s)
        else let (said, s') = slack_handle event s in (ok said, s')
  ]

  unfoldable pub on_mention : Fields → S → Result (Option Said) × S
  on_mention body s = elim (event_of_body (get_or body "event" (obj end))) [
    | err e ↦ (err e, s)
    | ok event ↦ let (said, s') = slack_handle event s in (ok said, s')
  ]
