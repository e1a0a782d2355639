-- ===== src/Adapters.antt =====
-- nadi/adapters/base.py, and the `try` block that the `_handle` methods of the three adapters share.
mod Tests
pub mod Slack
pub mod Discord
pub mod Telegram
pub mod Replies
pub mod Invariant
pub mod Setup
use Prim.Native.Char.{Char, code}
use nadi.Common.{
  ℕ, String, ◌<>◌, Bool, true, false, not, ◌&&◌, ◌||◌, Option, none, some, List, [], ◌∷◌, ◌==◌,
  nat_eq, string_eq, if◌then◌else◌,
}
use nadi.Strings.{take_chars, join_with, is_empty}
use nadi.Json.{Value, Fields, str, obj, end, field, single, get, get_or, text_of}
use nadi.Exec.{Action, Result, ok, err, attribute_error, pure, lift, then_result, ◌>>=◌, ◌>>◌}
use nadi.Store.Events.{Appended}
use nadi.World.{World, Config}
use nadi.Gateway.{Joined, Sent}
use nadi.Gateway.{
  get_or_create_channel_session as gateway_channel_session, send_command as gateway_send_command,
}

-- `class GatewayProtocol`: the two methods that an adapter calls.
pub record GatewayProtocol (S : Type 0) : Type 0 where
  pub get_or_create_channel_session :
      String → String → String → String → String → Option Fields → Action S Joined
  pub send_command : String → String → Option Fields → Option String → Action S Sent

-- The gateway of the process as such a protocol.
abbrev pub gateway_of : {Text : Type 0} → Config Text → GatewayProtocol (World Text)
gateway_of c = record {
  get_or_create_channel_session = gateway_channel_session c;
  send_command = gateway_send_command c;
}

-- `<[@#!][^>]*>`: whether a match begins at a `<` before the given rest.
abbrev pub is_control : ℕ → Bool
is_control c = c == b'@' || (c == b'#' || c == b'!')

unfoldable pub has_close : String → Bool
has_close String.[] = false
has_close (String.◌∷◌ c s) = code c == b'>' || has_close s

abbrev pub opens_control : ℕ → String → Bool
opens_control c String.[] = false
opens_control c (String.◌∷◌ a s) = c == b'<' && (is_control (code a) && has_close s)

-- `_PLATFORM_CONTROLS.sub("", text)`; the flag says that the scan is inside a match.
unfoldable pub strip_controls : Bool → String → String
strip_controls inside String.[] = String.[]
strip_controls true (String.◌∷◌ c s) = strip_controls (not (code c == b'>')) s
strip_controls false (String.◌∷◌ c s) =
    let opens = opens_control (code c) s in
    let rest = strip_controls opens s in if opens then rest else String.◌∷◌ c rest

-- `text.replace("`", "'")`
abbrev pub quote_char : Char → Char
quote_char c = if code c == b'`' then "'" else c

unfoldable pub replace_backticks : String → String
replace_backticks String.[] = String.[]
replace_backticks (String.◌∷◌ c s) = String.◌∷◌ (quote_char c) (replace_backticks s)

-- the cap of a segment
abbrev pub max_segment : ℕ
max_segment = 4000

unfoldable pub sanitize : String → String
sanitize text = take_chars max_segment (replace_backticks (strip_controls false text))

-- `f"{platform}:{user_id}"`
abbrev pub make_resource_id : String → String → String
make_resource_id platform user_id = platform <> (":" <> user_id)

-- `parts.append(text)`, if there is one
abbrev pub add_text : String → String → List String → List String
add_text label text parts = if is_empty text then parts else (label <> text) ∷ parts

module _ (repr : Value → String) where
  -- `_sanitize(str(payload.get(k, default)))`
  abbrev pub clean : Fields → String → String → String
  clean payload k default = sanitize (text_of repr (get_or payload k (str default)))

  -- The part of a tool's result; `result.get` is there on a dictionary alone.
  abbrev pub tool_part : Fields → Value → List String → Result (List String)
  tool_part payload (obj result) parts =
      ok (add_text ("[" <> (clean payload "tool" "tool" <> "] ")) (clean result "text" "") parts)
  tool_part payload _ parts = err attribute_error

  -- One event, before the parts of those that follow.
  unfoldable pub event_part : Bool → Appended → List String → Result (List String)
  event_part include_tool_results ev parts =
      if ev.event_type == "assistant.message" || ev.event_type == "model.response"
      then ok (add_text "" (clean ev.payload "text" "") parts)
      else if ev.event_type == "tool.result" && include_tool_results
      then tool_part ev.payload (get_or ev.payload "result" (obj end)) parts
      else if ev.event_type == "command.error"
      then ok (("Error: " <> clean ev.payload "error" "unknown error") ∷ parts)
      else ok parts

  unfoldable pub reply_parts : Bool → List Appended → Result (List String)
  reply_parts include_tool_results [] = ok []
  reply_parts include_tool_results (ev ∷ evs) =
      then_result (reply_parts include_tool_results evs) (event_part include_tool_results ev)

  unfoldable pub extract_reply_text : Bool → List Appended → Result String
  extract_reply_text include_tool_results evs =
      then_result (reply_parts include_tool_results evs) λ parts. ok (join_with "\n" parts)

  -- The `try` block up to the reply: the text that is to be sent, where it is not empty.
  module _ {S : Type 0} (gateway : GatewayProtocol S) where
    unfoldable pub converse :
        String
        → String
        → String
        → String
        → String
        → Fields
        → String
        → String
        → Action S (Option String)
    converse platform channel_id thread_id tenant_id resource_id metadata command_type text = do
      routing ←
          gateway.get_or_create_channel_session platform channel_id thread_id tenant_id resource_id
            (some metadata)
      result ←
          gateway.send_command routing.session_id command_type
            (some (field "text" (str text) (single "prompt" (str text)))) (some resource_id)
      reply ← lift (extract_reply_text false result.events)
      pure (if is_empty reply then none else some reply)

-- `except Exception`: the error is logged, and nothing is sent.
abbrev pub answer_or_none : {A : Type 0} → Result (Option A) → Option A
answer_or_none (ok reply) = reply
answer_or_none (err e) = none

abbrev pub guarded : {S A : Type 0} → Action S (Option A) → S → Option A × S
guarded m s = let (r, s') = m s in (answer_or_none r, s')
