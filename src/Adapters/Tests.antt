-- ===== src/Adapters/Tests.antt =====
-- Replies at concrete events.
use nadi.Common.{◌≤◌, ◌≡◌, refl, String, true, false, none, List, [], ◌∷◌}
use nadi.Json.{Value, Fields, str, obj, single, field}
use nadi.Exec.{ok}
use nadi.Sql.{select}
use nadi.Strings.{take_chars, text_length, join_with}
use nadi.Json.{get, get_or}
use nadi.Store.Events.{Appended}
use nadi.Adapters.{
  sanitize, strip_controls, has_close, replace_backticks, max_segment, event_part, reply_parts,
  extract_reply_text,
}
use nadi.Adapters.Replies.{
  Lacks, is_public, sanitize_lem, extract_reply_text-Lacks, extract_reply_text_public,
}

abbrev unknown : Value → String
unknown v = "?"

abbrev event : String → Fields → Appended
event ty payload = record {
  session_id = "s1";
  sequence = 1;
  event_type = ty;
  payload = payload;
  actor_resource_id = none;
}

abbrev events : List Appended
events =
    event "assistant.message" (single "text" (str "a `b`"))
    ∷ event "tool.result"
        (field "tool" (str "cat") (single "result" (obj (single "text" (str "secret")))))
    ∷ event "command.error" (single "error" (str "no"))
    ∷ []

sanitize_example :
    (text_length (sanitize "<@u1>a `b`") ≤ max_segment) × Lacks b'`' (sanitize "<@u1>a `b`")
sanitize_example = sanitize_lem "<@u1>a `b`"

-- The controls go in one pass.
sanitize_once : sanitize "<<@x>@here>" ≡ "<@here>"
unfolding sanitize strip_controls has_close replace_backticks take_chars
sanitize_once = refl

reply_text : extract_reply_text unknown true events ≡ ok "a 'b'\n[cat] secret\nError: no"
unfolding extract_reply_text reply_parts event_part sanitize strip_controls has_close
    replace_backticks take_chars join_with get_or get
reply_text = refl

extract_reply_text-Lacks_example : Lacks b'`' "a 'b'\n[cat] secret\nError: no"
extract_reply_text-Lacks_example =
    extract_reply_text-Lacks unknown true events "a 'b'\n[cat] secret\nError: no" reply_text

extract_reply_text_public_example :
    (reply : String) × (extract_reply_text unknown false events ≡ ok reply)
    × (extract_reply_text unknown true (select is_public events) ≡ ok reply)
extract_reply_text_public_example = extract_reply_text_public unknown true events
