-- ===== src/Runtime.antt =====
-- `ToolExecutor` and `Runtime.handle` of nadi/runtime.py.
pub mod Quiet
use nadi.Common.{ℕ, String, ◌<>◌, List, [], ◌∷◌, ◌==◌, string_eq, if◌then◌else◌, none, some}
use nadi.Json.{Value, Fields, str, obj, end, single, get, get_or, text_of}
use nadi.Exec.{Action, pure, ◌>>=◌}
use nadi.Sandboxd.{args_or_empty}

-- `class ToolExecutor(Protocol)`
abbrev pub ToolExecutor : Type 0 → Type 0
ToolExecutor S = String → List ℕ → String → Value → Action S Fields

-- `payload.get("args") or {}`
abbrev pub args_of : Fields → Value
args_of payload = elim (get payload "args") [ none ↦ obj end | some v ↦ args_or_empty v ]

module _ {S : Type 0} (repr : Value → String) (execute : ToolExecutor S) where
  -- `str(payload.get(k, default))`
  abbrev pub payload_text : Fields → String → String → String
  payload_text payload k default = text_of repr (get_or payload k (str default))

  -- The events that a command makes.
  unfoldable pub handle : String → List ℕ → String → Fields → Action S (List (String × Fields))
  handle session_id token command_type payload =
      if command_type == "echo"
      then pure (("assistant.message", single "text" (str (payload_text payload "text" ""))) ∷ [])
      else if command_type == "model"
      then pure (
          (
            "model.response",
            single "text" (str ("deterministic-model:" <> payload_text payload "prompt" "")),
          )
          ∷ [])
      else if command_type == "tool"
      then (do
        out ← execute session_id token (payload_text payload "name" "echo") (args_of payload)
        pure (("tool.result", out) ∷ []))
      else pure (("command.error", single "error" (str ("unknown command: " <> command_type))) ∷ [])
