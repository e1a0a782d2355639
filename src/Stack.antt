-- ===== src/Stack.antt =====
-- `local_stack` of nadi/runtime.py, and the run of nadi/cli.py's `demo` on it.
mod Tests
pub mod Fixture
use nadi.Common.{ℕ, String, Option, none, some, List, [], ◌∷◌}
use nadi.Common.Int.{pos}
use nadi.Json.{Fields, str, obj, field, single, end}
use nadi.Exec.{Action, pure, gets, ◌>>=◌, ◌>>◌}
use nadi.Store.Schema.{Event}
use nadi.World.{World, Config}
use nadi.Broker.{register_cell_host, register_sandbox_host}
use nadi.Gateway.{Created, Sent, open_session, send_command, get_session_events}

-- The dictionary that `demo` returns.
pub record Demo : Type 0 where
  pub session : Created
  pub commands : List Sent
  pub events : List (Event Fields)
  pub broker_tool_path_calls : ℕ

module _ {Text : Type 0} (c : Config Text) where
  -- The registrations of `local_stack`, on the objects that it has just made. The sandbox tier has
  -- the name `sandbox-local`.
  unfoldable pub local_stack : Action (World Text) (Unit {0})
  unfolding register_sandbox_host register_cell_host
  local_stack = do
    register_sandbox_host c "sandbox-local" "local" "inproc://sandbox" (some "sandbox-local")
    register_cell_host c "cell-local" "local" "inproc://cell" (pos 100) "cell-local"
        (some "cell-local")
    pure tt

  unfoldable pub demo : Action (World Text) Demo
  demo = do
    local_stack
    created ← open_session c "demo" (some (single "source" (str "cli")))
    echo ← send_command c created.session_id "echo" (some (single "text" (str "hello river"))) none
    tool ←
        send_command c created.session_id "tool"
          (some (field "name" (str "uppercase") (single "args" (obj (single "text" (str "nadi"))))))
          none
    model ← send_command c created.session_id "model" (some (single "prompt" (str "status"))) none
    evs ← get_session_events c created.session_id 0
    calls ← gets (λ w. w.tool_path_calls)
    pure (record {
      session = created;
      commands = echo ∷ tool ∷ model ∷ [];
      events = evs;
      broker_tool_path_calls = calls;
    })
