-- ===== src/Celld.antt =====
-- `Cell` and `Celld` of nadi/celld.py. The methods take the `host_id` of their `Celld`. Its `Runtime`
-- runs the tools of the one `Sandboxd`.
pub mod Replay
pub mod Invariant
pub mod Completing
pub mod Consume
pub mod Destroying
pub mod Replying
pub mod Tooling
pub mod Answering
pub mod Starting
use nadi.Common.{
  ℕ, String, Bool, true, false, ◌||◌, Option, none, some, List, [], ◌∷◌, ◌++◌, ◌==◌, string_eq,
  pair_eq, if◌then◌else◌,
}
use nadi.Common.Int.{ℤ, pos, seconds}
use nadi.Json.{
  Value, Fields, num, str, arr, obj, end, field, single, get, get_or, text_of, or_empty, is_truthy,
}
use nadi.Exec.{Action, pure, gets, modify, ◌>>=◌, ◌>>◌}
use nadi.Store.Schema.{Event, Command}
use nadi.Store.Sessions.{update_session_status}
use nadi.Store.Events.{Appended, append_event, get_events}
use nadi.Store.Commands.{claim_pending_commands, complete_command}
use nadi.Store.Tokens.{revoke_token}
use nadi.Security.Base64.{b64d}
use nadi.Security.Jwt.{Crypto, split_dots, three_parts, number_of, sign}
use nadi.Dict.{Dict, lookup, put, remove}
use nadi.World.{World, Config, Cell, CellState, empty_state, on_store}
use nadi.Runtime.{handle}
use nadi.Sandboxd.{execute_tool}

-- `Celld._apply`, on the state of the cell
unfoldable pub apply_event : CellState → String → Fields → CellState
apply_event state event_type payload =
    if event_type == "assistant.message" || event_type == "model.response"
    then record state { messages = state.messages ++ get_or payload "text" (str "") ∷ [] }
    else if event_type == "tool.result"
    then record state { tools = state.tools ++ payload ∷ [] }
    else if event_type == "session.started"
    then record state { started = true }
    else state

abbrev pub apply_to_cell : Cell → String → Fields → Cell
apply_to_cell cell event_type payload = record cell {
  state = apply_event cell.state event_type payload;
}

-- the loop over the stored events
unfoldable pub replay : CellState → List (Event Fields) → CellState
replay state [] = state
replay state (ev ∷ evs) = replay (apply_event state ev.event_type ev.payload) evs

-- The `jti` and the `exp` that `destroy_cell` reads out of a token; where Python raises, the result
-- is `none`. A text that `float()` reads as a number is not modelled.
abbrev pub revocation_of : (Value → String) → Value → Option (String × ℤ)
revocation_of repr (obj d) = elim (number_of (get_or d "exp" (num (pos 0)))) [
  | none ↦ none
  | some exp ↦ elim (get d "jti") [
    | none ↦ none
    | some (arr _) ↦ none
    | some (obj _) ↦ none
    | some v ↦ if is_truthy v then some (text_of repr v, exp) else none
  ]
]
revocation_of repr _ = none

abbrev pub token_claims : Crypto → List ℕ → Option Value
token_claims c token = elim (three_parts (split_dots token)) [
  | none ↦ none
  | some (head, payload, sig) ↦ elim (b64d payload) [ none ↦ none | some bytes ↦ c.loads bytes ]
]

module _ {Text : Type 0} (c : Config Text) (host_id : String) where
  abbrev pub cell_of : String → World Text → Option Cell
  cell_of session_id w = lookup (host_id, session_id) w.cells

  abbrev pub set_cell : String → Cell → World Text → World Text
  set_cell session_id cell w = record w { cells = put (host_id, session_id) cell w.cells }

  -- `if cell: self._apply(…)`, which changes the object in `cells`
  abbrev pub update_cell : String → String → Fields → World Text → World Text
  update_cell session_id event_type payload w = elim (cell_of session_id w) [
    | none ↦ w
    | some cell ↦ set_cell session_id (apply_to_cell cell event_type payload) w
  ]

  abbrev pub sign_cell : String → Action (World Text) Cell
  sign_cell session_id = do
    token ← on_store (sign c.env c.crypto c.secret session_id "cell tool" (pos 3600) host_id)
    pure (record { session_id = session_id; jwt = token; state = empty_state })

  unfoldable pub append_cell_event : String → String → Option Fields → Action (World Text) Appended
  append_cell_event session_id event_type payload = do
    ev ← on_store (append_event c.env session_id event_type (some (or_empty payload)) none)
    modify (update_cell session_id event_type (or_empty payload))
    pure ev

  -- The cell that is returned is the object in `cells`, which the first event has changed.
  unfoldable pub create_cell : String → Action (World Text) Cell
  create_cell session_id = do
    cell ← sign_cell session_id
    modify (set_cell session_id cell)
    on_store (update_session_status c.env session_id "running")
    append_cell_event session_id "session.started" (some (single "cell_host" (str host_id)))
    pure (apply_to_cell cell "session.started" (single "cell_host" (str host_id)))

  unfoldable pub reconstruct_cell : String → Action (World Text) Cell
  unfolding replay
  reconstruct_cell session_id = do
    cell ← sign_cell session_id
    evs ← on_store (get_events c.env session_id 0)
    let restored : Cell = record cell { state = replay cell.state evs }
    modify (set_cell session_id restored)
    pure restored

  -- `cells.get(session_id)`, or the cell made anew
  unfoldable pub cell_or_reconstruct : String → Action (World Text) Cell
  cell_or_reconstruct session_id = do
    found ← gets (cell_of session_id)
    elim found [ none ↦ reconstruct_cell session_id | some cell ↦ pure cell ]

  -- the loop over the pairs that `handle` returns
  unfoldable pub emit : String → List (String × Fields) → Action (World Text) (List Appended)
  emit session_id [] = pure []
  emit session_id ((event_type, payload) ∷ rest) = do
    ev ← append_cell_event session_id event_type (some payload)
    evs ← emit session_id rest
    pure (ev ∷ evs)

  -- the body of the loop over the commands
  unfoldable pub run_command :
      String → List ℕ → Command Fields → Action (World Text) (List Appended)
  run_command session_id token cmd = do
    append_cell_event session_id "command.received" (
        some (
          field "command_id" (num (pos cmd.id))
            (field "command_type" (str cmd.command_type) (single "payload" (obj cmd.payload)))))
    out ← handle c.env.repr (execute_tool c) session_id token cmd.command_type cmd.payload
    emitted ← emit session_id out
    on_store (complete_command c.env cmd.id)
    pure emitted

  unfoldable pub run_commands :
      String → List ℕ → List (Command Fields) → Action (World Text) (List Appended)
  run_commands session_id token [] = pure []
  run_commands session_id token (cmd ∷ cmds) = do
    first ← run_command session_id token cmd
    rest ← run_commands session_id token cmds
    pure (first ++ rest)

  unfoldable pub consume_commands : String → Action (World Text) (List Appended)
  consume_commands session_id = do
    cell ← cell_or_reconstruct session_id
    commands ← on_store (claim_pending_commands c.env session_id host_id)
    run_commands session_id cell.jwt commands

  -- The `try` block of `destroy_cell`, whose exceptions are passed over.
  unfoldable pub revoke_cell_token : List ℕ → Action (World Text) (Unit {0})
  revoke_cell_token token = elim (token_claims c.crypto token) [
    | none ↦ pure tt
    | some v ↦ elim (revocation_of c.env.repr v) [
      | none ↦ pure tt
      | some (jti, exp) ↦ on_store (revoke_token c.env jti (seconds exp))
    ]
  ]

  unfoldable pub destroy_cell : String → Action (World Text) (Unit {0})
  destroy_cell session_id = do
    found ← gets (cell_of session_id)
    modify (λ w. record w { cells = remove (host_id, session_id) w.cells })
    elim found [
      | none ↦ pure tt
      | some cell ↦
          revoke_cell_token cell.jwt >> on_store (update_session_status c.env session_id "stopped")
    ]
