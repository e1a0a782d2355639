-- ===== src/Store/Commands.antt =====
-- The table `command_inbox`: `enqueue_command`, `claim_pending_commands` and `complete_command`.
pub mod Claims
pub mod Limits
pub mod Once
use nadi.Common.{
  ℕ, suc, String, Bool, true, false, ◌&&◌, not, Option, none, some, List, [], ◌∷◌, ◌++◌, leb, ◌==◌,
  string_eq, nat_eq,
}
use nadi.Json.{Fields}
use nadi.Exec.{
  Action, Result, ok, lift, gets, modify, raise_if, integrity, too_many_pending, event_limit,
  then_result, each, ◌>>=◌, ◌>>◌,
}
use nadi.Sql.{select, update_where, order_by, ascending, count_where}
use nadi.Store.Schema.{
  Env, Command, CommandStatus, pending, claimed, completed, Store, now, uuid4, json_text,
  json_loads,
}
use nadi.Store.Sessions.{has_session}
use nadi.Store.Events.{in_session}

-- `_MAX_PENDING_COMMANDS` and `_MAX_EVENTS_PER_SESSION`
abbrev pub max_pending_commands : ℕ
max_pending_commands = 100

abbrev pub max_events_per_session : ℕ
max_events_per_session = 10_000

abbrev pub is_pending : CommandStatus → Bool
is_pending pending = true
is_pending _ = false

abbrev pub is_claimed : CommandStatus → Bool
is_claimed claimed = true
is_claimed _ = false

module _ {Text : Type 0} where
  -- WHERE session_id=? AND status='pending'
  abbrev pub is_waiting : String → Command Text → Bool
  is_waiting session_id row = row.session_id == session_id && is_pending row.status

  -- WHERE claim_token=? AND status='claimed'
  abbrev pub has_claim : String → Command Text → Bool
  has_claim token row =
      elim row.claim_token [ none ↦ false | some t ↦ t == token ] && is_claimed row.status

  -- UPDATE … SET status='claimed', claimed_by=?, claim_token=?, claimed_at=?
  abbrev pub claim_row : String → String → ℕ → Command Text → Command Text
  claim_row claimed_by token t row = record row {
    status = claimed;
    claimed_by = some claimed_by;
    claim_token = some token;
    claimed_at = some t;
  }

module _ {Text : Type 0} (env : Env Text) where
  unfoldable pub enqueue_command :
      String → String → Option Fields → Option String → Action (Store Text) ℕ
  unfolding now
  enqueue_command session_id command_type payload actor_resource_id = do
    waiting ← gets (λ s. count_where (is_waiting session_id) s.command_inbox)
    raise_if (leb max_pending_commands waiting) too_many_pending
    event_count ← gets (λ s. count_where (in_session session_id) s.events)
    raise_if (leb max_events_per_session event_count) event_limit
    available ← now env
    created ← now env
    known ← gets (has_session session_id)
    raise_if (not known) integrity
    modify (λ s. record s {
      command_inbox =
          s.command_inbox
          ++ record {
            id = suc s.last_command_id;
            session_id = session_id;
            command_type = command_type;
            payload = json_text env payload;
            status = pending;
            available_at = available;
            claimed_by = none;
            claim_token = none;
            claimed_at = none;
            completed_at = none;
            created_at = created;
            actor_resource_id = actor_resource_id;
          }
            ∷ [];
      last_command_id = suc s.last_command_id;
    })
    gets (λ s. s.last_command_id)

  -- `_row` of a command
  unfoldable pub command_row : Command Text → Result (Command Fields)
  command_row row = then_result (json_loads env row.payload) λ p. ok (record {
    id = row.id;
    session_id = row.session_id;
    command_type = row.command_type;
    payload = p;
    status = row.status;
    available_at = row.available_at;
    claimed_by = row.claimed_by;
    claim_token = row.claim_token;
    claimed_at = row.claimed_at;
    completed_at = row.completed_at;
    created_at = row.created_at;
    actor_resource_id = row.actor_resource_id;
  })

  unfoldable pub claim_pending_commands :
      String → String → Action (Store Text) (List (Command Fields))
  unfolding now uuid4
  claim_pending_commands session_id claimed_by = do
    token ← uuid4 env
    t ← now env
    modify (λ s. record s {
      command_inbox =
          update_where (is_waiting session_id) (claim_row claimed_by token t) s.command_inbox;
    })
    rows ← gets (λ s. order_by (ascending (λ r. r.id)) (select (has_claim token) s.command_inbox))
    lift (each command_row rows)

  unfoldable pub complete_command : ℕ → Action (Store Text) (Unit {0})
  unfolding now
  complete_command command_id = do
    t ← now env
    modify (λ s. record s {
      command_inbox =
          update_where (λ r. r.id == command_id)
            (λ r. record r { status = completed; completed_at = some t }) s.command_inbox;
    })
