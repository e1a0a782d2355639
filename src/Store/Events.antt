-- ===== src/Store/Events.antt =====
-- The table `events`: `append_event` and `get_events`.
pub mod Sequence
pub mod Log
use nadi.Common.{
  ℕ, suc, ◌+◌, String, Bool, ◌&&◌, not, Option, List, [], ◌∷◌, ◌++◌, ltb, ◌==◌, string_eq,
}
use nadi.Json.{Fields, or_empty}
use nadi.Exec.{
  Action, Result, ok, pure, gets, modify, raise_if, integrity, then_result, each, ◌>>=◌, ◌>>◌,
}
use nadi.Sql.{select, order_by, ascending, max_of}
use nadi.Store.Schema.{Env, Event, Store, now, json_text, json_loads}
use nadi.Store.Sessions.{has_session}

module _ {Text : Type 0} where
  abbrev pub in_session : String → Event Text → Bool
  in_session session_id row = row.session_id == session_id

  -- SELECT COALESCE(MAX(sequence), 0) + 1 FROM events WHERE session_id=?
  unfoldable pub next_sequence : String → Store Text → ℕ
  next_sequence session_id s =
      max_of (λ r. r.sequence) (select (in_session session_id) s.events) + 1

-- The dictionary that `append_event` returns.
pub record Appended : Type 0 where
  pub session_id : String
  pub sequence : ℕ
  pub event_type : String
  pub payload : Fields
  pub actor_resource_id : Option String

module _ {Text : Type 0} (env : Env Text) where
  -- The sequence number is one more than the session's largest, and (session_id, sequence) is
  -- UNIQUE by that.
  unfoldable pub append_event :
      String → String → Option Fields → Option String → Action (Store Text) Appended
  unfolding now
  append_event session_id event_type payload actor_resource_id = do
    seq ← gets (next_sequence session_id)
    t ← now env
    known ← gets (has_session session_id)
    raise_if (not known) integrity
    modify (λ s. record s {
      events =
          s.events
          ++ record {
            id = suc s.last_event_id;
            session_id = session_id;
            sequence = seq;
            event_type = event_type;
            payload = json_text env payload;
            created_at = t;
            actor_resource_id = actor_resource_id;
          }
            ∷ [];
      last_event_id = suc s.last_event_id;
    })
    pure (record {
      session_id = session_id;
      sequence = seq;
      event_type = event_type;
      payload = or_empty payload;
      actor_resource_id = actor_resource_id;
    })

  -- `_row` of an event
  unfoldable pub event_row : Event Text → Result (Event Fields)
  event_row row = then_result (json_loads env row.payload) λ p. ok (record {
    id = row.id;
    session_id = row.session_id;
    sequence = row.sequence;
    event_type = row.event_type;
    payload = p;
    created_at = row.created_at;
    actor_resource_id = row.actor_resource_id;
  })

  unfoldable pub get_events : String → ℕ → Action (Store Text) (List (Event Fields))
  get_events session_id after s = (
    each event_row (
        order_by (ascending (λ r. r.sequence))
          (select (λ r. in_session session_id r && ltb after r.sequence) s.events)),
    s,
  )
