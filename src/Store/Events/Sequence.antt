-- ===== src/Store/Events/Sequence.antt =====
-- The sequence numbers of the events of a session, which `append_event` hands out.
use nadi.Common.{
  ℕ, suc, ◌+◌, ◌-◌, ◌≡◌, refl, String, true, false, Option, List, [], ◌∷◌, ◌++◌, map, length,
  CountsUp, CountsUp-snoc, map-drop-range, All-drop, arith, ltb, string_eq, eq_iff, ap, ◌∙◌,
  Bool-cases, inl, inr, All, none, some, drop,
}
use nadi.Json.{Fields, end, or_empty}
use nadi.Exec.{err, ok, integrity, each}
use nadi.Sql.{select}
use nadi.Sql.Order.{order_by-range}
use nadi.Sql.Laws.{All-select, select-snoc, select_above, select_and, max_of-range}
use nadi.Store.Schema.{Env, Event, Store, json_text}
use nadi.Store.Sessions.{has_session}
use nadi.Store.Events.{in_session, next_sequence, append_event, event_row, get_events, Appended}

module _ {Text : Type 0} where
  abbrev pub events_of : String → List (Event Text) → List (Event Text)
  events_of session_id = select (in_session session_id)

  -- The events of each session are numbered 1, 2, 3, … in the order of the table.
  abbrev pub IsSequenced : List (Event Text) → Type 0
  IsSequenced events =
      (session_id : String) → CountsUp (λ r. r.sequence) (events_of session_id events)

  pub next_sequence-eq-length :
      (s : Store Text) (session_id : String)
      → IsSequenced s.events
      → next_sequence session_id s ≡ length (events_of session_id s.events) + 1
  unfolding next_sequence
  next_sequence-eq-length s session_id h = ground (
    arith,
    max_of-range (λ (r : Event Text). r.sequence) (events_of session_id s.events) 0
        (length (events_of session_id s.events)) (h session_id),
  )

  -- One more event with the next number keeps the numbering.
  pub IsSequenced-snoc :
      (events : List (Event Text)) (e : Event Text)
      → IsSequenced events
      → e.sequence ≡ length (events_of e.session_id events) + 1
      → IsSequenced (events ++ e ∷ [])
  IsSequenced-snoc events e h n sid = elim (Bool-cases (in_session sid e)) [
    | inl here ↦
        rw (select-snoc (in_session sid) events e, here)
          (CountsUp-snoc (λ r. r.sequence) (events_of sid events) e (h sid)
            (n ∙ ap (λ k. length (events_of k events) + 1) ((eq_iff e.session_id sid).0 here)))
    | inr there ↦ rw (select-snoc (in_session sid) events e, there) (h sid)
  ]

  -- The row that `append_event` adds.
  abbrev pub event_of :
      (env : Env Text) → String → String → Option Fields → Option String → Store Text → Event Text
  event_of env session_id event_type payload actor s = record {
    id = suc s.last_event_id;
    session_id = session_id;
    sequence = next_sequence session_id s;
    event_type = event_type;
    payload = json_text env payload;
    created_at = env.time s.clock_reads;
    actor_resource_id = actor;
  }

  abbrev pub answer_of : String → String → Option Fields → Option String → Store Text → Appended
  answer_of session_id event_type payload actor s = record {
    session_id = session_id;
    sequence = next_sequence session_id s;
    event_type = event_type;
    payload = or_empty payload;
    actor_resource_id = actor;
  }

module _ {Text : Type 0} (env : Env Text) (sid ty : String) (payload : Option Fields)
    (actor : Option String) (s : Store Text) where
  -- What `append_event` does for a session that the store has, and for one that it has not.
  pub append_event_known :
      has_session sid s ≡ true
      → append_event env sid ty payload actor s ≡ (
        ok (answer_of sid ty payload actor s),
        record s {
          clock_reads = suc s.clock_reads;
          events = s.events ++ event_of env sid ty payload actor s ∷ [];
          last_event_id = suc s.last_event_id;
        },
      )
  unfolding append_event
  append_event_known h = rw (h, append_event)

  pub append_event_unknown :
      has_session sid s ≡ false
      → append_event env sid ty payload actor s
        ≡ (err integrity, record s { clock_reads = suc s.clock_reads })
  unfolding append_event
  append_event_unknown h = rw (h, append_event)

  -- Whatever the call returns, the events of every session stay numbered 1, 2, 3, …
  pub append_event-IsSequenced :
      IsSequenced s.events → IsSequenced (append_event env sid ty payload actor s).1.events
  append_event-IsSequenced h = elim (Bool-cases (has_session sid s)) [
    | inl known ↦ rw (append_event_known known) (
        IsSequenced-snoc s.events (event_of env sid ty payload actor s) h
          (next_sequence-eq-length s sid h))
    | inr unknown ↦ rw (append_event_unknown unknown) h
  ]

module _ {Text : Type 0} (env : Env Text) where
  -- The dictionary that a readable row makes.
  abbrev pub decode : Event Text → Event Fields
  decode row = record {
    id = row.id;
    session_id = row.session_id;
    sequence = row.sequence;
    event_type = row.event_type;
    payload = elim (env.loads row.payload) [ none ↦ end | some d ↦ d ];
    created_at = row.created_at;
    actor_resource_id = row.actor_resource_id;
  }

  abbrev pub IsReadable : Event Text → Type 0
  IsReadable row = (d : Fields) × (env.loads row.payload ≡ some d)

  event_row-decode : (row : Event Text) → IsReadable row → event_row env row ≡ ok (decode row)
  unfolding event_row
  event_row-decode row (d, e) = ground (arith, e)

  each-decode :
      (rows : List (Event Text))
      → All IsReadable rows
      → each (event_row env) rows ≡ ok (map decode rows)
  unfolding each
  each-decode [] h = refl
  each-decode (row ∷ rows) h = rw (event_row-decode row h.0, each-decode rows h.1)

  -- `get_events` returns the events of the session in the order of their numbers, without the first
  -- `after`.
  pub get_events_lem :
      (sid : String) (after : ℕ) (s : Store Text)
      → IsSequenced s.events
      → All IsReadable s.events
      → get_events env sid after s ≡ (ok (map decode (drop after (events_of sid s.events))), s)
  unfolding get_events
  get_events_lem sid after s numbered readable =
      let mine = events_of sid s.events in
      let key = λ (r : Event Text). r.sequence in
      let past : select (λ r. ltb after r.sequence) mine ≡ drop after mine =
        select_above key mine 1 (length mine) after (numbered sid)
        ∙ ap (λ k. drop k mine) (omega arith) in
      rw (
        select_and (in_session sid) (λ r. ltb after r.sequence) s.events,
        past,
        order_by-range key (drop after mine) (1 + after) (length mine - after)
            (map-drop-range key after mine 1 (length mine) (numbered sid)),
        each-decode (drop after mine) (
            All-drop IsReadable after mine
              (All-select (in_session sid) IsReadable s.events readable)),
      )
