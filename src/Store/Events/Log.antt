-- ===== src/Store/Events/Log.antt =====
-- The event log as its users see it: for each session a list of entries, to which one is added at the
-- end, and which is read from a position on.
use nadi.Common.{
  zero, ◌-◌, map-drop-range, length-map, ℕ, suc, ◌+◌, ◌≡◌, refl, ap, ◌∙◌, String, Option, List, [],
  ◌∷◌, ◌++◌, map, drop, range, length, All, ◌==◌, string_eq, Bool-cases, inl, inr, if◌then◌else◌,
}
use mathlib.Core.List.{map-append}
use nadi.Json.{Fields, or_empty}
use nadi.Exec.{ok}
use nadi.Sql.Laws.{select-snoc}
use nadi.Store.Schema.{Env, Event, Store, RoundTrips}
use nadi.Store.Sessions.{has_session}
use nadi.Store.Events.{in_session, append_event, get_events}
use nadi.Store.Events.Sequence.{
  IsSequenced, IsReadable, events_of, event_of, decode, append_event_known, append_event_unknown,
  get_events_lem,
}

-- What an event says, without the numbers and times that the store adds.
pub record Entry : Type 0 where
  pub event_type : String
  pub payload : Fields
  pub actor_resource_id : Option String

abbrev pub entry_of : Event Fields → Entry
entry_of ev = record {
  event_type = ev.event_type;
  payload = ev.payload;
  actor_resource_id = ev.actor_resource_id;
}

-- The log that a specification speaks of: the entries of each session.
abbrev pub Log : Type 0
Log = String → List Entry

abbrev pub add_entry : String → Entry → Log → Log
add_entry sid entry log k = if sid == k then log k ++ entry ∷ [] else log k

abbrev pub log_of : {Text : Type 0} → Env Text → Store Text → Log
log_of env s k = map entry_of (map (decode env) (events_of k s.events))

module _ {Text : Type 0} (env : Env Text) (round : RoundTrips env) where
  -- `append_event` adds an entry to the log of its session, if the store has that session, and leaves
  -- the logs of all other sessions, and otherwise the whole log, as they were.
  pub log_of-append_event :
      (sid ty : String) (payload : Option Fields) (actor : Option String) (s : Store Text)
      (k : String)
      → log_of env (append_event env sid ty payload actor s).1 k ≡ (
          if has_session sid s
          then add_entry sid
              (record { event_type = ty; payload = or_empty payload; actor_resource_id = actor })
              (log_of env s)
              k
          else log_of env s k)
  log_of-append_event sid ty payload actor s k = elim (Bool-cases (has_session sid s)) [
    | inr unknown ↦ rw (append_event_unknown env sid ty payload actor s unknown, unknown) refl
    | inl known ↦
        rw (append_event_known env sid ty payload actor s known, known)
          (elim (Bool-cases (sid == k)) [
            | inr other ↦
                rw
                  (select-snoc (in_session k) s.events (event_of env sid ty payload actor s), other)
                  refl
            | inl here ↦
                rw
                  (
                    select-snoc (in_session k) s.events (event_of env sid ty payload actor s),
                    here,
                    map-append (decode env) (events_of k s.events)
                        (event_of env sid ty payload actor s ∷ []),
                    map-append entry_of (map (decode env) (events_of k s.events))
                        (decode env (event_of env sid ty payload actor s) ∷ []),
                    round (or_empty payload),
                  )
                  refl
          ])
  ]

map-drop : {A B : Type 0} (f : A → B) (k : ℕ) (xs : List A) → map f (drop k xs) ≡ drop k (map f xs)
map-drop f zero xs = refl
map-drop f (suc k) [] = refl
map-drop f (suc k) (x ∷ xs) = map-drop f k xs

sequences :
    {Text : Type 0} (env : Env Text) (rows : List (Event Text))
    → map (λ ev. ev.sequence) (map (decode env) rows) ≡ map (λ r. r.sequence) rows
sequences env [] = refl
sequences env (row ∷ rows) = ap (λ ks. row.sequence ∷ ks) (sequences env rows)

module _ {Text : Type 0} (env : Env Text) where
  -- `get_events` returns the entries of the session's log from the position `after` on, and numbers
  -- them by their positions, which count from 1. The events are numbered and can be read.
  pub get_events-log_of :
      (sid : String) (after : ℕ) (s : Store Text)
      → IsSequenced s.events
      → All (IsReadable env) s.events
      → (evs : List (Event Fields)) × (get_events env sid after s ≡ (ok evs, s))
        × (map entry_of evs ≡ drop after (log_of env s sid))
        × (map (λ ev. ev.sequence) evs ≡ range (1 + after) (length (log_of env s sid) - after))
  get_events-log_of sid after s numbered readable =
      let mine = events_of sid s.events in
      (
        map (decode env) (drop after mine),
        get_events_lem env sid after s numbered readable,
        ap (map entry_of) (map-drop (decode env) after mine)
            ∙ map-drop entry_of after (map (decode env) mine),
        sequences env (drop after mine)
            ∙ rw (length-map entry_of (map (decode env) mine), length-map (decode env) mine)
                (map-drop-range (λ r. r.sequence) after mine 1 (length mine) (numbered sid)),
      )
