-- ===== src/Celld/Replay.antt =====
-- The state of a live cell is what the session's event log says.
use nadi.Common.{
  suc, ◌≡◌, refl, sym, ap, ◌∙◌, String, true, false, Option, none, some, List, [], ◌∷◌, ◌++◌, map,
  All, All-append, arith, ◌==◌, string_eq, pair_eq, eq_iff, beq_self, Bool-cases, Option-cases, inl,
  inr, if◌then◌else◌,
}
use mathlib.Core.List.{map-append}
use mathlib.Core.Path.{subst}
use nadi.Json.{Fields, or_empty}
use nadi.Exec.{Action}
use nadi.Exec.Keeps.{Keeps}
use nadi.Sql.Laws.{select-snoc}
use nadi.Store.Schema.{Event, Store, RoundTrips}
use nadi.Store.Sessions.{has_session}
use nadi.Store.Events.{in_session}
use nadi.Store.Events.Sequence.{
  IsSequenced, IsReadable, decode, events_of, event_of, IsSequenced-snoc, next_sequence-eq-length,
  append_event_known, append_event_unknown,
}
use nadi.Dict.{lookup, lookup-put}
use nadi.World.{World, Config, Cell, CellState, empty_state, on_store}
use nadi.Celld.{
  apply_event, replay, cell_of, set_cell, update_cell, apply_to_cell, append_cell_event,
}

replay-append :
    (xs : List (Event Fields)) (st : CellState) (ys : List (Event Fields))
    → replay st (xs ++ ys) ≡ replay (replay st xs) ys
unfolding replay
replay-append [] st ys = refl
replay-append (x ∷ xs) st ys = replay-append xs (apply_event st x.event_type x.payload) ys

module _ {Text : Type 0} (c : Config Text) (host_id : String) where
  -- The state that the log of a session gives.
  abbrev pub state_of_log : String → List (Event Text) → CellState
  state_of_log sid events = replay empty_state (map (decode c.env) (events_of sid events))

  -- Every cell that this `Celld` holds is in the state that the log of its session gives.
  abbrev pub IsCurrent : World Text → Type 0
  IsCurrent w =
      (sid : String) (cell : Cell)
      → cell_of c host_id sid w ≡ some cell
      → cell.state ≡ state_of_log sid w.store.events

  pub record IsLive (w : World Text) : Type 0 where
    pub numbered : IsSequenced w.store.events
    pub readable : All (IsReadable c.env) w.store.events
    pub current : IsCurrent w

  state_of_log-snoc :
      (sid : String) (events : List (Event Text)) (e : Event Text)
      → state_of_log sid (events ++ e ∷ []) ≡ (
          if in_session sid e
          then apply_event (state_of_log sid events) e.event_type (decode c.env e).payload
          else state_of_log sid events)
  unfolding replay
  state_of_log-snoc sid events e = elim (Bool-cases (in_session sid e)) [
    | inl here ↦ rw (
      select-snoc (in_session sid) events e,
      here,
      map-append (decode c.env) (events_of sid events) (e ∷ []),
      replay-append (map (decode c.env) (events_of sid events)) empty_state (decode c.env e ∷ []),
    )
    | inr there ↦ rw (select-snoc (in_session sid) events e, there)
  ]

  pub cell_of-set_cell :
      (k sid : String) (cell : Cell) (w : World Text)
      → cell_of c host_id k (set_cell c host_id sid cell w)
        ≡ (if sid == k then some cell else cell_of c host_id k w)
  cell_of-set_cell k sid cell w =
      rw (lookup-put (host_id, sid) (host_id, k) cell w.cells, beq_self host_id) refl

  -- The two outcomes of an event that this `Celld` writes.
  abbrev with_row : String → String → Fields → World Text → World Text
  with_row sid ty d w = record w {
    store = record w.store {
      clock_reads = suc w.store.clock_reads;
      events = w.store.events ++ event_of c.env sid ty (some d) none w.store ∷ [];
      last_event_id = suc w.store.last_event_id;
    };
  }

  abbrev with_event : String → String → Option Fields → World Text → World Text
  with_event sid ty payload w =
      update_cell c host_id sid ty (or_empty payload) (with_row sid ty (or_empty payload) w)

  pub append_cell_event_known :
      (sid ty : String) (payload : Option Fields) (w : World Text)
      → has_session sid w.store ≡ true
      → (append_cell_event c host_id sid ty payload w).1 ≡ with_event sid ty payload w
  unfolding append_cell_event
  append_cell_event_known sid ty payload w h =
      rw (
        append_event_known c.env sid ty (some (or_empty payload)) none w.store h,
        append_cell_event,
      )

  append_cell_event_unknown :
      (sid ty : String) (payload : Option Fields) (w : World Text)
      → has_session sid w.store ≡ false
      → (append_cell_event c host_id sid ty payload w).1
        ≡ record w { store = record w.store { clock_reads = suc w.store.clock_reads } }
  unfolding append_cell_event
  append_cell_event_unknown sid ty payload w h = rw (
    append_event_unknown c.env sid ty (some (or_empty payload)) none w.store h,
    append_cell_event,
  )

  pub cell_of-update_cell :
      (k sid ty : String) (d : Fields) (w : World Text)
      → cell_of c host_id k (update_cell c host_id sid ty d w) ≡ (
          if sid == k
          then elim (cell_of c host_id sid w) [
            | none ↦ none
            | some cell ↦ some (apply_to_cell cell ty d)
          ]
          else cell_of c host_id k w)
  cell_of-update_cell k sid ty d w = elim (Option-cases (cell_of c host_id sid w)) [
    | inl e ↦ ground (arith, e, eq_iff sid k)
    | inr (cell, e) ↦ rw (e, update_cell) (cell_of-set_cell k sid (apply_to_cell cell ty d) w)
  ]

  pub update_cell-store :
      (sid ty : String) (d : Fields) (w : World Text)
      → (update_cell c host_id sid ty d w).store ≡ w.store
  update_cell-store sid ty d w = ground arith

  module _ (round : RoundTrips c.env) where
    event_of-IsReadable :
        (sid ty : String) (d : Fields) (s : Store Text)
        → IsReadable c.env (event_of c.env sid ty (some d) none s)
    event_of-IsReadable sid ty d s = (d, round d)

    with_event-IsCurrent :
        (sid ty : String) (payload : Option Fields) (w : World Text)
        → IsCurrent w
        → IsCurrent (with_event sid ty payload w)
    with_event-IsCurrent sid ty payload w h k cell e =
        let d = or_empty payload in
        let row = event_of c.env sid ty (some d) none w.store in
        let w' = with_row sid ty d w in
        let found = sym (cell_of-update_cell k sid ty d w') ∙ e in
        let logged =
          ap (λ (s : Store Text). state_of_log k s.events) (update_cell-store sid ty d w')
          ∙ state_of_log-snoc k w.store.events row in
        elim (Bool-cases (sid == k)) [
          | inr other ↦ h k cell (rw other at found) ∙ sym (rw other at logged)
          | inl same ↦ elim (Option-cases (cell_of c host_id sid w)) [
            | inl gone ↦ absurd (ground (arith, found, same, gone))
            | inr (old, held) ↦
                let now' : apply_to_cell old ty d ≡ cell = ground (arith, found, same, held) in
                let then' : old.state ≡ state_of_log k w.store.events =
                  h k old (rw (sym ((eq_iff sid k).0 same)) held) in
                sym (rw (same, round d) at logged ∙ cc (now', then'))
          ]
        ]

    with_event-IsLive :
        (sid ty : String) (payload : Option Fields) (w : World Text)
        → IsLive w
        → IsLive (with_event sid ty payload w)
    with_event-IsLive sid ty payload w h =
        let d = or_empty payload in
        let s' = (with_row sid ty d w).store in
        let row = event_of c.env sid ty (some d) none w.store in
        let same = sym (update_cell-store sid ty d (with_row sid ty d w)) in
        record {
          numbered =
              subst (λ (s : Store Text). IsSequenced s.events) same
                (IsSequenced-snoc w.store.events row h.numbered
                  (next_sequence-eq-length w.store sid h.numbered));
          readable =
              subst (λ (s : Store Text). All (IsReadable c.env) s.events) same
                (All-append (IsReadable c.env) w.store.events (row ∷ []) h.readable
                  ((d, round d), tt));
          current = with_event-IsCurrent sid ty payload w h.current;
        }

    -- An event that the `Celld` appends reaches the log and the live cell alike, or neither of them.
    pub append_cell_event-IsLive :
        (sid ty : String) (payload : Option Fields) (w : World Text)
        → IsLive w
        → IsLive (append_cell_event c host_id sid ty payload w).1
    append_cell_event-IsLive sid ty payload w h = elim (Bool-cases (has_session sid w.store)) [
      | inl known ↦
          rw (append_cell_event_known sid ty payload w known) (with_event-IsLive sid ty payload w h)
      | inr unknown ↦
          rw (append_cell_event_unknown sid ty payload w unknown)
            (record { numbered = h.numbered; readable = h.readable; current = h.current })
    ]

  -- A cell that is put in place with the state of its log.
  pub set_cell-IsLive :
      (sid : String) (cell : Cell) (w : World Text)
      → cell.state ≡ state_of_log sid w.store.events
      → IsLive w
      → IsLive (set_cell c host_id sid cell w)
  set_cell-IsLive sid cell w e h = record {
    numbered = h.numbered;
    readable = h.readable;
    current = λ k new f. elim (Bool-cases (sid == k)) [
      | inl same ↦
          let it : cell ≡ new = ground (arith, f, same, cell_of-set_cell k sid cell w) in
          cc (it, e, (eq_iff sid k).0 same)
      | inr other ↦ h.current k new (ground (arith, f, other, cell_of-set_cell k sid cell w))
    ];
  }

  pub IsLive-cong :
      (w w' : World Text)
      → w'.store.events ≡ w.store.events
      → w'.cells ≡ w.cells
      → IsLive w
      → IsLive w'
  IsLive-cong w w' e f h = record {
    numbered = subst IsSequenced (sym e) h.numbered;
    readable = subst (All (IsReadable c.env)) (sym e) h.readable;
    current = λ k cell found.
        h.current k cell (ap (lookup (host_id, k)) (sym f) ∙ found) ∙ ap (state_of_log k) (sym e);
  }

  -- A call of the store's that leaves the events alone.
  pub on_store-IsLive :
      {A : Type 0} (m : Action (Store Text) A)
      → ((s : Store Text) → (m s).1.events ≡ s.events)
      → Keeps IsLive (on_store m)
  on_store-IsLive m e w h = IsLive-cong w (on_store m w).1 (e w.store) refl h
