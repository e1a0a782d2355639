-- ===== src/Celld/Replying.antt =====
-- A command that a `Celld` runs: the event `command.received`, and the one event that answers it.
use nadi.Common.{
  ℕ, suc, ◌≡◌, sym, ap, ◌∙◌, String, Option, true, none, some, List, [], ◌∷◌, ◌++◌, arith, leb,
  string_eq, if◌then◌else◌, beq_self,
}
use mathlib.Core.Path.{subst}
use nadi.Json.{Fields, str, single, num, obj, field}
use nadi.Common.Int.{pos}
use nadi.Exec.{ok}
use nadi.Exec.Returns.{bind_returned, bind_exact}
use nadi.Sql.{select, max_of}
use nadi.Sql.Laws.{select-snoc}
use nadi.Store.Schema.{Command, Event, Store}
use nadi.Store.Sessions.{has_session}
use nadi.Store.Events.{Appended, append_event, next_sequence, in_session}
use nadi.Store.Events.Sequence.{append_event_known, event_of}
use nadi.Store.Commands.{complete_command}
use nadi.World.{World, Config, on_store}
use nadi.Runtime.{handle}
use nadi.Sandboxd.{execute_tool}
use nadi.Celld.{append_cell_event, emit, run_command}
use nadi.Celld.Replay.{update_cell-store}

max_of-snoc :
    {A : Type 0} (key : A → ℕ) (xs : List A) (x : A)
    → max_of key (xs ++ x ∷ []) ≡ (if leb (max_of key xs) (key x) then key x else max_of key xs)
unfolding max_of
max_of-snoc key [] x = ground arith
max_of-snoc key (y ∷ ys) x = ground (arith, max_of-snoc key ys x)

-- What `command.received` says of a command.
abbrev pub received : Command Fields → Fields
received cmd =
    field "command_id" (num (pos cmd.id))
      (field "command_type" (str cmd.command_type) (single "payload" (obj cmd.payload)))

module _ {Text : Type 0} (c : Config Text) (host sid : String) where
  -- The store has the session, and the session's next event gets the number.
  abbrev pub IsNext : ℕ → Store Text → Type 0
  IsNext n s = (has_session sid s ≡ true) × (next_sequence sid s ≡ n)

  abbrev pub event_at : ℕ → String × Fields → Appended
  event_at n (ty, d) = record {
    session_id = sid;
    sequence = n;
    event_type = ty;
    payload = d;
    actor_resource_id = none;
  }

  append_cell_event_known :
      (ty : String) (d : Fields) (w : World Text)
      → has_session sid w.store ≡ true
      → (append_cell_event c host sid ty (some d) w).0
          ≡ ok (event_at (next_sequence sid w.store) (ty, d))
        × ((append_cell_event c host sid ty (some d) w).1.store
            ≡ (append_event c.env sid ty (some d) none w.store).1)
  unfolding append_cell_event
  append_cell_event_known ty d w known = (
    rw (append_event_known c.env sid ty (some d) none w.store known, append_cell_event),
    rw (append_event_known c.env sid ty (some d) none w.store known, append_cell_event)
        (update_cell-store c host sid ty d _),
  )

  append_event-IsNext :
      (ty : String) (d : Fields) (n : ℕ) (s : Store Text)
      → IsNext n s
      → IsNext (suc n) (append_event c.env sid ty (some d) none s).1
  unfolding next_sequence
  append_event-IsNext ty d n s (known, next) =
      let e = event_of c.env sid ty (some d) none s in
      rw (append_event_known c.env sid ty (some d) none s known) (
        known,
        rw (select-snoc (in_session sid) s.events e, beq_self sid)
            (ground (
              arith,
              max_of-snoc (λ (r : Event Text). r.sequence) (select (in_session sid) s.events) e,
              next,
            )),
      )

  pub append_cell_event-IsNext :
      (ty : String) (d : Fields) (n : ℕ) (w : World Text)
      → IsNext n w.store
      → ((append_cell_event c host sid ty (some d) w).0 ≡ ok (event_at n (ty, d)))
        × IsNext (suc n) (append_cell_event c host sid ty (some d) w).1.store
  append_cell_event-IsNext ty d n w h =
      let (answer, store) = append_cell_event_known ty d w h.0 in
      (
        answer ∙ ap (λ k. ok (event_at k (ty, d))) h.1,
        subst (IsNext (suc n)) (sym store) (append_event-IsNext ty d n w.store h),
      )

  pub append_cell_event_objects :
      (ty : String) (payload : Option Fields) (w : World Text)
      → (append_cell_event c host sid ty payload w).1.cell_objects ≡ w.cell_objects
  unfolding append_cell_event append_event
  append_cell_event_objects ty payload w = ground arith

  pub append_cell_event_clock :
      (ty : String) (payload : Option Fields) (w : World Text)
      → (append_cell_event c host sid ty payload w).1.store.clock_reads ≡ suc w.store.clock_reads
  unfolding append_cell_event append_event
  append_cell_event_clock ty payload w = ground arith

  pub emit_one :
      (ty : String) (d : Fields) (n : ℕ) (w : World Text)
      → IsNext n w.store
      → emit c host sid ((ty, d) ∷ []) w
        ≡ (ok (event_at n (ty, d) ∷ []), (append_cell_event c host sid ty (some d) w).1)
  unfolding emit
  emit_one ty d n w h =
      bind_returned (append_cell_event c host sid ty (some d)) _ w _
        (append_cell_event-IsNext ty d n w h).0

  -- The world in which a command is run.
  abbrev pub after_received : Command Fields → World Text → World Text
  after_received cmd w = (append_cell_event c host sid "command.received" (some (received cmd)) w).1

  -- A command that the runtime answers with one event.
  pub run_command_event :
      (token : List ℕ) (cmd : Command Fields) (n : ℕ) (ty : String) (out : Fields)
      (w w1 : World Text)
      → IsNext n w.store
      → handle c.env.repr
          (execute_tool c)
          sid
          token
          cmd.command_type
          cmd.payload
          (after_received cmd w)
        ≡ (ok ((ty, out) ∷ []), w1)
      → IsNext (suc n) w1.store
      → run_command c host sid token cmd w ≡ (
        ok (event_at (suc n) (ty, out) ∷ []),
        (on_store
            (complete_command c.env cmd.id)
            (append_cell_event c host sid ty (some out) w1).1).1,
      )
  unfolding run_command complete_command
  run_command_event token cmd n ty out w w1 h answered next =
      let seen = append_cell_event-IsNext "command.received" (received cmd) n w h in
      let w2 = (append_cell_event c host sid ty (some out) w1).1 in
      bind_returned (append_cell_event c host sid "command.received" (some (received cmd))) _ w _
        seen.0
      ∙ (bind_exact (handle c.env.repr (execute_tool c) sid token cmd.command_type cmd.payload) _
            (after_received cmd w) w1 _ answered
          ∙ bind_exact (emit c host sid ((ty, out) ∷ [])) _ w1 w2 _
              (emit_one ty out (suc n) w1 next))
