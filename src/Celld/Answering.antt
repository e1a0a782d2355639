-- ===== src/Celld/Answering.antt =====
-- What `consume_commands` returns for a single command that calls no tool.
use nadi.Common.{
  ℕ, suc, ◌+◌, ◌≤◌, ◌/◌, ◌≡◌, ◌≢◌, refl, sym, ap, ◌∙◌, String, ◌<>◌, some, List, [], ◌∷◌, All, map,
  arith, ◌==◌, string_eq, eq_iff, Bool-cases, Option-cases, inl, inr, if◌then◌else◌,
}
use mathlib.Core.Path.{subst}
use mathlib.Core.List.{append-nil}
use nadi.Json.{Value, Fields, str, single, text_of, get_or}
use nadi.Common.Int.{pos, second, min_ℤ, ◌+ℤ◌}
use nadi.Exec.{Result, ok}
use nadi.Exec.Returns.{bind_returned}
use nadi.Sql.{select}
use nadi.Store.WellFormed.{IsWellFormed, store-IsWellFormed}
use nadi.Store.Schema.{RoundTrips, Command}
use nadi.Store.Events.{Appended, get_events, next_sequence}
use nadi.Store.Events.Sequence.{decode as decode_event}
use nadi.Store.Events.Sequence.{IsSequenced, IsReadable, events_of, get_events_lem}
use nadi.Store.Commands.{is_waiting, claim_row, claim_pending_commands, complete_command}
use nadi.Store.Commands.Claims.{decode, claim_pending_commands_lem}
use nadi.Security.Jwt.{sign, claims, max_ttl_seconds}
use nadi.Security.Jwt.Signed.{signed}
use nadi.World.{World, Config, Cell, empty_state, on_store}
use nadi.Runtime.{ToolExecutor, handle}
use nadi.Sandboxd.{execute_tool}
use nadi.Celld.{
  cell_of, replay, sign_cell, cell_or_reconstruct, reconstruct_cell, run_command, run_commands,
  consume_commands,
}
use nadi.Celld.Replying.{
  IsNext, event_at, received, after_received, run_command_event, append_cell_event-IsNext,
  append_cell_event_objects, append_cell_event_clock,
}
use nadi.Celld.Invariant.{cell_or_reconstruct-Keeps}

-- The event with which the runtime answers a command that is not `tool`.
abbrev pub reply : (Value → String) → String → Fields → String × Fields
reply repr ty d =
    if ty == "echo"
    then ("assistant.message", single "text" (str (text_of repr (get_or d "text" (str "")))))
    else if ty == "model"
    then (
      "model.response",
      single "text" (str ("deterministic-model:" <> text_of repr (get_or d "prompt" (str "")))),
    )
    else ("command.error", single "error" (str ("unknown command: " <> ty)))

handle_quiet :
    {S : Type 0} (repr : Value → String) (ex : ToolExecutor S) (sid : String) (token : List ℕ)
    (ty : String) (d : Fields) (s : S)
    → ty ≢ "tool"
    → handle repr ex sid token ty d s ≡ (ok (reply repr ty d ∷ []), s)
unfolding handle
handle_quiet repr ex sid token ty d s ne = elim (Bool-cases (ty == "tool")) [
  | inl e ↦ absurd (ne ((eq_iff ty "tool").0 e))
  | inr e ↦ ground (arith, e)
]

module _ {Text : Type 0} (c : Config Text) (host sid : String) where
  -- What a call returns, the number of the event after it, the registry that it leaves alone, and how
  -- often it reads the clock at most.
  abbrev pub Answers :
      ℕ → ℕ → List Appended → World Text → Result (List Appended) × World Text → Type 0
  Answers m n evs w (r, w') =
      (r ≡ ok evs)
      × IsNext c host sid n w'.store
      × (w'.cell_objects ≡ w.cell_objects)
      × (w'.store.clock_reads ≤ w.store.clock_reads + m)

  -- One command that calls no tool: its answer, with the number after that of `command.received`.
  run_command-reply :
      (token : List ℕ) (cmd : Command Fields) (n : ℕ) (w : World Text)
      → IsNext c host sid n w.store
      → cmd.command_type ≢ "tool"
      → Answers 3
          (suc (suc n))
          (event_at c host sid (suc n) (reply c.env.repr cmd.command_type cmd.payload) ∷ [])
          w
          (run_command c host sid token cmd w)
  unfolding complete_command next_sequence
  run_command-reply token cmd n w h ne =
      let first = append_cell_event-IsNext c host sid "command.received" (received cmd) n w h in
      let w1 = after_received c host sid cmd w in
      let (ty, out) = reply c.env.repr cmd.command_type cmd.payload in
      let answered = append_cell_event-IsNext c host sid ty out (suc n) w1 first.1 in
      let steps =
        run_command_event c host sid token cmd n ty out w w1 h
          (handle_quiet c.env.repr (execute_tool c) sid token cmd.command_type cmd.payload w1 ne)
          first.1 in
      subst (Answers 3 (suc (suc n)) (event_at c host sid (suc n) (ty, out) ∷ []) w) (sym steps) (
        refl,
        answered.1,
        append_cell_event_objects c host sid ty (some out) w1
            ∙ append_cell_event_objects c host sid "command.received" _ w,
        omega (
          arith,
          append_cell_event_clock c host sid ty (some out) w1,
          append_cell_event_clock c host sid "command.received" _ w,
        ),
      )

  run_commands_one :
      (token : List ℕ) (cmd : Command Fields) (m n : ℕ) (evs : List Appended) (w : World Text)
      → Answers m n evs w (run_command c host sid token cmd w)
      → Answers m n evs w (run_commands c host sid token (cmd ∷ []) w)
  unfolding run_commands
  run_commands_one token cmd m n evs w h =
      subst (Answers m n evs w) (sym (bind_returned (run_command c host sid token cmd) _ w evs h.0))
        (ap ok (append-nil evs), h.1, h.2, h.3)

  cell_or_reconstruct_objects :
      (w : World Text) → (cell_or_reconstruct c host sid w).1.cell_objects ≡ w.cell_objects
  unfolding cell_or_reconstruct reconstruct_cell sign get_events
  cell_or_reconstruct_objects w = ground arith

  cell_or_reconstruct_clock :
      (w : World Text)
      → (cell_or_reconstruct c host sid w).1.store.clock_reads ≤ w.store.clock_reads + 1
  unfolding cell_or_reconstruct reconstruct_cell sign get_events
  cell_or_reconstruct_clock w = ground arith

  -- A cell is made anew from a log that can be read.
  reconstruct_cell_ok :
      (w : World Text)
      → IsSequenced w.store.events
      → All (IsReadable c.env) w.store.events
      → (cell : Cell) × ((reconstruct_cell c host sid w).0 ≡ ok cell)
  unfolding reconstruct_cell sign
  reconstruct_cell_ok w numbered readable =
      let w1 = (sign_cell c host sid w).1 in
      let exp = pos (c.env.time w.store.clock_reads / second) +ℤ min_ℤ (pos 3600) max_ttl_seconds in
      let cell : Cell = record {
        session_id = sid;
        jwt =
            signed c.env c.crypto c.secret
              (claims host sid "cell tool" exp (c.env.uuid w.store.uuid_reads));
        state = empty_state;
      } in
      let evs = map (decode_event c.env) (events_of sid w.store.events) in
      let restored : Cell = record cell { state = replay empty_state evs } in
      let read : (get_events c.env sid 0 w1.store) ≡ (ok evs, w1.store) =
        get_events_lem c.env sid 0 w1.store numbered readable in
      (restored, rw read)

  pub cell_or_reconstruct_ok :
      (w : World Text)
      → IsSequenced w.store.events
      → All (IsReadable c.env) w.store.events
      → (cell : Cell) × ((cell_or_reconstruct c host sid w).0 ≡ ok cell)
  unfolding cell_or_reconstruct
  cell_or_reconstruct_ok w numbered readable = elim (Option-cases (cell_of c host sid w)) [
    | inr (cell, held) ↦ (cell, rw (held, cell_or_reconstruct))
    | inl gone ↦
        let (cell, e) = reconstruct_cell_ok w numbered readable in
        (cell, rw (gone, cell_or_reconstruct) e)
  ]

  module _ (distinct : (i j : ℕ) → c.env.uuid i ≡ c.env.uuid j → i ≡ j)
      (round : RoundTrips c.env) where
    -- The one command that waits, where it calls no tool, is answered.
    pub consume_commands-reply :
        (row : Command Text) (d : Fields) (n : ℕ) (w : World Text)
        → IsWellFormed c.env w.store
        → IsNext c host sid n w.store
        → select (is_waiting sid) w.store.command_inbox ≡ row ∷ []
        → c.env.loads row.payload ≡ some d
        → row.command_type ≢ "tool"
        → Answers 5
            (suc (suc n))
            (event_at c host sid (suc n) (reply c.env.repr row.command_type d) ∷ [])
            w
            (consume_commands c host sid w)
    unfolding consume_commands next_sequence
    consume_commands-reply row d n w fit next one loads ne =
        let kept = (store-IsWellFormed c.env distinct round "").kept in
        let (cell, found) = cell_or_reconstruct_ok w fit.numbered fit.readable in
        let w1 = (cell_or_reconstruct c host sid w).1 in
        let fit1 =
          cell_or_reconstruct-Keeps c (IsWellFormed c.env) kept.tick kept.draw host sid w
            (record { holds = fit }) in
        let same =
          cell_or_reconstruct-Keeps c (λ s. s.command_inbox ≡ w.store.command_inbox) (λ s n e. e)
            (λ s n le e. e) host sid w (record { holds = refl }) in
        let next1 =
          cell_or_reconstruct-Keeps c (IsNext c host sid n) (λ s n h. h) (λ s n le h. h) host sid w
            (record { holds = next }) in
        let token = c.env.uuid w1.store.uuid_reads in
        let mark = claim_row {Text = Text} host token (c.env.time w1.store.clock_reads) in
        let cmd = decode c.env (mark row) in
        let w2 = (on_store (claim_pending_commands c.env sid host) w1).1 in
        let claimed =
          claim_pending_commands_lem c.env distinct sid host w1.store fit1.holds.inbox in
        let taken =
          ap (λ p. p.0) claimed
          ∙ ap (λ rows. ok (map (decode c.env) (map mark (select (is_waiting sid) rows))))
              same.holds
          ∙ ap (λ rows. ok (map (decode c.env) (map mark rows))) one in
        let next2 : IsNext c host sid n w2.store = rw claimed next1.holds in
        let answer = run_command-reply cell.jwt cmd n w2 next2 ne in
        let steps =
          bind_returned (cell_or_reconstruct c host sid) _ w cell found
          ∙ bind_returned (on_store (claim_pending_commands c.env sid host)) _ w1 (cmd ∷ [])
              taken in
        let (evs, later, objects, reads) = run_commands_one cell.jwt cmd 3 _ _ w2 answer in
        let one_read : w2.store.clock_reads ≡ suc w1.store.clock_reads =
          ap (λ p. p.1.clock_reads) claimed in
        subst (Answers 5 (suc (suc n)) _ w) (sym steps) (
          evs
              ∙ ap
                  (λ p. ok (event_at c host sid (suc n) (reply c.env.repr row.command_type p) ∷ []))
                  (rw loads),
          later,
          objects ∙ cell_or_reconstruct_objects w,
          omega (arith, reads, one_read, cell_or_reconstruct_clock w),
        )
