-- ===== src/Celld/Completing.antt =====
-- The commands that `consume_commands` takes are done when it returns.
use nadi.Common.{
  Bool, not, ◌&&◌, ℕ, ◌≡◌, refl, sym, ap, ◌∙◌, String, true, false, some, List, [], ◌∷◌, map, All,
  arith, ◌==◌, nat_eq, string_eq, Bool-cases, inl, inr,
}
use mathlib.Core.Path.{subst}
use nadi.Json.{Fields}
use nadi.Exec.{Result, err, ok}
use nadi.Exec.Keeps.{Keeps}
use nadi.Exec.Returns.{bind_ok}
use nadi.Sql.{select, exists_where}
use nadi.Sql.Updates.{exists_where-update, All-update, All-update_fits, All-updated}
use nadi.Store.Schema.{Env, Command, Store, CommandStatus, completed, RoundTrips}
use nadi.Store.Invariant.{IsKept}
use nadi.Store.WellFormed.{IsWellFormed, store-IsWellFormed}
use nadi.Store.Frames.{append_event-frame}
use nadi.Store.Sessions.{update_session_status}
use nadi.Store.Commands.{is_waiting, claim_row, claim_pending_commands, complete_command}
use nadi.Store.Commands.Claims.{claim_pending_commands_lem, decode}
use nadi.Store.Audit.{audit}
use nadi.World.{World, Config, on_store}
use nadi.Sandboxd.{execute_tool}
use nadi.Runtime.{handle}
use nadi.Celld.{
  append_cell_event, cell_or_reconstruct, emit, run_command, run_commands, consume_commands,
}
use nadi.Store.Events.{Appended}
use nadi.Celld.Invariant.{run_commands-Keeps, cell_or_reconstruct-Keeps}

abbrev pub value_or : {A : Type 0} → A → Result A → A
value_or x (ok a) = a
value_or x (err e) = x

All-unmap :
    {A B : Type 0} (P : B → Type 0) (f : A → B) (xs : List A)
    → All P (map f xs)
    → All (λ x. P (f x)) xs
All-unmap P f [] h = tt
All-unmap P f (x ∷ xs) h = (h.0, All-unmap P f xs h.1)

abbrev is_completed : CommandStatus → Bool
is_completed completed = true
is_completed _ = false

module _ {Text : Type 0} where
  -- The row is the command with the id, and is not completed.
  abbrev pub is_open : ℕ → Command Text → Bool
  is_open id row = row.id == id && not (is_completed row.status)

  -- No command with the id is open.
  abbrev pub IsDone : ℕ → Store Text → Type 0
  IsDone id s = All (λ r. is_open id r ≡ false) s.command_inbox

-- The inbox has a command of the session with the type and the id.
module _ {Text : Type 0} (sid ty : String) (id : ℕ) where
  abbrev pub is_command : Command Text → Bool
  is_command row = row.session_id == sid && (row.command_type == ty && row.id == id)

  abbrev pub IsStored : Store Text → Type 0
  IsStored s = exists_where is_command s.command_inbox ≡ true

  -- It has such a command that is completed, and none with the id is open.
  abbrev pub IsCompleted : Store Text → Type 0
  IsCompleted s =
      (exists_where (λ r. is_command r && is_completed r.status) s.command_inbox ≡ true)
      × IsDone id s

  completed_row :
      (rows : List (Command Text))
      → exists_where is_command rows ≡ true
      → All (λ r. is_open id r ≡ false) rows
      → exists_where (λ r. is_command r && is_completed r.status) rows ≡ true
  unfolding exists_where
  completed_row [] there done = there
  completed_row (r ∷ rows) there done = elim (Bool-cases (is_command r)) [
    | inl here ↦ ground (arith, here, done.0)
    | inr other ↦ ground (arith, other, completed_row rows (ground (arith, other, there)) done.1)
  ]

  pub IsStored-IsCompleted : (s : Store Text) → IsStored s → IsDone id s → IsCompleted s
  IsStored-IsCompleted s there done = (completed_row s.command_inbox there done, done)

  pub kept-IsStored : (env : Env Text) → IsKept env IsStored
  unfolding claim_pending_commands update_session_status audit complete_command
  kept-IsStored env = record {
    tick = λ s n h. h;
    draw = λ s n le h. h;
    purge = λ s rows h. h;
    audits = λ actor action sid payload s h. h;
    updates = λ sid status s h. h;
    appends = λ k t payload actor s h.
        subst IsStored (sym (append_event-frame env s k t payload actor)) h;
    claims = λ k by s h.
        exists_where-update is_command (is_waiting k)
          (claim_row by (env.uuid s.uuid_reads) (env.time s.clock_reads)) s.command_inbox
          (λ r. refl)
        ∙ h;
    completes =
        λ k s h. exists_where-update is_command (λ r. r.id == k) _ s.command_inbox (λ r. refl) ∙ h;
  }

module _ {Text : Type 0} (env : Env Text) (id : ℕ) where
  complete_command-IsDone : (k : ℕ) → Keeps (IsDone id) (complete_command env k)
  unfolding complete_command
  complete_command-IsDone k s h =
      All-update (λ r. r.id == k) (λ r. r.id == k)
        (λ r. record r { status = completed; completed_at = some (env.time s.clock_reads) })
        (λ r. is_open id r ≡ false) s.command_inbox (λ r _. ground arith) h

  complete_command-IsDone' : (s : Store Text) → IsDone id (complete_command env id s).1
  unfolding complete_command
  complete_command-IsDone' s =
      All-updated (λ r. r.id == id) (λ r. r.id == id)
        (λ r. record r { status = completed; completed_at = some (env.time s.clock_reads) })
        (λ r. is_open id r ≡ false) s.command_inbox (λ r _. ground arith)
        (λ r other. ground (arith, other))

  kept-IsDone : IsKept env (IsDone id)
  unfolding claim_pending_commands update_session_status audit
  kept-IsDone = record {
    tick = λ s n h. h;
    draw = λ s n le h. h;
    purge = λ s rows h. h;
    audits = λ actor action sid payload s h. h;
    updates = λ sid status s h. h;
    appends = λ sid ty payload actor s h.
        subst (IsDone id) (sym (append_event-frame env s sid ty payload actor)) h;
    claims = λ sid by s h.
        All-update_fits (is_waiting sid) (is_waiting sid)
          (claim_row by (env.uuid s.uuid_reads) (env.time s.clock_reads))
          (λ r. is_open id r ≡ false) s.command_inbox (λ r waits done. ground (arith, waits, done))
          h;
    completes = complete_command-IsDone;
  }

module _ {Text : Type 0} (c : Config Text) (host sid : String) (token : List ℕ) where
  run_command-IsDone :
      (cmd : Command Fields) (w w' : World Text) (evs : List Appended)
      → run_command c host sid token cmd w ≡ (ok evs, w')
      → IsDone cmd.id w'.store
  unfolding run_command
  run_command-IsDone cmd w w' evs h =
      let (_, _, h1) = bind_ok (append_cell_event c host sid "command.received" _) _ w w' evs h in
      let (out, _, h2) =
        bind_ok (handle c.env.repr (execute_tool c) sid token cmd.command_type cmd.payload) _ _ w'
          evs h1 in
      let (_, _, h3) = bind_ok (emit c host sid out) _ _ w' evs h2 in
      let (_, _, h4) = bind_ok (on_store (complete_command c.env cmd.id)) _ _ w' evs h3 in
      subst (λ w. IsDone cmd.id w.store) (ap (λ p. p.1) h4)
        (complete_command-IsDone' c.env cmd.id _)

  run_commands-IsDone :
      (cmds : List (Command Fields)) (w w' : World Text) (evs : List Appended)
      → run_commands c host sid token cmds w ≡ (ok evs, w')
      → All (λ cmd. IsDone cmd.id w'.store) cmds
  unfolding run_commands
  run_commands-IsDone [] w w' evs h = tt
  run_commands-IsDone (cmd ∷ cmds) w w' evs h =
      let m = run_command c host sid token cmd in
      let (first, e1, h1) = bind_ok m _ w w' evs h in
      let (rest, e2, h2) = bind_ok (run_commands c host sid token cmds) _ (m w).1 w' evs h1 in
      let k = run_commands c host sid token cmds (m w).1 in
      let same = ap (λ p. p.1) h2 in
      let first_done = run_command-IsDone cmd w (m w).1 first (ap (λ r. (r, (m w).1)) e1) in
      let still_done =
        run_commands-Keeps c (IsDone cmd.id) (kept-IsDone c.env cmd.id) host sid token cmds (m w).1
          (record { holds = first_done }) in
      (
        subst (λ w. IsDone cmd.id w.store) same still_done.holds,
        run_commands-IsDone cmds (m w).1 w' rest
            (ap (λ r. (r, k.1)) e2 ∙ ap (λ v. (ok rest, v)) same),
      )

module _ {Text : Type 0} (c : Config Text) (host sid : String) where
  module _ (distinct : (i j : ℕ) → c.env.uuid i ≡ c.env.uuid j → i ≡ j)
      (round : RoundTrips c.env) where
    -- When `consume_commands` returns, every command of the session that waited before is completed.
    -- The store is well formed, `uuid4` never gives the same text twice, and `json.loads` gives back
    -- what `json.dumps` wrote.
    pub consume_commands-IsDone :
        (w w' : World Text) (evs : List Appended)
        → IsWellFormed c.env w.store
        → consume_commands c host sid w ≡ (ok evs, w')
        → All (λ r. IsDone r.id w'.store) (select (is_waiting sid) w.store.command_inbox)
    unfolding consume_commands
    consume_commands-IsDone w w' evs fit h =
        let kept = (store-IsWellFormed c.env distinct round "").kept in
        let (cell, _, h1) = bind_ok (cell_or_reconstruct c host sid) _ w w' evs h in
        let w1 = (cell_or_reconstruct c host sid w).1 in
        let fit1 =
          cell_or_reconstruct-Keeps c (IsWellFormed c.env) kept.tick kept.draw host sid w
            (record { holds = fit }) in
        let same =
          cell_or_reconstruct-Keeps c (λ s. s.command_inbox ≡ w.store.command_inbox) (λ s n e. e)
            (λ s n le e. e) host sid w (record { holds = refl }) in
        let claim = claim_pending_commands c.env sid host in
        let (cmds, e2, h2) = bind_ok (on_store claim) _ w1 w' evs h1 in
        let claimed =
          ap (λ p. p.0)
            (claim_pending_commands_lem c.env distinct sid host w1.store fit1.holds.inbox) in
        let done = run_commands-IsDone c host sid cell.jwt cmds _ w' evs h2 in
        let waiting = select (is_waiting sid) w1.store.command_inbox in
        let mark =
          claim_row {Text = Text} host (c.env.uuid w1.store.uuid_reads)
            (c.env.time w1.store.clock_reads) in
        let rows = ap (value_or []) (sym e2 ∙ claimed) in
        subst (λ rows. All (λ r. IsDone r.id w'.store) (select (is_waiting sid) rows)) same.holds
          (All-unmap (λ r. IsDone r.id w'.store) mark waiting
            (All-unmap (λ cmd. IsDone cmd.id w'.store) (decode c.env) (map mark waiting)
              (subst (All (λ cmd. IsDone cmd.id w'.store)) rows done)))
