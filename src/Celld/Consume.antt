-- ===== src/Celld/Consume.antt =====
-- `create_cell`, `reconstruct_cell` and `consume_commands` keep the live cells and the log together.
use nadi.Common.{
  ℕ, suc, ◌/◌, ◌≡◌, refl, sym, ap, String, some, List, [], ◌∷◌, map, Option-cases, inl, inr,
  string_eq,
}
use nadi.Json.{Fields}
use nadi.Exec.Keeps.{Keeps, bind-Keeps}
use nadi.Store.Schema.{Command, RoundTrips}
use nadi.Store.Audit.{audit}
use nadi.Store.Commands.{claim_pending_commands, complete_command}
use nadi.Store.Events.Sequence.{events_of, decode, get_events_lem}
use nadi.Store.Sessions.{update_session_status}
use nadi.Security.Jwt.{sign, claims}
use nadi.Common.Int.{pos, ◌+ℤ◌, second}
use nadi.Security.Jwt.Signed.{signed}
use nadi.World.{World, Config, Cell, empty_state, on_store}
use nadi.Sandboxd.{execute_tool}
use nadi.Runtime.Quiet.{handle-Keeps}
use nadi.Runtime.{handle}
use nadi.Celld.{
  append_cell_event, create_cell, reconstruct_cell, cell_or_reconstruct, emit, run_command,
  run_commands, consume_commands, cell_of, set_cell, replay,
}
use nadi.Celld.Replay.{IsLive, append_cell_event-IsLive, set_cell-IsLive, IsLive-cong}

module _ {Text : Type 0} (c : Config Text) where
  handle-IsLive :
      (host_id sid : String) (token : List ℕ) (ty : String) (payload : Fields)
      → Keeps (IsLive c host_id) (handle c.env.repr (execute_tool c) sid token ty payload)
  unfolding audit
  handle-IsLive host_id =
      handle-Keeps c (IsLive c host_id) (λ w n. IsLive-cong c host_id w _ refl refl)
        (λ w rows. IsLive-cong c host_id w _ refl refl)
        (λ _ _ _ _ w. IsLive-cong c host_id w _ refl refl)
        (λ w n. IsLive-cong c host_id w _ refl refl)

  module _ (host_id : String) (round : RoundTrips c.env) where
    emit-IsLive :
        (sid : String) (out : List (String × Fields))
        → Keeps (IsLive c host_id) (emit c host_id sid out)
    unfolding emit
    emit-IsLive sid [] = λ w h. h
    emit-IsLive sid ((ty, payload) ∷ rest) =
        bind-Keeps (IsLive c host_id) (append_cell_event c host_id sid ty (some payload)) _
          (append_cell_event-IsLive c host_id round sid ty (some payload))
          (λ ev.
            bind-Keeps (IsLive c host_id) (emit c host_id sid rest) _ (emit-IsLive sid rest)
              (λ evs w h. h))

    run_command-IsLive :
        (sid : String) (token : List ℕ) (cmd : Command Fields)
        → Keeps (IsLive c host_id) (run_command c host_id sid token cmd)
    unfolding run_command complete_command
    run_command-IsLive sid token cmd =
        bind-Keeps (IsLive c host_id) (append_cell_event c host_id sid "command.received" _) _
          (append_cell_event-IsLive c host_id round sid "command.received" _)
          (λ _.
            bind-Keeps (IsLive c host_id)
              (handle c.env.repr (execute_tool c) sid token cmd.command_type cmd.payload) _
              (handle-IsLive host_id sid token cmd.command_type cmd.payload)
              (λ out.
                bind-Keeps (IsLive c host_id) (emit c host_id sid out) _ (emit-IsLive sid out)
                  (λ evs w h. IsLive-cong c host_id w _ refl refl h)))

    run_commands-IsLive :
        (sid : String) (token : List ℕ) (cmds : List (Command Fields))
        → Keeps (IsLive c host_id) (run_commands c host_id sid token cmds)
    unfolding run_commands
    run_commands-IsLive sid token [] = λ w h. h
    run_commands-IsLive sid token (cmd ∷ cmds) =
        bind-Keeps (IsLive c host_id) (run_command c host_id sid token cmd) _
          (run_command-IsLive sid token cmd)
          (λ first.
            bind-Keeps (IsLive c host_id) (run_commands c host_id sid token cmds) _
              (run_commands-IsLive sid token cmds) (λ rest w h. h))

    -- A cell made anew from the log is in the state of the log.
    pub reconstruct_cell-IsLive :
        (sid : String) (w : World Text)
        → IsLive c host_id w
        → IsLive c host_id (reconstruct_cell c host_id sid w).1
    unfolding reconstruct_cell sign
    reconstruct_cell-IsLive sid w h =
        let s1 = record w.store {
          clock_reads = suc w.store.clock_reads;
          uuid_reads = suc w.store.uuid_reads;
        } in
        let w1 = record w { store = s1 } in
        rw (get_events_lem c.env sid 0 s1 h.numbered h.readable, reconstruct_cell)
          (set_cell-IsLive c host_id sid _ w1 refl (IsLive-cong c host_id w w1 refl refl h))

    -- A new cell starts in the state of its log, where the session has no events before.
    pub create_cell-IsLive :
        (sid : String) (w : World Text)
        → events_of sid w.store.events ≡ []
        → IsLive c host_id w
        → IsLive c host_id (create_cell c host_id sid w).1
    unfolding create_cell sign update_session_status replay
    create_cell-IsLive sid w fresh h =
        let w1 = record w {
          store = record w.store {
            clock_reads = suc w.store.clock_reads;
            uuid_reads = suc w.store.uuid_reads;
          };
        } in
        let cell : Cell = record {
          session_id = sid;
          jwt = signed c.env c.crypto c.secret (
              claims host_id sid "cell tool"
                (pos (c.env.time w.store.clock_reads / second) +ℤ pos 3600)
                (c.env.uuid w.store.uuid_reads));
          state = empty_state;
        } in
        let started =
          set_cell-IsLive c host_id sid cell w1
            (sym (ap (λ l. replay empty_state (map (decode c.env) l)) fresh))
            (IsLive-cong c host_id w w1 refl refl h) in
        bind-Keeps (IsLive c host_id) (append_cell_event c host_id sid "session.started" _) _
          (append_cell_event-IsLive c host_id round sid "session.started" _) (λ _ w h. h) _
          (IsLive-cong c host_id (set_cell c host_id sid cell w1) _ refl refl started)

    cell_or_reconstruct-IsLive :
        (sid : String) → Keeps (IsLive c host_id) (cell_or_reconstruct c host_id sid)
    unfolding cell_or_reconstruct
    cell_or_reconstruct-IsLive sid w h = elim (Option-cases (cell_of c host_id sid w)) [
      | inl gone ↦ rw (gone, cell_or_reconstruct) (reconstruct_cell-IsLive sid w h)
      | inr (cell, held) ↦ rw (held, cell_or_reconstruct) h
    ]

    -- Where the state of every cell of a `Celld` is what the replay of its session's log gives, this is
    -- so after `consume_commands` too, whatever it returns or raises, and whatever commands it ran; and the
    -- events of every session stay numbered from 1, and can be read back. The events are so before,
    -- and `json.loads` gives back what `json.dumps` wrote. No other process writes to the log meanwhile.
    pub consume_commands-IsLive :
        (sid : String) (w : World Text)
        → IsLive c host_id w
        → IsLive c host_id (consume_commands c host_id sid w).1
    unfolding consume_commands claim_pending_commands
    consume_commands-IsLive sid =
        bind-Keeps (IsLive c host_id) (cell_or_reconstruct c host_id sid) _
          (cell_or_reconstruct-IsLive sid)
          (λ cell.
            bind-Keeps (IsLive c host_id) (on_store (claim_pending_commands c.env sid host_id)) _
              (λ w h. IsLive-cong c host_id w _ refl refl h)
              (λ cmds. run_commands-IsLive sid cell.jwt cmds))
