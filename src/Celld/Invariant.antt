-- ===== src/Celld/Invariant.antt =====
-- A property that the methods of the store keep is kept by a `Celld` too.
use nadi.Common.{
  ℕ, ◌≤◌, String, Option, none, some, List, [], ◌∷◌, arith, string_eq, sym, Option-cases, inl, inr,
}
use mathlib.Core.Path.{subst}
use nadi.Json.{Fields, or_empty}
use nadi.Exec.{Action}
use nadi.Exec.Keeps.{Keeps, bind-Keeps}
use nadi.Store.Schema.{Store, Command}
use nadi.Store.Invariant.{IsKept}
use nadi.Store.Sessions.{update_session_status}
use nadi.Store.Events.{append_event, get_events}
use nadi.Store.Commands.{claim_pending_commands, complete_command}
use nadi.Security.Jwt.{sign}
use nadi.Store.Audit.{audit}
use nadi.Celld.Replay.{update_cell-store}
use nadi.World.{World, Config, on_store}
use nadi.Sandboxd.{execute_tool}
use nadi.Runtime.{handle}
use nadi.Runtime.Quiet.{handle-Keeps}
use nadi.Celld.{
  append_cell_event, sign_cell, create_cell, reconstruct_cell, cell_or_reconstruct, emit,
  run_command, run_commands, consume_commands, cell_of,
}
use nadi.Gateway.{}

module _ {Text : Type 0} (Q : Store Text → Type 0) where
  pub record Holds (w : World Text) : Type 0 where
    pub holds : Q w.store

  pub on_store-Keeps :
      {A : Type 0} (m : Action (Store Text) A) → Keeps Q m → Keeps Holds (on_store m)
  on_store-Keeps m k w h = record { holds = k w.store h.holds }

module _ {Text : Type 0} (c : Config Text) (Q : Store Text → Type 0)
    (tick : (s : Store Text) (n : ℕ) → Q s → Q (record s { clock_reads = n }))
    (draw : (s : Store Text) (n : ℕ)
      → s.uuid_reads ≤ n
      → Q s
      → Q (record s { uuid_reads = n })) where
  sign-Keeps : (host sid : String) → Keeps (Holds Q) (sign_cell c host sid)
  unfolding sign
  sign-Keeps host sid w h = record { holds = draw _ _ (omega arith) (tick w.store _ h.holds) }

  reconstruct_cell-Keeps : (host sid : String) → Keeps (Holds Q) (reconstruct_cell c host sid)
  unfolding reconstruct_cell get_events
  reconstruct_cell-Keeps host sid =
      bind-Keeps (Holds Q) (sign_cell c host sid) _ (sign-Keeps host sid) (λ cell.
        bind-Keeps (Holds Q) (on_store (get_events c.env sid 0)) _
          (λ w h. record { holds = h.holds }) (λ evs w h. record { holds = h.holds }))

  pub cell_or_reconstruct-Keeps :
      (host sid : String) → Keeps (Holds Q) (cell_or_reconstruct c host sid)
  unfolding cell_or_reconstruct
  cell_or_reconstruct-Keeps host sid w h = elim (Option-cases (cell_of c host sid w)) [
    | inl gone ↦ rw (gone, cell_or_reconstruct) (reconstruct_cell-Keeps host sid w h)
    | inr (cell, held) ↦ rw (held, cell_or_reconstruct) h
  ]

module _ {Text : Type 0} (c : Config Text) (Q : Store Text → Type 0) (inv : IsKept c.env Q) where
  append-Keeps :
      (host sid ty : String) (payload : Option Fields)
      → Keeps (Holds Q) (append_cell_event c host sid ty payload)
  unfolding append_cell_event
  append-Keeps host sid ty payload =
      bind-Keeps (Holds Q) (on_store (append_event c.env sid ty (some (or_empty payload)) none)) _
        (on_store-Keeps Q (append_event c.env sid ty (some (or_empty payload)) none)
          (inv.appends sid ty (some (or_empty payload)) none))
        (λ ev w h. record {
          holds = subst Q (sym (update_cell-store c host sid ty (or_empty payload) w)) h.holds;
        })

  pub create_cell-Keeps : (host sid : String) → Keeps (Holds Q) (create_cell c host sid)
  unfolding create_cell
  create_cell-Keeps host sid =
      bind-Keeps (Holds Q) (sign_cell c host sid) _ (sign-Keeps c Q inv.tick inv.draw host sid)
        (λ cell w h.
          bind-Keeps (Holds Q) (on_store (update_session_status c.env sid "running")) _
            (on_store-Keeps Q (update_session_status c.env sid "running")
              (inv.updates sid "running"))
            (λ _.
              bind-Keeps (Holds Q) (append_cell_event c host sid "session.started" _) _
                (append-Keeps host sid "session.started" _) (λ _ w h. h))
            _ (record { holds = h.holds }))

  command-Keeps :
      (sid : String) (token : List ℕ) (ty : String) (payload : Fields)
      → Keeps (Holds Q) (handle c.env.repr (execute_tool c) sid token ty payload)
  command-Keeps =
      handle-Keeps c (Holds Q) (λ w n h. record { holds = inv.tick w.store n h.holds })
        (λ w rows h. record { holds = inv.purge w.store rows h.holds })
        (λ actor action sid payload.
          on_store-Keeps Q (audit c.env actor action sid payload)
            (inv.audits actor action sid payload))
        (λ w n h. record { holds = h.holds })

  emit-Keeps :
      (host sid : String) (out : List (String × Fields)) → Keeps (Holds Q) (emit c host sid out)
  unfolding emit
  emit-Keeps host sid [] = λ w h. h
  emit-Keeps host sid ((ty, payload) ∷ rest) =
      bind-Keeps (Holds Q) (append_cell_event c host sid ty (some payload)) _
        (append-Keeps host sid ty (some payload))
        (λ ev.
          bind-Keeps (Holds Q) (emit c host sid rest) _ (emit-Keeps host sid rest) (λ evs w h. h))

  run_command-Keeps :
      (host sid : String) (token : List ℕ) (cmd : Command Fields)
      → Keeps (Holds Q) (run_command c host sid token cmd)
  unfolding run_command
  run_command-Keeps host sid token cmd =
      bind-Keeps (Holds Q) (append_cell_event c host sid "command.received" _) _
        (append-Keeps host sid "command.received" _)
        (λ _.
          bind-Keeps (Holds Q)
            (handle c.env.repr (execute_tool c) sid token cmd.command_type cmd.payload) _
            (command-Keeps sid token cmd.command_type cmd.payload)
            (λ out. bind-Keeps (Holds Q) (emit c host sid out) _ (emit-Keeps host sid out) (λ evs.
              bind-Keeps (Holds Q) (on_store (complete_command c.env cmd.id)) _
                (on_store-Keeps Q (complete_command c.env cmd.id) (inv.completes cmd.id))
                (λ _ w h. h))))

  pub run_commands-Keeps :
      (host sid : String) (token : List ℕ) (cmds : List (Command Fields))
      → Keeps (Holds Q) (run_commands c host sid token cmds)
  unfolding run_commands
  run_commands-Keeps host sid token [] = λ w h. h
  run_commands-Keeps host sid token (cmd ∷ cmds) =
      bind-Keeps (Holds Q) (run_command c host sid token cmd) _
        (run_command-Keeps host sid token cmd)
        (λ first.
          bind-Keeps (Holds Q) (run_commands c host sid token cmds) _
            (run_commands-Keeps host sid token cmds) (λ rest w h. h))

  pub consume_commands-Keeps : (host sid : String) → Keeps (Holds Q) (consume_commands c host sid)
  unfolding consume_commands
  consume_commands-Keeps host sid =
      bind-Keeps (Holds Q) (cell_or_reconstruct c host sid) _
        (cell_or_reconstruct-Keeps c Q inv.tick inv.draw host sid)
        (λ cell.
          bind-Keeps (Holds Q) (on_store (claim_pending_commands c.env sid host)) _
            (on_store-Keeps Q (claim_pending_commands c.env sid host) (inv.claims sid host))
            (λ cmds. run_commands-Keeps host sid cell.jwt cmds))
