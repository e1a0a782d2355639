-- ===== src/Store/Idle.antt =====
-- What the calls of a `Celld` to the store leave alone: a session without waiting commands, and the
-- routes.
use nadi.Common.{ℕ, ◌≡◌, sym, String, true, some, List, arith, string_eq, nat_eq, ◌==◌}
use mathlib.Core.Path.{subst}
use nadi.Sql.Updates.{count_where-update_le}
use nadi.Store.Schema.{Env, Store, CellHost, SessionLease, Command, completed}
use nadi.Store.Invariant.{IsKept}
use nadi.Store.Frames.{append_event-frame}
use nadi.Store.Sessions.{update_session_status}
use nadi.Store.Audit.{audit}
use nadi.Store.Commands.{is_waiting, claim_row, claim_pending_commands, complete_command}
use nadi.Store.Commands.Limits.{waiting}

not_waiting_claimed :
    {Text : Type 0} (sid by token : String) (t : ℕ) (row : Command Text)
    → is_waiting sid (claim_row by token t row) ≡ true
    → is_waiting sid row ≡ true
not_waiting_claimed sid by token t row e = ground arith

module _ {Text : Type 0} (env : Env Text) where
  -- No command of the session waits.
  abbrev pub IsIdle : String → Store Text → Type 0
  IsIdle sid s = waiting sid s ≡ 0

  -- Nothing but `enqueue_command` makes a command wait.
  pub IsIdle-IsKept : (sid : String) → IsKept env (IsIdle sid)
  unfolding claim_pending_commands update_session_status audit complete_command
  IsIdle-IsKept sid = record {
    tick = λ s n h. h;
    draw = λ s n le h. h;
    purge = λ s rows h. h;
    audits = λ actor action sid payload s h. h;
    updates = λ sid status s h. h;
    appends = λ k ty payload actor s h.
        subst (IsIdle sid) (sym (append_event-frame env s k ty payload actor)) h;
    claims = λ k by s h. omega (
      arith,
      h,
      count_where-update_le (is_waiting sid) (is_waiting k)
          (claim_row by (env.uuid s.uuid_reads) (env.time s.clock_reads)) s.command_inbox
          (λ row e.
            not_waiting_claimed sid by (env.uuid s.uuid_reads) (env.time s.clock_reads) row e),
    );
    completes = λ id s h. omega (
      arith,
      h,
      count_where-update_le (is_waiting sid) (λ r. r.id == id)
          (λ r. record r { status = completed; completed_at = some (env.time s.clock_reads) })
          s.command_inbox (λ row e. ground arith),
    );
  }

  -- What a `Celld` leaves alone: the leases, the hosts and the number of commands.
  abbrev pub Routing : List SessionLease → List (CellHost Text) → ℕ → Store Text → Type 0
  Routing leases hosts k s =
      (s.session_leases ≡ leases) × (s.cell_hosts ≡ hosts) × (s.last_command_id ≡ k)

  pub Routing-IsKept :
      (leases : List SessionLease) (hosts : List (CellHost Text)) (k : ℕ)
      → IsKept env (Routing leases hosts k)
  unfolding claim_pending_commands update_session_status audit complete_command
  Routing-IsKept leases hosts k = record {
    tick = λ s n h. h;
    draw = λ s n le h. h;
    purge = λ s rows h. h;
    audits = λ actor action sid payload s h. h;
    updates = λ sid status s h. h;
    appends = λ sid ty payload actor s h.
        subst (Routing leases hosts k) (sym (append_event-frame env s sid ty payload actor)) h;
    claims = λ sid by s h. h;
    completes = λ id s h. h;
  }
