-- ===== src/Store/Spent.antt =====
-- A command that does not wait any more never waits again.
use nadi.Common.{
  ℕ, suc, ◌≤◌, ◌≡◌, refl, sym, String, Bool, false, ◌&&◌, Option, none, some, List, [], ◌∷◌, All,
  All-append, arith, ◌==◌, nat_eq, string_eq, Bool-cases, inl, inr,
}
use mathlib.Core.Path.{subst}
use nadi.Json.{Fields}
use nadi.Exec.Keeps.{Keeps}
use nadi.Sql.{select}
use nadi.Sql.Updates.{All-update}
use nadi.Store.Schema.{Env, Command, Store, completed}
use nadi.Store.Invariant.{IsInvariant}
use nadi.Store.Sessions.{update_session_status}
use nadi.Store.Commands.{
  is_pending, is_waiting, claim_row, enqueue_command, claim_pending_commands, complete_command,
}
use nadi.Store.Commands.Limits.{command_of, with_command, enqueue_command_lem}
use nadi.Store.Audit.{audit}
use nadi.Store.Frames.{
  create_session-frame, append_event-frame, create_lease-frame, get_or_create_channel-frame,
}

module _ {Text : Type 0} where
  -- The row is the command with the id, and waits.
  abbrev pub waits : ℕ → Command Text → Bool
  waits id row = row.id == id && is_pending row.status

module _ {Text : Type 0} (env : Env Text) (id : ℕ) where
  -- The id was given out, and the command with it does not wait.
  pub record IsSpent (s : Store Text) : Type 0 where
    pub given : id ≤ s.last_command_id
    pub spent : All (λ r. waits id r ≡ false) s.command_inbox

  moved :
      (s t : Store Text)
      → t.command_inbox ≡ s.command_inbox
      → t.last_command_id ≡ s.last_command_id
      → IsSpent s
      → IsSpent t
  moved s t rows last h = record {
    given = omega (arith, last, h.given);
    spent = subst (All (λ r. waits id r ≡ false)) (sym rows) h.spent;
  }

  with_command-IsSpent :
      (sid ty : String) (payload : Option Fields) (actor : Option String) (s : Store Text)
      → IsSpent s
      → IsSpent (with_command env sid ty payload actor s)
  with_command-IsSpent sid ty payload actor s h = record {
    given = omega (arith, h.given);
    spent =
        All-append (λ r. waits id r ≡ false) s.command_inbox
          (command_of env sid ty payload actor s ∷ []) h.spent (ground (arith, h.given), tt);
  }

  enqueue_command-IsSpent :
      (sid ty : String) (payload : Option Fields) (actor : Option String)
      → Keeps IsSpent (enqueue_command env sid ty payload actor)
  enqueue_command-IsSpent sid ty payload actor s h =
      rw (enqueue_command_lem env sid ty payload actor s) (
        ground (
          arith,
          h,
          with_command-IsSpent sid ty payload actor s h,
          moved s (record s { clock_reads = suc (suc s.clock_reads) }) refl refl h,
        ))

  claim_pending_commands-IsSpent :
      (sid by : String) → Keeps IsSpent (claim_pending_commands env sid by)
  unfolding claim_pending_commands
  claim_pending_commands-IsSpent sid by s h = record {
    given = h.given;
    spent =
        All-update (is_waiting sid) (is_waiting sid)
          (claim_row by (env.uuid s.uuid_reads) (env.time s.clock_reads)) (λ r. waits id r ≡ false)
          s.command_inbox (λ r k. ground arith) h.spent;
  }

  complete_command-IsSpent : (k : ℕ) → Keeps IsSpent (complete_command env k)
  unfolding complete_command
  complete_command-IsSpent k s h = record {
    given = h.given;
    spent =
        All-update (λ r. r.id == k) (λ r. r.id == k)
          (λ r. record r { status = completed; completed_at = some (env.time s.clock_reads) })
          (λ r. waits id r ≡ false) s.command_inbox (λ r k. ground arith) h.spent;
  }

  pub store-IsSpent : (tenant : String) → IsInvariant env tenant IsSpent
  unfolding audit update_session_status
  store-IsSpent tenant = record {
    kept = record {
      tick = λ s n. moved s _ refl refl;
      draw = λ s n le. moved s _ refl refl;
      purge = λ s rows. moved s _ refl refl;
      audits = λ actor action sid payload s. moved s _ refl refl;
      updates = λ sid status s. moved s _ refl refl;
      appends = λ sid ty payload actor s h.
          subst IsSpent (sym (append_event-frame env s sid ty payload actor))
            (moved s _ refl refl h);
      claims = claim_pending_commands-IsSpent;
      completes = complete_command-IsSpent;
    };
    creates = λ metadata s h.
        subst IsSpent (sym (create_session-frame env s tenant none none metadata))
          (moved s _ refl refl h);
    enqueues = enqueue_command-IsSpent;
    leases = λ sid hid ttl s h.
        subst IsSpent (sym (create_lease-frame env s sid hid ttl)) (moved s _ refl refl h);
    joins = λ p ch t sid rid metadata s h.
        subst IsSpent (sym (get_or_create_channel-frame env s p ch t sid rid metadata))
          (moved s _ refl refl h);
  }

  -- The rows that wait have other ids.
  pub select-spent :
      (sid : String) (rows : List (Command Text))
      → All (λ r. waits id r ≡ false) rows
      → All (λ r. (r.id == id) ≡ false) (select (is_waiting sid) rows)
  unfolding select
  select-spent sid [] h = tt
  select-spent sid (row ∷ rows) h = elim (Bool-cases (is_waiting sid row)) [
    | inl e ↦ rw e (ground (arith, e, h.0), select-spent sid rows h.1)
    | inr e ↦ rw e (select-spent sid rows h.1)
  ]
