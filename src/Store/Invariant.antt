-- ===== src/Store/Invariant.antt =====
-- Properties of the store that all its methods keep, which the rest of the program calls.
use nadi.Common.{ℕ, ◌≤◌, String, Option, none, List}
use nadi.Common.Int.{ℤ}
use nadi.Json.{Fields}
use nadi.Exec.Keeps.{Keeps}
use nadi.Store.Schema.{Env, Store, RevokedToken}
use nadi.Store.Sessions.{create_session, update_session_status}
use nadi.Store.Events.{append_event}
use nadi.Store.Commands.{enqueue_command, claim_pending_commands, complete_command}
use nadi.Store.Leases.{create_lease}
use nadi.Store.Channels.{get_or_create_channel}
use nadi.Store.Audit.{audit}

-- What the methods that a `Celld` calls do to the store, as an interface to it.
pub record IsKept {Text : Type 0} (env : Env Text) (Q : Store Text → Type 0) : Type 0 where
  pub tick : (s : Store Text) (n : ℕ) → Q s → Q (record s { clock_reads = n })
  pub draw : (s : Store Text) (n : ℕ) → s.uuid_reads ≤ n → Q s → Q (record s { uuid_reads = n })
  pub purge :
      (s : Store Text) (rows : List RevokedToken) → Q s → Q (record s { revoked_tokens = rows })
  pub audits :
      (actor action : String) (sid : Option String) (payload : Option Fields)
      → Keeps Q (audit env actor action sid payload)
  pub updates : (sid status : String) → Keeps Q (update_session_status env sid status)
  pub appends :
      (sid ty : String) (payload : Option Fields) (actor : Option String)
      → Keeps Q (append_event env sid ty payload actor)
  pub claims : (sid by : String) → Keeps Q (claim_pending_commands env sid by)
  pub completes : (id : ℕ) → Keeps Q (complete_command env id)

-- What all methods do, as an interface to the gateway. New sessions belong to one tenant.
pub record IsInvariant {Text : Type 0} (env : Env Text) (tenant : String) (Q : Store Text → Type 0)
    : Type 0 where
  pub kept : IsKept env Q
  pub creates : (metadata : Option Fields) → Keeps Q (create_session env tenant none none metadata)
  pub enqueues :
      (sid ty : String) (payload : Option Fields) (actor : Option String)
      → Keeps Q (enqueue_command env sid ty payload actor)
  pub leases : (sid hid : String) (ttl : ℤ) → Keeps Q (create_lease env sid hid ttl)
  pub joins :
      (p ch t sid rid : String) (metadata : Option Fields)
      → Keeps Q (get_or_create_channel env p ch t sid rid metadata)
