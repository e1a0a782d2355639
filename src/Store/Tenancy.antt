-- ===== src/Store/Tenancy.antt =====
-- All sessions of the store belong to the one tenant for whom sessions are created.
use nadi.Common.{
  if_both, if◌then◌else◌, arith, arith, ◌≡◌, refl, sym, ◌||◌, String, ◌++◌, Option, none, [], ◌∷◌,
  All, All-append, string_eq,
}
use nadi.Json.{Fields}
use nadi.Exec.Keeps.{Keeps}
use nadi.Sql.{exists_where}
use nadi.Sql.Updates.{All-update}
use nadi.Store.Schema.{Env, Session, Store, json_text}
use nadi.Store.Invariant.{IsInvariant}
use nadi.Store.Sessions.{create_session, update_session_status, has_id, has_external_id}
use nadi.Store.Commands.{claim_pending_commands, complete_command}
use nadi.Store.Frames.{
  append_event-frame, enqueue_command-frame, create_lease-frame, get_or_create_channel-frame,
}
use mathlib.Core.Path.{subst}
use nadi.Store.Audit.{audit}

module _ {Text : Type 0} (env : Env Text) (tenant : String) where
  abbrev pub IsOwned : Store Text → Type 0
  IsOwned s = All (λ r. r.tenant_id ≡ tenant) s.sessions

  -- The row that a call makes.
  row_of : Option Fields → Store Text → Session Text
  row_of metadata s = record {
    id = env.uuid s.uuid_reads;
    external_id = none;
    tenant_id = tenant;
    profile_bundle = none;
    status = "pending";
    metadata = json_text env metadata;
    created_at = env.time s.clock_reads;
    updated_at = env.time s.clock_reads;
  }

  sessions-create_session :
      (metadata : Option Fields) (s : Store Text)
      → (create_session env tenant none none metadata s).1.sessions ≡ (
          if exists_where
            (λ r. has_id (env.uuid s.uuid_reads) r || has_external_id none r)
            s.sessions
          then s.sessions
          else s.sessions ++ row_of metadata s ∷ [])
  unfolding create_session row_of
  sessions-create_session metadata s = ground arith

  creates-IsOwned :
      (metadata : Option Fields) → Keeps IsOwned (create_session env tenant none none metadata)
  unfolding row_of
  creates-IsOwned metadata s q =
      subst (All (λ r. r.tenant_id ≡ tenant)) (sym (sessions-create_session metadata s)) (
        if_both (All (λ r. r.tenant_id ≡ tenant)) _ s.sessions
          (s.sessions ++ row_of metadata s ∷ []) q
          (All-append (λ r. r.tenant_id ≡ tenant) s.sessions (row_of metadata s ∷ []) q (refl, tt)))

  updates-IsOwned : (sid status : String) → Keeps IsOwned (update_session_status env sid status)
  unfolding update_session_status
  updates-IsOwned sid status s q =
      All-update (has_id sid) (has_id sid)
        (λ r. record r { status = status; updated_at = env.time s.clock_reads })
        (λ r. r.tenant_id ≡ tenant) s.sessions (λ r k. k) q

  pub store-IsOwned : IsInvariant env tenant IsOwned
  unfolding claim_pending_commands complete_command audit
  store-IsOwned = record {
    kept = record {
      tick = λ s n q. q;
      draw = λ s n le q. q;
      purge = λ s rows q. q;
      audits = λ actor action sid payload s q. q;
      updates = updates-IsOwned;
      appends = λ sid ty payload actor s q.
          subst IsOwned (sym (append_event-frame env s sid ty payload actor)) q;
      claims = λ sid by s q. q;
      completes = λ id s q. q;
    };
    creates = creates-IsOwned;
    enqueues = λ sid ty payload actor s q.
        subst IsOwned (sym (enqueue_command-frame env s sid ty payload actor)) q;
    leases = λ sid hid ttl s q. subst IsOwned (sym (create_lease-frame env s sid hid ttl)) q;
    joins = λ p ch t sid rid metadata s q.
        subst IsOwned (sym (get_or_create_channel-frame env s p ch t sid rid metadata)) q;
  }
