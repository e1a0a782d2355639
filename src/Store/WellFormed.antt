-- ===== src/Store/WellFormed.antt =====
-- The well-formedness of the event log and of the command inbox together, under all methods.
use nadi.Common.{
  ℕ, ◌≤◌, ◌≡◌, refl, sym, ap, String, Option, none, some, [], ◌∷◌, All, All-append, All-map,
  CountsUp, arith, Bool-cases, inl, inr,
}
use mathlib.Core.Path.{subst}
use nadi.Json.{Fields, or_empty}
use nadi.Exec.Keeps.{Keeps}
use nadi.Sql.{select}
use nadi.Store.Schema.{Env, Store, RoundTrips, empty_store}
use nadi.Store.Invariant.{IsInvariant}
use nadi.Store.Sessions.{has_session, update_session_status}
use nadi.Store.Events.{append_event}
use nadi.Store.Events.Sequence.{
  IsSequenced, append_event-IsSequenced, append_event_known, append_event_unknown, event_of,
}
use nadi.Store.Events.Sequence.{IsReadable as IsReadableEvent}
use nadi.Store.Commands.{enqueue_command, claim_pending_commands, complete_command}
use nadi.Store.Commands.Claims.{IsInbox, IsIssued, claim_pending_commands-IsInbox}
use nadi.Store.Commands.Limits.{
  IsBounded, enqueue_command-IsInbox, enqueue_command-IsBounded, claim_pending_commands-IsBounded,
  complete_command-IsBounded, complete_command-IsInbox,
}
use nadi.Store.Audit.{audit}
use nadi.Store.Frames.{
  create_session-frame, append_event-frame, enqueue_command-frame, create_lease-frame,
  get_or_create_channel-frame,
}

module _ {Text : Type 0} (env : Env Text) where
  -- The events of a session count up from 1 and can be read back, the inbox is well formed, and no
  -- session has more than 100 commands that wait.
  pub record IsWellFormed (s : Store Text) : Type 0 where
    pub numbered : IsSequenced s.events
    pub readable : All (IsReadableEvent env) s.events
    pub inbox : IsInbox env s
    pub bounded : IsBounded s

  IsIssued-later : (m n : ℕ) (o : Option String) → m ≤ n → IsIssued env m o → IsIssued env n o
  IsIssued-later m n none le h = tt
  IsIssued-later m n (some t) le (k, lt, e) = (k, omega arith, e)

  -- The other tables do not matter, and more ids may have been drawn.
  IsInbox-moved :
      (s t : Store Text)
      → t.command_inbox ≡ s.command_inbox
      → t.last_command_id ≡ s.last_command_id
      → s.uuid_reads ≤ t.uuid_reads
      → IsInbox env s
      → IsInbox env t
  IsInbox-moved s t rows last le h = record {
    numbered = subst (CountsUp (λ r. r.id)) (sym rows) h.numbered;
    last = rw (rows, last) h.last;
    issued = subst (All (λ r. IsIssued env t.uuid_reads r.claim_token)) (sym rows) (
        All-map (λ r. IsIssued env s.uuid_reads r.claim_token)
          (λ r. IsIssued env t.uuid_reads r.claim_token) s.command_inbox
          (λ r. IsIssued-later s.uuid_reads t.uuid_reads r.claim_token le) h.issued);
    readable = subst (All _) (sym rows) h.readable;
  }

  pub IsWellFormed-moved :
      (s t : Store Text)
      → t.events ≡ s.events
      → t.command_inbox ≡ s.command_inbox
      → t.last_command_id ≡ s.last_command_id
      → s.uuid_reads ≤ t.uuid_reads
      → IsWellFormed s
      → IsWellFormed t
  IsWellFormed-moved s t events rows last le h = record {
    numbered = subst IsSequenced (sym events) h.numbered;
    readable = subst (All (IsReadableEvent env)) (sym events) h.readable;
    inbox = IsInbox-moved s t rows last le h.inbox;
    bounded = λ sid. rw rows (h.bounded sid);
  }

  pub empty_store-IsWellFormed : IsWellFormed empty_store
  unfolding select
  empty_store-IsWellFormed = record {
    numbered = λ sid. refl;
    readable = tt;
    inbox = record { numbered = refl; last = refl; issued = tt; readable = tt };
    bounded = λ sid. omega arith;
  }

  append_event-readable :
      RoundTrips env
      → (sid ty : String) (payload : Option Fields) (actor : Option String) (s : Store Text)
      → All (IsReadableEvent env) s.events
      → All (IsReadableEvent env) (append_event env sid ty payload actor s).1.events
  append_event-readable round sid ty payload actor s h = elim (Bool-cases (has_session sid s)) [
    | inl known ↦ rw (append_event_known env sid ty payload actor s known) (
        All-append (IsReadableEvent env) s.events (event_of env sid ty payload actor s ∷ []) h
          ((or_empty payload, round (or_empty payload)), tt))
    | inr unknown ↦ rw (append_event_unknown env sid ty payload actor s unknown) h
  ]

  append_event-IsWellFormed :
      RoundTrips env
      → (sid ty : String) (payload : Option Fields) (actor : Option String)
      → Keeps IsWellFormed (append_event env sid ty payload actor)
  append_event-IsWellFormed round sid ty payload actor s h =
      let t = (append_event env sid ty payload actor s).1 in
      let same = append_event-frame env s sid ty payload actor in
      let rows = ap (λ u. u.command_inbox) same in
      record {
        numbered = append_event-IsSequenced env sid ty payload actor s h.numbered;
        readable = append_event-readable round sid ty payload actor s h.readable;
        inbox =
            IsInbox-moved s t rows (ap (λ u. u.last_command_id) same)
              (omega (arith, ap (λ u. u.uuid_reads) same)) h.inbox;
        bounded = λ k. rw rows (h.bounded k);
      }

  enqueue_command-IsWellFormed :
      RoundTrips env
      → (sid ty : String) (payload : Option Fields) (actor : Option String)
      → Keeps IsWellFormed (enqueue_command env sid ty payload actor)
  enqueue_command-IsWellFormed round sid ty payload actor s h =
      let events = ap (λ u. u.events) (enqueue_command-frame env s sid ty payload actor) in
      record {
        numbered = subst IsSequenced (sym events) h.numbered;
        readable = subst (All (IsReadableEvent env)) (sym events) h.readable;
        inbox = enqueue_command-IsInbox env sid ty payload actor s round h.inbox;
        bounded = enqueue_command-IsBounded env sid ty payload actor s h.bounded;
      }

  module _ (distinct : (i j : ℕ) → env.uuid i ≡ env.uuid j → i ≡ j) (round : RoundTrips env) where
    claim_pending_commands-IsWellFormed :
        (sid by : String) → Keeps IsWellFormed (claim_pending_commands env sid by)
    unfolding claim_pending_commands
    claim_pending_commands-IsWellFormed sid by s h = record {
      numbered = h.numbered;
      readable = h.readable;
      inbox = claim_pending_commands-IsInbox env distinct sid by s h.inbox;
      bounded = claim_pending_commands-IsBounded env s sid by h.bounded;
    }

    complete_command-IsWellFormed : (id : ℕ) → Keeps IsWellFormed (complete_command env id)
    unfolding complete_command
    complete_command-IsWellFormed id s h = record {
      numbered = h.numbered;
      readable = h.readable;
      inbox = complete_command-IsInbox env s id h.inbox;
      bounded = complete_command-IsBounded env s id h.bounded;
    }

    pub store-IsWellFormed : (tenant : String) → IsInvariant env tenant IsWellFormed
    unfolding audit update_session_status
    store-IsWellFormed tenant = record {
      kept = record {
        tick = λ s n. IsWellFormed-moved s _ refl refl refl (omega arith);
        draw = λ s n le. IsWellFormed-moved s _ refl refl refl le;
        purge = λ s rows. IsWellFormed-moved s _ refl refl refl (omega arith);
        audits = λ actor action sid payload s. IsWellFormed-moved s _ refl refl refl (omega arith);
        updates = λ sid status s. IsWellFormed-moved s _ refl refl refl (omega arith);
        appends = append_event-IsWellFormed round;
        claims = claim_pending_commands-IsWellFormed;
        completes = complete_command-IsWellFormed;
      };
      creates = λ metadata s q.
          subst IsWellFormed (sym (create_session-frame env s tenant none none metadata))
            (IsWellFormed-moved s _ refl refl refl (omega arith) q);
      enqueues = enqueue_command-IsWellFormed round;
      leases = λ sid hid ttl s q.
          subst IsWellFormed (sym (create_lease-frame env s sid hid ttl))
            (IsWellFormed-moved s _ refl refl refl (omega arith) q);
      joins = λ p ch t sid rid metadata s q.
          subst IsWellFormed (sym (get_or_create_channel-frame env s p ch t sid rid metadata))
            (IsWellFormed-moved s _ refl refl refl (omega arith) q);
    }
