-- ===== src/Store/Commands/Limits.antt =====
-- What `enqueue_command` accepts, and the bound on the commands that wait.
use nadi.Common.{
  ℕ, suc, ◌≤◌, ◌≡◌, refl, sym, ◌∙◌, String, true, Option, none, some, [], ◌∷◌, ◌++◌, length-append,
  CountsUp-snoc, All-append, arith, leb, ◌==◌, nat_eq, string_eq, eq_iff, if◌then◌else◌,
}
use nadi.Json.{Fields, or_empty}
use nadi.Exec.{ok, err, integrity, too_many_pending, event_limit}
use nadi.Sql.{count_where}
use nadi.Sql.Laws.{count_where-snoc}
use nadi.Sql.Updates.{All-update, CountsUp-update, length-update, count_where-update_le}
use nadi.Store.Schema.{Env, Command, pending, completed, Store, RoundTrips, json_text}
use nadi.Store.Sessions.{has_session}
use nadi.Store.Events.{in_session}
use nadi.Store.Commands.{
  is_waiting, claim_row, enqueue_command, claim_pending_commands, complete_command,
  max_pending_commands, max_events_per_session,
}
use nadi.Store.Commands.Claims.{IsInbox, IsIssued, IsReadable}

module _ {Text : Type 0} where
  abbrev pub waiting : String → Store Text → ℕ
  waiting sid s = count_where (is_waiting sid) s.command_inbox

  abbrev pub event_count : String → Store Text → ℕ
  event_count sid s = count_where (in_session sid) s.events

  -- No session has more than `_MAX_PENDING_COMMANDS` commands that wait.
  abbrev pub IsBounded : Store Text → Type 0
  IsBounded s = (sid : String) → waiting sid s ≤ max_pending_commands

  -- The row that `enqueue_command` adds, and the store with it.
  abbrev pub command_of :
      (env : Env Text) → String → String → Option Fields → Option String → Store Text → Command Text
  command_of env sid ty payload actor s = record {
    id = suc s.last_command_id;
    session_id = sid;
    command_type = ty;
    payload = json_text env payload;
    status = pending;
    available_at = env.time s.clock_reads;
    claimed_by = none;
    claim_token = none;
    claimed_at = none;
    completed_at = none;
    created_at = env.time (suc s.clock_reads);
    actor_resource_id = actor;
  }

  abbrev pub with_command :
      (env : Env Text) → String → String → Option Fields → Option String → Store Text → Store Text
  with_command env sid ty payload actor s = record s {
    clock_reads = suc (suc s.clock_reads);
    command_inbox = s.command_inbox ++ command_of env sid ty payload actor s ∷ [];
    last_command_id = suc s.last_command_id;
  }

module _ {Text : Type 0} (env : Env Text) (sid ty : String) (payload : Option Fields)
    (actor : Option String) (s : Store Text) where
  -- A command is accepted exactly while fewer than 100 wait and the session has fewer than 10 000
  -- events: the outcome of `enqueue_command` for each case, in the order of its tests.
  pub enqueue_command_lem : enqueue_command env sid ty payload actor s ≡ (
      if leb max_pending_commands (waiting sid s)
      then (err too_many_pending, s)
      else if leb max_events_per_session (event_count sid s)
      then (err event_limit, s)
      else if has_session sid s
      then (ok (suc s.last_command_id), with_command env sid ty payload actor s)
      else (err integrity, record s { clock_reads = suc (suc s.clock_reads) }))
  unfolding enqueue_command
  enqueue_command_lem = ground arith

  -- Whatever the call returns, no session has more than 100 commands that wait, if none had before.
  pub enqueue_command-IsBounded :
      IsBounded s → IsBounded (enqueue_command env sid ty payload actor s).1
  enqueue_command-IsBounded h k = rw enqueue_command_lem (
      ground (
        arith,
        h k,
        count_where-snoc (is_waiting k) s.command_inbox (command_of env sid ty payload actor s),
        eq_iff sid k,
      ))

  with_command-IsInbox :
      RoundTrips env → IsInbox env s → IsInbox env (with_command env sid ty payload actor s)
  with_command-IsInbox round h =
      let row = command_of env sid ty payload actor s in
      record {
        numbered = CountsUp-snoc (λ r. r.id) s.command_inbox row h.numbered (omega (arith, h.last));
        last = omega (arith, h.last, length-append s.command_inbox (row ∷ []));
        issued =
            All-append (λ r. IsIssued env s.uuid_reads r.claim_token) s.command_inbox (row ∷ [])
              h.issued (tt, tt);
        readable =
            All-append (IsReadable env) s.command_inbox (row ∷ []) h.readable
              ((or_empty payload, round (or_empty payload)), tt);
      }

  clock-IsInbox : (n : ℕ) → IsInbox env s → IsInbox env (record s { clock_reads = n })
  clock-IsInbox n h = record {
    numbered = h.numbered;
    last = h.last;
    issued = h.issued;
    readable = h.readable;
  }

  -- Whatever the call returns, the inbox stays well formed: the ids count up from 1 to the last id,
  -- every claim token was issued by `uuid4`, and every payload can be read back, provided that
  -- `json.loads` gives back what `json.dumps` wrote.
  pub enqueue_command-IsInbox :
      RoundTrips env → IsInbox env s → IsInbox env (enqueue_command env sid ty payload actor s).1
  enqueue_command-IsInbox round h =
      rw enqueue_command_lem
        (ground (arith, h, with_command-IsInbox round h, clock-IsInbox (suc (suc s.clock_reads)) h))

not_waiting :
    {Text : Type 0} (k by token : String) (t : ℕ) (row : Command Text)
    → is_waiting k (claim_row by token t row) ≡ true
    → is_waiting k row ≡ true
not_waiting k by token t row e = ground arith

module _ {Text : Type 0} (env : Env Text) (s : Store Text) where
  -- A claim and a completion leave no more commands waiting than before.
  pub claim_pending_commands-IsBounded :
      (sid by : String) → IsBounded s → IsBounded (claim_pending_commands env sid by s).1
  unfolding claim_pending_commands
  claim_pending_commands-IsBounded sid by h k = omega (
    arith,
    h k,
    count_where-update_le (is_waiting k) (is_waiting sid)
        (claim_row by (env.uuid s.uuid_reads) (env.time s.clock_reads)) s.command_inbox
        (λ row e. not_waiting k by (env.uuid s.uuid_reads) (env.time s.clock_reads) row e),
  )

  pub complete_command-IsBounded : (id : ℕ) → IsBounded s → IsBounded (complete_command env id s).1
  unfolding complete_command
  complete_command-IsBounded id h k = omega (
    arith,
    h k,
    count_where-update_le (is_waiting k) (λ r. r.id == id)
        (λ r. record r { status = completed; completed_at = some (env.time s.clock_reads) })
        s.command_inbox (λ row e. ground arith),
  )

  pub complete_command-IsInbox :
      (id : ℕ) → IsInbox env s → IsInbox env (complete_command env id s).1
  unfolding complete_command
  complete_command-IsInbox id h =
      let done = λ (r : Command Text). record r {
        status = completed;
        completed_at = some (env.time s.clock_reads);
      } in
      let it = λ (r : Command Text). r.id == id in
      record {
        numbered = CountsUp-update it done (λ r. r.id) s.command_inbox (λ r. refl) h.numbered;
        last = h.last ∙ sym (length-update it done s.command_inbox);
        issued =
            All-update it it done (λ r. IsIssued env s.uuid_reads r.claim_token) s.command_inbox
              (λ r k. k) h.issued;
        readable = All-update it it done (IsReadable env) s.command_inbox (λ r k. k) h.readable;
      }
