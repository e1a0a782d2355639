-- ===== src/Store/Commands/Claims.antt =====
-- The inbox of commands: `claim_pending_commands` hands out the waiting commands of a session once.
use nadi.Common.{
  ℕ, suc, ◌<◌, ◌≡◌, refl, sym, ◌∙◌, String, Bool, true, false, ◌&&◌, Option, none, some, List, [],
  ◌∷◌, map, length, CountsUp, All, All-map, arith, ◌==◌, nat_eq, string_eq, eq_iff, beq_self,
  Bool-cases, inl, inr,
}
use nadi.Json.{Fields, end}
use nadi.Exec.{ok, each}
use nadi.Sql.{select, update_where}
use nadi.Sql.Order.{Ascends-range, Ascends-select, Ascends-map, order_by-Ascends}
use nadi.Sql.Laws.{All-select}
use nadi.Sql.Updates.{
  CountsUp-update, length-update, select-update_exactly, select-update_out, All-update,
}
use nadi.Store.Schema.{Env, Command, Store}
use nadi.Store.Commands.{
  is_waiting, is_claimed, has_claim, claim_row, command_row, claim_pending_commands,
}

has_claim-claim_row :
    {Text : Type 0} (by token : String) (t : ℕ) (row : Command Text)
    → has_claim token (claim_row by token t row) ≡ true
has_claim-claim_row by token t row = rw (beq_self token)

claimed_waits_not :
    {Text : Type 0} (sid by token : String) (t : ℕ) (row : Command Text)
    → is_waiting sid (claim_row by token t row) ≡ false
claimed_waits_not sid by token t row = ground arith

module _ {Text : Type 0} (env : Env Text) where
  -- The claim token of a row, if it has one, is an earlier result of `uuid4`.
  abbrev pub IsIssued : ℕ → Option String → Type 0
  IsIssued n none = Unit {0}
  IsIssued n (some t) = (k : ℕ) × (k < n) × (t ≡ env.uuid k)

  abbrev pub IsReadable : Command Text → Type 0
  IsReadable row = (d : Fields) × (env.loads row.payload ≡ some d)

  pub record IsInbox (s : Store Text) : Type 0 where
    pub numbered : CountsUp (λ r. r.id) s.command_inbox
    pub last : s.last_command_id ≡ length s.command_inbox
    pub issued : All (λ r. IsIssued s.uuid_reads r.claim_token) s.command_inbox
    pub readable : All IsReadable s.command_inbox

  abbrev pub decode : Command Text → Command Fields
  decode row = record {
    id = row.id;
    session_id = row.session_id;
    command_type = row.command_type;
    payload = elim (env.loads row.payload) [ none ↦ end | some d ↦ d ];
    status = row.status;
    available_at = row.available_at;
    claimed_by = row.claimed_by;
    claim_token = row.claim_token;
    claimed_at = row.claimed_at;
    completed_at = row.completed_at;
    created_at = row.created_at;
    actor_resource_id = row.actor_resource_id;
  }

  command_row-decode : (row : Command Text) → IsReadable row → command_row env row ≡ ok (decode row)
  unfolding command_row
  command_row-decode row (d, e) = ground (arith, e)

  each-decode :
      (rows : List (Command Text))
      → All IsReadable rows
      → each (command_row env) rows ≡ ok (map decode rows)
  unfolding each
  each-decode [] h = refl
  each-decode (row ∷ rows) h = rw (command_row-decode row h.0, each-decode rows h.1)

  All-claimed :
      (by token : String) (t : ℕ) (rows : List (Command Text))
      → All IsReadable rows
      → All IsReadable (map (claim_row by token t) rows)
  All-claimed by token t [] h = tt
  All-claimed by token t (row ∷ rows) h = (h.0, All-claimed by token t rows h.1)

  -- `uuid4` never gives the same text twice.
  module _ (distinct : (i j : ℕ) → env.uuid i ≡ env.uuid j → i ≡ j) where
    fresh_issued :
        (n : ℕ) (o : Option String) (b : Bool)
        → IsIssued n o
        → (elim o [ none ↦ false | some t ↦ t == env.uuid n ] && b) ≡ false
    fresh_issued n none b h = refl
    fresh_issued n (some t) b (k, lt, e) = elim (Bool-cases (t == env.uuid n)) [
      | inl same ↦ absurd (omega (arith, distinct k n (sym e ∙ (eq_iff t (env.uuid n)).0 same)))
      | inr other ↦ rw other
    ]

    fresh_token :
        (n : ℕ) (row : Command Text)
        → IsIssued n row.claim_token
        → has_claim (env.uuid n) row ≡ false
    fresh_token n row h = fresh_issued n row.claim_token (is_claimed row.status) h

    IsIssued-suc : (n : ℕ) (o : Option String) → IsIssued n o → IsIssued (suc n) o
    IsIssued-suc n none h = tt
    IsIssued-suc n (some t) (k, lt, e) = (k, omega arith, e)

    -- A claim returns the waiting commands of the session, in the order of their ids and marked as
    -- claimed, and the store has them marked likewise; the inbox is well formed and `uuid4` never gives
    -- the same text twice.
    pub claim_pending_commands_lem :
        (sid by : String) (s : Store Text)
        → IsInbox s
        → claim_pending_commands env sid by s ≡ (
          ok (
              map decode (
                map
                  (claim_row by (env.uuid s.uuid_reads) (env.time s.clock_reads))
                  (select (is_waiting sid) s.command_inbox))),
          record s {
            uuid_reads = suc s.uuid_reads;
            clock_reads = suc s.clock_reads;
            command_inbox =
                update_where
                  (is_waiting sid)
                  (claim_row by (env.uuid s.uuid_reads) (env.time s.clock_reads))
                  s.command_inbox;
          },
        )
    unfolding claim_pending_commands
    claim_pending_commands_lem sid by s h =
        let token = env.uuid s.uuid_reads in
        let claim = claim_row {Text = Text} by token (env.time s.clock_reads) in
        let waiting = select (is_waiting sid) s.command_inbox in
        let taken = map claim waiting in
        rw (
          select-update_exactly (is_waiting sid) (has_claim token) claim s.command_inbox
              (λ row. has_claim-claim_row by token (env.time s.clock_reads) row)
              (All-map (λ r. IsIssued s.uuid_reads r.claim_token) (λ r. has_claim token r ≡ false)
                s.command_inbox (fresh_token s.uuid_reads) h.issued),
          order_by-Ascends (λ r. r.id) 1 taken
              (Ascends-map (λ r. r.id) claim 1 waiting (λ r. refl)
                (Ascends-select (λ r. r.id) (is_waiting sid) 1 s.command_inbox
                  (Ascends-range (λ r. r.id) s.command_inbox 1 (length s.command_inbox)
                    h.numbered))),
          each-decode taken (
              All-claimed by token (env.time s.clock_reads) waiting
                (All-select (is_waiting sid) IsReadable s.command_inbox h.readable)),
        )

    pub nothing_waits :
        (sid by : String) (s : Store Text)
        → IsInbox s
        → select (is_waiting sid) (claim_pending_commands env sid by s).1.command_inbox ≡ []
    nothing_waits sid by s h = rw (claim_pending_commands_lem sid by s h) (
        select-update_out (is_waiting sid)
          (claim_row by (env.uuid s.uuid_reads) (env.time s.clock_reads)) s.command_inbox
          (λ row. claimed_waits_not sid by (env.uuid s.uuid_reads) (env.time s.clock_reads) row))

    pub claim_pending_commands-IsInbox :
        (sid by : String) (s : Store Text)
        → IsInbox s
        → IsInbox (claim_pending_commands env sid by s).1
    claim_pending_commands-IsInbox sid by s h =
        let n = s.uuid_reads in
        let p = is_waiting {Text = Text} sid in
        let claim = claim_row {Text = Text} by (env.uuid n) (env.time s.clock_reads) in
        rw (claim_pending_commands_lem sid by s h) (record {
          numbered = CountsUp-update p claim (λ r. r.id) s.command_inbox (λ r. refl) h.numbered;
          last = h.last ∙ sym (length-update p claim s.command_inbox);
          issued =
              All-update p p claim (λ r. IsIssued (suc n) r.claim_token) s.command_inbox
                (λ r _. (n, omega arith, refl))
                (All-map (λ r. IsIssued n r.claim_token) (λ r. IsIssued (suc n) r.claim_token)
                  s.command_inbox (λ r. IsIssued-suc n r.claim_token) h.issued);
          readable = All-update p p claim IsReadable s.command_inbox (λ r k. k) h.readable;
        })
