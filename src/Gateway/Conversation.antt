-- ===== src/Gateway/Conversation.antt =====
-- A client's commands to one session, one after the other.
use nadi.Common.{
  ℕ, suc, ◌+◌, ◌*◌, ◌≤◌, ◌<◌, ◌≡◌, ◌≢◌, refl, sym, ap, ◌∙◌, String, Option, some, List, [], ◌∷◌,
  All, arith, length, string_eq, nat_eq,
}
use mathlib.Core.Path.{subst}
use nadi.Json.{Fields}
use nadi.Exec.{Action, ok, pure, ◌>>=◌}
use nadi.Exec.Returns.{bind_returned}
use nadi.Exec.Keeps.{continue-after}
use nadi.Sql.{select}
use nadi.Store.Schema.{Store, RoundTrips}
use nadi.Store.Events.Sequence.{next_sequence-eq-length}
use nadi.Store.Commands.{is_waiting, claim_pending_commands, max_events_per_session}
use nadi.Store.Commands.Claims.{nothing_waits}
use nadi.Store.Commands.Limits.{event_count}
use nadi.Store.Leases.{Route, route_at}
use nadi.Store.WellFormed.{IsWellFormed, store-IsWellFormed}
use nadi.Dict.{lookup}
use nadi.Store.Idle.{IsIdle, IsIdle-IsKept, Routing, Routing-IsKept}
use nadi.World.{World, Config, on_store}
use nadi.Celld.{consume_commands, cell_or_reconstruct}
use nadi.Celld.Invariant.{consume_commands-Keeps, run_commands-Keeps, cell_or_reconstruct-Keeps}
use nadi.Celld.Replying.{IsNext}
use nadi.Celld.Answering.{cell_or_reconstruct_ok}
use nadi.Gateway.{Sent, send_command}
use nadi.Gateway.Answering.{
  stored_command, sent_reply, stored_command-Answers, stored-IsWellFormed, send_command_steps,
}

module _ {Text : Type 0} (c : Config Text) where
  -- A session that can be sent a command: its next event gets the number, and its next command the
  -- number after `k`. Its lease leads to the host at each of the next readings of the clock.
  pub record IsReady (sid host : String) (r : Route) (limit n k : ℕ) (w : World Text) : Type 0 where
    pub fit : IsWellFormed c.env w.store
    pub next : IsNext c host sid n w.store
    pub idle : IsIdle c.env sid w.store
    pub last : w.store.last_command_id ≡ k
    pub routed : (t : ℕ) → t < limit → route_at sid (c.env.time t) w.store ≡ some r
    pub registered : lookup r.host_id w.cell_objects ≡ some host

  -- A client sends its commands one after the other, each with a type and a payload.
  unfoldable pub send_all :
      String → Option String → List (String × Option Fields) → Action (World Text) (List Sent)
  send_all sid actor [] = pure []
  send_all sid actor ((ty, payload) ∷ cmds) = do
    sent ← send_command c sid ty payload actor
    more ← send_all sid actor cmds
    pure (sent ∷ more)

  -- The answers that belong to the commands: ids that count up, and every second number of an event.
  unfoldable pub replies : String → String → ℕ → ℕ → List (String × Option Fields) → List Sent
  replies host sid n k [] = []
  replies host sid n k ((ty, payload) ∷ cmds) =
      sent_reply c host sid ty payload n k ∷ replies host sid (suc (suc n)) (suc k) cmds

  length_zero : {A : Type 0} (xs : List A) → length xs ≡ 0 → xs ≡ []
  length_zero [] h = refl
  length_zero (x ∷ xs) h = absurd (omega arith)

  module _ (sid host : String) (r : Route) (limit n k : ℕ) (w : World Text)
      (ready : IsReady sid host r limit n k w) where
    pub ready_inbox : select (is_waiting sid) w.store.command_inbox ≡ []
    ready_inbox = length_zero (select (is_waiting sid) w.store.command_inbox) ready.idle

    pub ready_room : n ≤ max_events_per_session → event_count sid w.store < max_events_per_session
    ready_room small =
        omega (arith, next_sequence-eq-length w.store sid ready.fit.numbered, ready.next.1, small)

  pub route_at_same :
      (sid : String) (t : ℕ) (s s' : Store Text)
      → s'.session_leases ≡ s.session_leases
      → s'.cell_hosts ≡ s.cell_hosts
      → route_at sid t s' ≡ route_at sid t s
  unfolding route_at
  route_at_same sid t s s' e f = rw (e, f)

  module _ (distinct : (i j : ℕ) → c.env.uuid i ≡ c.env.uuid j → i ≡ j)
      (round : RoundTrips c.env) where
    consume_commands-IsIdle :
        (host sid : String) (w : World Text)
        → IsWellFormed c.env w.store
        → IsIdle c.env sid (consume_commands c host sid w).1.store
    unfolding consume_commands
    consume_commands-IsIdle host sid w fit =
        let kept = (store-IsWellFormed c.env distinct round "").kept in
        let (cell, found) = cell_or_reconstruct_ok c host sid w fit.numbered fit.readable in
        let w1 = (cell_or_reconstruct c host sid w).1 in
        let fit1 =
          cell_or_reconstruct-Keeps c (IsWellFormed c.env) kept.tick kept.draw host sid w
            (record { holds = fit }) in
        let (taken, w2) = on_store (claim_pending_commands c.env sid host) w1 in
        let none_left : IsIdle c.env sid w2.store =
          ap length (nothing_waits c.env distinct sid host w1.store fit1.holds.inbox) in
        subst (λ p. IsIdle c.env sid p.1.store)
          (sym (bind_returned (cell_or_reconstruct c host sid) _ w cell found))
          (continue-after (λ v. IsIdle c.env sid v.store) taken _ w2 none_left
            (λ cmds _.
              (run_commands-Keeps c (IsIdle c.env sid) (IsIdle-IsKept c.env sid) host sid cell.jwt
                cmds w2 (record { holds = none_left })).holds))

    step :
        (sid host ty : String) (payload : Option Fields) (actor : Option String) (r : Route)
        (limit n k : ℕ) (w : World Text)
        → IsReady sid host r limit n k w
        → w.store.clock_reads + 9 ≤ limit
        → n ≤ max_events_per_session
        → ty ≢ "tool"
        → ((send_command c sid ty payload actor w).0 ≡ ok (sent_reply c host sid ty payload n k))
          × IsReady sid host r limit (suc (suc n)) (suc k) (send_command c sid ty payload actor w).1
          × ((send_command c sid ty payload actor w).1.store.clock_reads ≤ w.store.clock_reads + 9)
    step sid host ty payload actor r limit n k w ready soon small ne =
        let known = ready.next.0 in
        let idle = ready_inbox sid host r limit n k w ready in
        let few = ready_room sid host r limit n k w ready small in
        let w1 = stored_command c sid ty payload actor w in
        let answers =
          stored_command-Answers c distinct round sid ty host payload actor w ready.fit known idle
            few ne in
        let steps =
          send_command_steps c distinct round sid ty host payload actor r r w _ known idle few
            (ready.routed w.store.clock_reads (omega arith))
            (ready.routed (suc (suc (suc w.store.clock_reads))) (omega arith)) ready.registered
            answers.0 in
        let fit1 =
          stored-IsWellFormed c distinct round sid ty payload actor w ready.fit known idle few in
        let frame =
          consume_commands-Keeps c (Routing c.env w.store.session_leases w.store.cell_hosts (suc k))
            (Routing-IsKept c.env w.store.session_leases w.store.cell_hosts (suc k)) host sid w1
            (record { holds = (refl, refl, ap suc ready.last) }) in
        let fit2 =
          consume_commands-Keeps c (IsWellFormed c.env)
            (store-IsWellFormed c.env distinct round "").kept host sid w1
            (record { holds = fit1 }) in
        let w2 = (consume_commands c host sid w1).1 in
        (
          ap (λ p. p.0) steps
              ∙ ap (λ (m : ℕ). ok (sent_reply c host sid ty payload m w.store.last_command_id))
                  ready.next.1
              ∙ ap (λ (m : ℕ). ok (sent_reply c host sid ty payload n m)) ready.last,
          subst (λ p. IsReady sid host r limit (suc (suc n)) (suc k) p.1) (sym steps)
              (record {
                fit = fit2.holds;
                next = subst (λ m. IsNext c host sid (suc (suc m)) w2.store) ready.next.1 answers.1;
                idle = consume_commands-IsIdle host sid w1 fit1;
                last = frame.holds.2;
                routed = λ t lt.
                    route_at_same sid (c.env.time t) w.store w2.store frame.holds.0 frame.holds.1
                    ∙ ready.routed t lt;
                registered = ap (lookup r.host_id) answers.2 ∙ ready.registered;
              }),
          subst (λ p. p.1.store.clock_reads ≤ w.store.clock_reads + 9) (sym steps)
              (omega (arith, answers.3)),
        )

    -- Whatever commands a client sends to a session one after the other, none of which calls a tool, all
    -- of them are answered, each by its own answer: the ids count up by one from the last command's, and
    -- the numbers of the answers go up by two, since each follows a `command.received`. The session is
    -- there with nothing in its inbox, its lease leads to a registered `Celld` at the next nine readings of
    -- the clock for each command, and there is room for the events; the store is well formed, `uuid4` never gives the same
    -- text twice, and `json.loads` gives back what `json.dumps` wrote.
    pub send_all-replies :
        (sid host : String) (actor : Option String) (r : Route) (limit n k : ℕ)
        (cmds : List (String × Option Fields)) (w : World Text)
        → IsReady sid host r limit n k w
        → w.store.clock_reads + 9 * length cmds ≤ limit
        → n + 2 * length cmds ≤ max_events_per_session + 2
        → All (λ p. p.0 ≢ "tool") cmds
        → (send_all sid actor cmds w).0 ≡ ok (replies host sid n k cmds)
    unfolding send_all replies
    send_all-replies sid host actor r limit n k [] w ready soon small quiet = refl
    send_all-replies sid host actor r limit n k ((ty, payload) ∷ cmds) w ready soon small quiet =
        let (sent, later, reads) =
          step sid host ty payload actor r limit n k w ready (omega arith) (omega arith) quiet.0 in
        let w1 = (send_command c sid ty payload actor w).1 in
        let rest =
          send_all-replies sid host actor r limit (suc (suc n)) (suc k) cmds w1 later (omega arith)
            (omega arith) quiet.1 in
        ap (λ p. p.0)
          (bind_returned (send_command c sid ty payload actor) _ w _ sent
            ∙ bind_returned (send_all sid actor cmds) _ w1 _ rest)
