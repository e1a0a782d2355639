-- ===== src/Gateway/Answering.antt =====
-- What `send_command` returns to a client.
use nadi.Common.{
  ℕ, suc, ◌<◌, ◌≡◌, ◌≢◌, refl, ap, ◌∙◌, String, true, Option, some, List, [], ◌∷◌, arith, length,
  string_eq, beq_self,
}
use mathlib.Core.Path.{subst}
use nadi.Json.{Fields, or_empty}
use nadi.Exec.{ok}
use nadi.Exec.Returns.{bind_returned, bind_exact}
use nadi.Sql.{select}
use nadi.Sql.Laws.{select-snoc}
use nadi.Store.Schema.{Store, RoundTrips}
use nadi.Store.Sessions.{has_session}
use nadi.Store.Events.{Appended, next_sequence}
use nadi.Store.Commands.{is_waiting, enqueue_command, max_events_per_session}
use nadi.Store.Commands.Limits.{command_of, with_command, waiting, event_count, enqueue_command_lem}
use nadi.Store.Leases.{Route, route_at, get_route}
use nadi.Store.WellFormed.{IsWellFormed, store-IsWellFormed}
use nadi.Dict.{lookup}
use nadi.World.{World, Config, on_store}
use nadi.Celld.{consume_commands}
use nadi.Celld.Replying.{event_at}
use nadi.Celld.Answering.{reply, Answers, consume_commands-reply}
use nadi.Broker.{celld_for_route}
use nadi.Gateway.{Sent, route, send_command}
use nadi.Gateway.Sending.{clock_read, route_found}

module _ {Text : Type 0} (c : Config Text) where
  pub celld_found :
      (sid host : String) (r : Route) (w : World Text)
      → route_at sid (c.env.time w.store.clock_reads) w.store ≡ some r
      → lookup r.host_id w.cell_objects ≡ some host
      → celld_for_route c sid w ≡ (ok host, clock_read c sid w)
  unfolding celld_for_route get_route
  celld_found sid host r w live object = rw (live, celld_for_route) (rw object)

  enqueued :
      (sid ty : String) (payload : Option Fields) (actor : Option String) (s : Store Text)
      → has_session sid s ≡ true
      → select (is_waiting sid) s.command_inbox ≡ []
      → event_count sid s < max_events_per_session
      → enqueue_command c.env sid ty payload actor s
        ≡ (ok (suc s.last_command_id), with_command c.env sid ty payload actor s)
  enqueued sid ty payload actor s known none_waits few =
      let idle : waiting sid s ≡ 0 = ap length none_waits in
      enqueue_command_lem c.env sid ty payload actor s ∙ ground (arith, known, few, idle)

  pub only_command :
      (sid ty : String) (payload : Option Fields) (actor : Option String) (s : Store Text)
      → select (is_waiting sid) s.command_inbox ≡ []
      → select (is_waiting sid) (with_command c.env sid ty payload actor s).command_inbox
        ≡ command_of c.env sid ty payload actor s ∷ []
  only_command sid ty payload actor s none_waits =
      let row = command_of c.env sid ty payload actor s in
      rw (select-snoc (is_waiting sid) s.command_inbox row, none_waits, beq_self sid)

  -- The command is stored, and its `Celld` is found.
  abbrev pub stored_command :
      String → String → Option Fields → Option String → World Text → World Text
  stored_command sid ty payload actor w =
      let w1 = clock_read c sid w in
      clock_read c sid
        (record w1 { store = with_command c.env sid ty (some (or_empty payload)) actor w1.store })

  abbrev pub sent_reply : String → String → String → Option Fields → ℕ → ℕ → Sent
  sent_reply host sid ty payload n k = record {
    command_id = suc k;
    events = event_at c host sid (suc n) (reply c.env.repr ty (or_empty payload)) ∷ [];
  }

  module _ (distinct : (i j : ℕ) → c.env.uuid i ≡ c.env.uuid j → i ≡ j)
      (round : RoundTrips c.env) where
    pub stored-IsWellFormed :
        (sid ty : String) (payload : Option Fields) (actor : Option String) (w : World Text)
        → IsWellFormed c.env w.store
        → has_session sid w.store ≡ true
        → select (is_waiting sid) w.store.command_inbox ≡ []
        → event_count sid w.store < max_events_per_session
        → IsWellFormed c.env (stored_command sid ty payload actor w).store
    stored-IsWellFormed sid ty payload actor w fit known none_waits few =
        let inv = store-IsWellFormed c.env distinct round "" in
        let s = (clock_read c sid w).store in
        inv.kept.tick _ _ (
          subst (λ p. IsWellFormed c.env p.1)
            (enqueued sid ty (some (or_empty payload)) actor s known none_waits few)
            (inv.enqueues sid ty (some (or_empty payload)) actor s (inv.kept.tick w.store _ fit)))

    pub stored_command-Answers :
        (sid ty host : String) (payload : Option Fields) (actor : Option String) (w : World Text)
        → IsWellFormed c.env w.store
        → has_session sid w.store ≡ true
        → select (is_waiting sid) w.store.command_inbox ≡ []
        → event_count sid w.store < max_events_per_session
        → ty ≢ "tool"
        → let w' = stored_command sid ty payload actor w in
          let n = next_sequence sid w.store in
          Answers c host sid 5
            (suc (suc n))
            (event_at c host sid (suc n) (reply c.env.repr ty (or_empty payload)) ∷ [])
            w'
            (consume_commands c host sid w')
    unfolding next_sequence
    stored_command-Answers sid ty host payload actor w fit known none_waits few ne =
        let s = (clock_read c sid w).store in
        consume_commands-reply c host sid distinct round
          (command_of c.env sid ty (some (or_empty payload)) actor s) (or_empty payload)
          (next_sequence sid w.store) (stored_command sid ty payload actor w)
          (stored-IsWellFormed sid ty payload actor w fit known none_waits few) (known, refl)
          (only_command sid ty (some (or_empty payload)) actor s none_waits)
          (round (or_empty payload)) ne

    pub send_command_steps :
        (sid ty host : String) (payload : Option Fields) (actor : Option String) (r r' : Route)
        (w : World Text) (evs : List Appended)
        → has_session sid w.store ≡ true
        → select (is_waiting sid) w.store.command_inbox ≡ []
        → event_count sid w.store < max_events_per_session
        → route_at sid (c.env.time w.store.clock_reads) w.store ≡ some r
        → route_at sid (c.env.time (suc (suc (suc w.store.clock_reads)))) w.store ≡ some r'
        → lookup r'.host_id w.cell_objects ≡ some host
        → (consume_commands c host sid (stored_command sid ty payload actor w)).0 ≡ ok evs
        → send_command c sid ty payload actor w ≡ (
          ok (record { command_id = suc w.store.last_command_id; events = evs }),
          (consume_commands c host sid (stored_command sid ty payload actor w)).1,
        )
    unfolding send_command route_at
    send_command_steps sid ty host payload actor r r' w evs known none_waits few live live' object
          answer =
        let given = some (or_empty payload) in
        let w1 = clock_read c sid w in
        let w2 = record w1 { store = with_command c.env sid ty given actor w1.store } in
        let w3 = clock_read c sid w2 in
        let stored = enqueued sid ty given actor w1.store known none_waits few in
        bind_exact (route c sid) _ w w1 r (route_found c sid w r live)
        ∙ (bind_exact (on_store (enqueue_command c.env sid ty given actor)) _ w1 w2 _
              (ap (λ p. (p.0, record w1 { store = p.1 })) stored)
            ∙ (bind_exact (celld_for_route c sid) _ w2 w3 host
                  (celld_found sid host r' w2 live' object)
                ∙ bind_returned (consume_commands c host sid) _ w3 evs answer))

    -- A command that calls no tool is answered: `send_command` returns, with the next command's id and
    -- with the one event that answers it, whose number follows that of `command.received`, whether the
    -- live cell is there or has to be made anew from the log. The store is well formed; the session is
    -- there, has no command that waits and fewer than 10 000 events, and its lease, read twice, is live
    -- and leads to a registered `Celld`; `uuid4` never gives the same text twice, and `json.loads` gives
    -- back what `json.dumps` wrote.
    pub send_command-reply :
        (sid ty host : String) (payload : Option Fields) (actor : Option String) (r r' : Route)
        (w : World Text)
        → IsWellFormed c.env w.store
        → has_session sid w.store ≡ true
        → select (is_waiting sid) w.store.command_inbox ≡ []
        → event_count sid w.store < max_events_per_session
        → route_at sid (c.env.time w.store.clock_reads) w.store ≡ some r
        → route_at sid (c.env.time (suc (suc (suc w.store.clock_reads)))) w.store ≡ some r'
        → lookup r'.host_id w.cell_objects ≡ some host
        → ty ≢ "tool"
        → (send_command c sid ty payload actor w).0
          ≡ ok (sent_reply host sid ty payload (next_sequence sid w.store) w.store.last_command_id)
    send_command-reply sid ty host payload actor r r' w fit known none_waits few live live' object
          ne =
        ap (λ p. p.0)
          (send_command_steps sid ty host payload actor r r' w _ known none_waits few live live'
            object
            (stored_command-Answers sid ty host payload actor w fit known none_waits few ne).0)
