-- ===== src/Gateway/Tooling.antt =====
-- What `send_command` returns to a client that calls the tool `echo` or `uppercase`.
use nadi.Common.{
  ℕ, suc, ◌+◌, ◌<◌, ◌≡◌, refl, ap, ◌⊎◌, ◌/◌, String, true, Option, some, [], ◌∷◌, string_eq, arith,
}
use mathlib.Core.Path.{subst}
use nadi.Common.Int.{pos, second, ◌≤ℤ◌}
use nadi.Json.{Fields}
use nadi.Exec.{ok}
use nadi.Sql.{select}
use nadi.Store.Schema.{RoundTrips}
use nadi.Store.Sessions.{has_session}
use nadi.Store.Events.{next_sequence}
use nadi.Store.Commands.{is_waiting, max_events_per_session}
use nadi.Store.Commands.Limits.{command_of, event_count}
use nadi.Store.Leases.{Route, route_at}
use nadi.Store.WellFormed.{IsWellFormed}
use nadi.Dict.{lookup}
use nadi.World.{World, Config}
use nadi.Sandboxd.Texts.{text_given, text_made, text_answer}
use nadi.Celld.Replying.{event_at}
use nadi.Celld.Tooling.{tool_payload, HasToken, consume_commands-tool}
use nadi.Gateway.{send_command}
use nadi.Gateway.Sending.{clock_read}
use nadi.Gateway.Answering.{stored_command, only_command, stored-IsWellFormed, send_command_steps}

module _ {Text : Type 0} (c : Config Text)
    (distinct : (i j : ℕ) → c.env.uuid i ≡ c.env.uuid j → i ≡ j) (round : RoundTrips c.env) where
  -- A command that calls the tool `echo` or `uppercase` is answered: `send_command` returns, with the
  -- next command's id and with the one event `tool.result`, which holds the text of the arguments, in
  -- upper case for `uppercase`. The store is well formed; the session is there, has no command that
  -- waits and fewer than 10 000 events; its lease, read twice, is live and leads to a registered
  -- `Celld`, whose cell of the session holds a token that has not expired and is not revoked; `uuid4`
  -- never gives the same text twice, and `json.loads` gives back what `json.dumps` wrote.
  pub send_command-tool :
      (sid host name : String) (args : Fields) (actor : Option String) (r r' : Route)
      (w : World Text)
      → IsWellFormed c.env w.store
      → has_session sid w.store ≡ true
      → select (is_waiting sid) w.store.command_inbox ≡ []
      → event_count sid w.store < max_events_per_session
      → route_at sid (c.env.time w.store.clock_reads) w.store ≡ some r
      → route_at sid (c.env.time (suc (suc (suc w.store.clock_reads)))) w.store ≡ some r'
      → lookup r'.host_id w.cell_objects ≡ some host
      → HasToken c host sid (w.store.clock_reads + 6) w
      → (name ≡ "echo") ⊎ (name ≡ "uppercase")
      → (send_command c sid "tool" (some (tool_payload name args)) actor w).0
        ≡ ok (record {
          command_id = suc w.store.last_command_id;
          events =
              event_at c host sid
                (suc (next_sequence sid w.store))
                ("tool.result", text_answer c name (text_made c name (text_given c args)))
              ∷ [];
        })
  unfolding next_sequence
  send_command-tool sid host name args actor r r' w fit there none_waits few live live' object held
        known =
      let payload = some (tool_payload name args) in
      let s = (clock_read c sid w).store in
      let answer =
        consume_commands-tool c host sid distinct (command_of c.env sid "tool" payload actor s) name
          args (next_sequence sid w.store) (stored_command c sid "tool" payload actor w)
          (stored-IsWellFormed c distinct round sid "tool" payload actor w fit there none_waits few)
          (there, refl) (only_command c sid "tool" payload actor s none_waits) refl
          (round (tool_payload name args)) known
          (record {
            cell = held.cell;
            jti = held.jti;
            exp = held.exp;
            live = held.live;
            made = held.made;
            codec = held.codec;
            alive = subst (λ k. pos (c.env.time k / second) ≤ℤ held.exp) (omega arith) held.alive;
            named = held.named;
            unrevoked = held.unrevoked;
          }) in
      ap (λ p. p.0)
        (send_command_steps c distinct round sid "tool" host payload actor r r' w _ there none_waits
          few live live' object answer)
