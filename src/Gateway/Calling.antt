-- ===== src/Gateway/Calling.antt =====
-- A client that opens a session on a new server and sends it commands.
use nadi.Common.{
  ℕ, ◌+◌, ◌*◌, ◌<◌, ◌≤◌, ◌/◌, ◌≡◌, ◌≢◌, All, List, length, refl, ap, ◌∙◌, ◌⊎◌, String, true, Option,
  some, [], ◌∷◌, arith, string_eq,
}
use mathlib.Core.Path.{subst}
use nadi.Common.Int.{ℤ, pos, second, ◌≤ℤ◌, ◌+ℤ◌}
use nadi.Json.{Fields, str, is_truthy}
use nadi.Exec.{ok, ◌>>=◌}
use nadi.Store.Commands.{max_events_per_session}
use nadi.Sql.{exists_where}
use nadi.Store.Schema.{RoundTrips}
use nadi.Store.Events.{next_sequence}
use nadi.Security.Jwt.{claims}
use nadi.Security.Jwt.Signed.{IsCodec}
use nadi.World.{Config, empty_world}
use nadi.Sandboxd.Texts.{text_given, text_made, text_answer}
use nadi.Celld.Replying.{event_at}
use nadi.Celld.Tooling.{tool_payload, HasToken}
use nadi.Celld.Starting.{create_cell-HasToken}
use nadi.Stack.{local_stack}
use nadi.Gateway.{open_session, send_command}
use nadi.Gateway.Tooling.{send_command-tool}
use nadi.Gateway.Conversation.{ready_inbox, ready_room, send_all, replies, send_all-replies}
use nadi.Gateway.Opening.{
  sid, route, opened, ready_for_cell, untouched, created-IsNext, opened_then, opened-IsReady,
  opened_clock,
}

module _ {Text : Type 0} (c : Config Text) (tenant : String) (metadata : Option Fields) where
  -- On a new server, which `local_stack` has just made, a client that opens a session gets the third
  -- identifier as the session's, and whatever commands it then sends one after the other, none of which
  -- calls a tool, all of them are answered, each by its own answer: the ids count up from 1, and the
  -- answers have the numbers 3, 5, … of the session's events. The lease's hour is not over at the readings
  -- of the clock up to then, there are at most half as many commands as a session may have events;
  -- `uuid4` never gives the same text twice, and `json.loads` gives back what `json.dumps` wrote.
  pub open_session-replies :
      ((i j : ℕ) → c.env.uuid i ≡ c.env.uuid j → i ≡ j)
      → RoundTrips c.env
      → (actor : Option String) (cmds : List (String × Option Fields))
      → ((t : ℕ) → t < 7 + 9 * length cmds → c.env.time t < c.env.time 3 + 3600 * second)
      → 2 * length cmds ≤ max_events_per_session
      → All (λ p. p.0 ≢ "tool") cmds
      → ((local_stack c >>= λ _.
            open_session c tenant metadata >>= λ s. send_all c s.session_id actor cmds)
          empty_world).0
        ≡ ok (replies c "cell-local" (c.env.uuid 2) 2 0 cmds)
  open_session-replies distinct round actor cmds lives small quiet =
      let limit = 7 + 9 * length cmds in
      ap (λ p. p.0) (opened_then c tenant metadata _ round)
      ∙ send_all-replies c distinct round (sid c tenant metadata) "cell-local" actor
          (route c tenant metadata) limit 2 0 cmds (opened c tenant metadata)
          (opened-IsReady c tenant metadata distinct round limit lives)
          (omega (arith, opened_clock c tenant metadata distinct round)) (omega arith) quiet

  -- The token that the first cell gets: the second in which it expires, and its claims.
  abbrev pub first_expiry : ℤ
  first_expiry = pos (c.env.time 4 / second) +ℤ pos 3600

  abbrev pub first_claims : Fields
  first_claims = claims "cell-local" (c.env.uuid 2) "cell tool" first_expiry (c.env.uuid 4)

  opened-HasToken :
      IsCodec c.env c.crypto c.secret first_claims
      → pos (c.env.time 13 / second) ≤ℤ first_expiry
      → is_truthy (str (c.env.uuid 4)) ≡ true
      → HasToken c "cell-local" (sid c tenant metadata) 13 (opened c tenant metadata)
  unfolding exists_where next_sequence
  opened-HasToken codec alive named =
      let same = untouched c tenant metadata in
      create_cell-HasToken c "cell-local" (sid c tenant metadata) (ready_for_cell c tenant metadata)
        1 13 (created-IsNext c tenant metadata) (rw (same.3, same.4) codec) (rw same.3 alive)
        (rw same.4 named) (rw same.5 refl)

  -- On a new server, which `local_stack` has just made, a client opens a session and calls the tool
  -- `echo` or `uppercase` there: the command has the id 1, and its answer is the session's event 3, with
  -- the text of the arguments, in upper case for `uppercase`. The sandbox tier takes the token that the
  -- cell got when it was made. The lease's hour is not over at the first fourteen readings of the clock,
  -- and the token's hour not at the one of its check; the token's identifier is not empty; `uuid4` never
  -- gives the same text twice, and `json.loads` gives back what `json.dumps` wrote, in the store and
  -- for the token.
  pub open_session-tool :
      ((i j : ℕ) → c.env.uuid i ≡ c.env.uuid j → i ≡ j)
      → RoundTrips c.env
      → IsCodec c.env c.crypto c.secret first_claims
      → ((t : ℕ) → t < 14 → c.env.time t < c.env.time 3 + 3600 * second)
      → pos (c.env.time 13 / second) ≤ℤ first_expiry
      → is_truthy (str (c.env.uuid 4)) ≡ true
      → (name : String) (args : Fields) (actor : Option String)
      → (name ≡ "echo") ⊎ (name ≡ "uppercase")
      → ((local_stack c >>= λ _. open_session c tenant metadata >>= λ s.
            send_command c s.session_id "tool" (some (tool_payload name args)) actor)
          empty_world).0
        ≡ ok (record {
          command_id = 1;
          events =
              event_at c "cell-local"
                (c.env.uuid 2)
                3
                ("tool.result", text_answer c name (text_made c name (text_given c args)))
              ∷ [];
        })
  open_session-tool distinct round codec lives alive named name args actor known =
      let id = sid c tenant metadata in
      let w = opened c tenant metadata in
      let r = route c tenant metadata in
      let clock = opened_clock c tenant metadata distinct round in
      let ready = opened-IsReady c tenant metadata distinct round 14 lives in
      let held : HasToken c "cell-local" id (w.store.clock_reads + 6) w =
        subst (λ k. HasToken c "cell-local" id k w) (omega (arith, clock))
          (opened-HasToken codec alive named) in
      ap (λ p. p.0) (opened_then c tenant metadata _ round)
      ∙ send_command-tool c distinct round id "cell-local" name args actor r r w ready.fit
          ready.next.0 (ready_inbox c id "cell-local" r 14 2 0 w ready)
          (ready_room c id "cell-local" r 14 2 0 w ready (omega arith))
          (ready.routed _ (omega (arith, clock))) (ready.routed _ (omega (arith, clock)))
          ready.registered held known
      ∙ rw (ready.last, ready.next.1) refl
