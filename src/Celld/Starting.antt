-- ===== src/Celld/Starting.antt =====
-- What `create_cell` returns, and what its first event leaves.
use nadi.Common.{
  ap, true, false, beq_self, pair_eq, ℕ, suc, ◌+◌, ◌/◌, ◌≡◌, refl, sym, ◌∙◌, String, some, arith,
  string_eq,
}
use mathlib.Core.Path.{subst}
use nadi.Common.Int.{pos, second, min_ℤ, ◌+ℤ◌}
use nadi.Json.{str, single}
use nadi.Exec.{Action, ok, pure, ◌>>=◌}
use nadi.Exec.Returns.{bind_returned}
use nadi.Sql.Updates.{exists_where-update}
use nadi.Store.Sessions.{has_id, update_session_status}
use nadi.Store.Events.{Appended, next_sequence}
use nadi.Security.Jwt.{sign, claims, max_ttl_seconds}
use nadi.Security.Jwt.Signed.{signed}
use nadi.World.{World, Config, Cell, empty_state, on_store}
use nadi.Json.{is_truthy}
use nadi.Common.Int.{◌≤ℤ◌}
use nadi.Sql.{exists_where}
use nadi.Store.Tokens.{has_jti}
use nadi.Security.Jwt.Signed.{IsCodec}
use nadi.Celld.Tooling.{HasToken, append_cell_event_revoked}
use nadi.Celld.Replay.{append_cell_event_known, cell_of-update_cell, cell_of-set_cell}
use nadi.Celld.{cell_of, apply_to_cell, set_cell, sign_cell, create_cell, append_cell_event}
use nadi.Celld.Replying.{
  IsNext, append_cell_event-IsNext, append_cell_event_objects, append_cell_event_clock,
}

module _ {Text : Type 0} (c : Config Text) (host sid : String) (w : World Text) where
  abbrev new_cell : Cell
  new_cell = record {
    session_id = sid;
    jwt = signed c.env c.crypto c.secret (
        claims host sid "cell tool"
          (pos (c.env.time w.store.clock_reads / second) +ℤ min_ℤ (pos 3600) max_ttl_seconds)
          (c.env.uuid w.store.uuid_reads));
    state = empty_state;
  }

  -- The world in which the first event is written.
  abbrev running : World Text
  running =
      (on_store (update_session_status c.env sid "running")
        (set_cell c host sid new_cell (sign_cell c host sid w).1)).1

  abbrev first_event : Action (World Text) Appended
  first_event =
      append_cell_event c host sid "session.started" (some (single "cell_host" (str host)))

  abbrev started_cell : Cell
  started_cell = apply_to_cell new_cell "session.started" (single "cell_host" (str host))

  create_cell_steps : create_cell c host sid w ≡ (first_event >>= λ _. pure started_cell) running
  unfolding create_cell sign update_session_status
  create_cell_steps = refl

  running-IsNext : (n : ℕ) → IsNext c host sid n w.store → IsNext c host sid n running.store
  unfolding update_session_status sign next_sequence
  running-IsNext n (known, next) =
      (exists_where-update (has_id sid) (has_id sid) _ w.store.sessions (λ row. refl) ∙ known, next)

  made_cell :
      (n : ℕ)
      → IsNext c host sid n w.store
      → create_cell c host sid w ≡ (ok started_cell, (first_event running).1)
  made_cell n h =
      let event =
        append_cell_event-IsNext c host sid "session.started" (single "cell_host" (str host)) n
          running (running-IsNext n h) in
      create_cell_steps ∙ bind_returned first_event _ running _ event.0

  -- The cell is made, and its first event has the session's next number.
  pub create_cell_ok :
      (n : ℕ)
      → IsNext c host sid n w.store
      → ((create_cell c host sid w).0 ≡ ok started_cell)
        × IsNext c host sid (suc n) (create_cell c host sid w).1.store
        × ((create_cell c host sid w).1.cell_objects ≡ w.cell_objects)
        × ((create_cell c host sid w).1.store.clock_reads ≡ w.store.clock_reads + 3)
  unfolding update_session_status sign
  create_cell_ok n h =
      let d = single "cell_host" (str host) in
      let event =
        append_cell_event-IsNext c host sid "session.started" d n running (running-IsNext n h) in
      subst
        (λ p.
          (p.0 ≡ ok started_cell)
          × IsNext c host sid (suc n) p.1.store
          × (p.1.cell_objects ≡ w.cell_objects)
          × (p.1.store.clock_reads ≡ w.store.clock_reads + 3))
        (sym (made_cell n h))
        (
          refl,
          event.1,
          append_cell_event_objects c host sid "session.started" (some d) running,
          omega (arith, append_cell_event_clock c host sid "session.started" (some d) running),
        )

  -- The new cell holds the token that `sign` made for it.
  pub create_cell-HasToken :
      (n k : ℕ)
      → IsNext c host sid n w.store
      → let exp =
          pos (c.env.time w.store.clock_reads / second) +ℤ min_ℤ (pos 3600) max_ttl_seconds in
        let jti = c.env.uuid w.store.uuid_reads in
        IsCodec c.env c.crypto c.secret (claims host sid "cell tool" exp jti)
        → pos (c.env.time k / second) ≤ℤ exp
        → is_truthy (str jti) ≡ true
        → exists_where (has_jti jti) w.store.revoked_tokens ≡ false
        → HasToken c host sid k (create_cell c host sid w).1
  unfolding sign update_session_status
  create_cell-HasToken n k h codec alive named unrevoked =
      let d = single "cell_host" (str host) in
      let written =
        append_cell_event_known c host sid "session.started" (some d) running
          (running-IsNext n h).0 in
      let there : cell_of c host sid running ≡ some new_cell =
        cell_of-set_cell c host sid sid new_cell (sign_cell c host sid w).1
        ∙ rw (beq_self sid) refl in
      subst (HasToken c host sid k) (sym (ap (λ p. p.1) (made_cell n h))) (record {
        cell = started_cell;
        jti = c.env.uuid w.store.uuid_reads;
        exp = pos (c.env.time w.store.clock_reads / second) +ℤ min_ℤ (pos 3600) max_ttl_seconds;
        live =
            ap (cell_of c host sid) written
            ∙ cell_of-update_cell c host sid sid "session.started" d _
            ∙ rw (beq_self sid, there) refl;
        made = refl;
        codec = codec;
        alive = alive;
        named = named;
        unrevoked =
            rw (append_cell_event_revoked c host sid "session.started" (some d) running) unrevoked;
      })
