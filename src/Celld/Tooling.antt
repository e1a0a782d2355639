-- ===== src/Celld/Tooling.antt =====
-- What `consume_commands` returns for a single command that calls the tool `echo` or `uppercase`.
use nadi.Common.{
  ℕ, suc, ◌+◌, ◌/◌, ◌≡◌, refl, ap, ◌∙◌, ◌⊎◌, inl, Option, String, true, false, some, List, [], ◌∷◌,
  map, arith, string_eq,
}
use nadi.Json.{Value, Fields, field, str, obj, single, get, get_or}
use nadi.Exec.{ok, pure, ◌>>=◌}
use nadi.Exec.Returns.{bind_returned, bind_exact}
use nadi.Sql.{select, exists_where}
use nadi.Store.Schema.{Command, Store}
use nadi.Store.Audit.{audit}
use nadi.Store.Events.{next_sequence}
use nadi.Security.Jwt.{verify}
use nadi.Runtime.Quiet.{handle-Keeps}
use nadi.Sql.Laws.{exists_where-deleted}
use nadi.Common.Int.{ℤ, pos, second, ◌≤ℤ◌}
use nadi.Json.{is_truthy}
use nadi.Store.Tokens.{has_jti, is_token_revoked}
use nadi.Store.Events.{append_event}
use nadi.Store.WellFormed.{IsWellFormed}
use nadi.Store.Commands.{is_waiting, claim_row, claim_pending_commands}
use nadi.Store.Commands.Claims.{decode, claim_pending_commands_lem}
use nadi.Security.Jwt.{claims, contains}
use nadi.Strings.{words}
use nadi.Security.Jwt.Signed.{signed, IsCodec}
use nadi.Security.Jwt.SignVerify.{verify-signed}
use nadi.Celld.{
  run_command, run_commands, consume_commands, cell_of, cell_or_reconstruct, append_cell_event,
}
use nadi.Celld.Replying.{append_cell_event_clock}
use nadi.Celld.Replying.{
  IsNext, event_at, received, after_received, run_command_event, append_cell_event-IsNext,
}
use nadi.World.{World, Config, Cell, on_store}
use nadi.Runtime.{ToolExecutor, handle}
use nadi.Sandboxd.{execute_tool, args_or_empty}
use nadi.Sandboxd.Texts.{text_given, text_made, text_answer, execute_tool_text}

-- The payload of a command that calls a tool.
abbrev pub tool_payload : String → Fields → Fields
tool_payload name args = field "name" (str name) (single "args" (obj args))

grants_tool : contains "tool" (words "cell tool") ≡ true
unfolding contains words
grants_tool = refl

handle_tool :
    {S : Type 0} (repr : Value → String) (ex : ToolExecutor S) (sid : String) (token : List ℕ)
    (ty name : String) (args : Fields) (s : S)
    → ty ≡ "tool"
    → handle repr ex sid token ty (tool_payload name args) s
      ≡ (ex sid token name (args_or_empty (obj args)) >>= λ out. pure (("tool.result", out) ∷ [])) s
unfolding handle get get_or
handle_tool repr ex sid token ty name args s e = rw e refl

module _ {Text : Type 0} (c : Config Text) (host sid : String) where
  -- A tool leaves the events and the sessions alone.
  handle-IsNext :
      (token : List ℕ) (ty : String) (payload : Fields) (n : ℕ) (w : World Text)
      → IsNext c host sid n w.store
      → IsNext c host sid n (handle c.env.repr (execute_tool c) sid token ty payload w).1.store
  unfolding audit next_sequence
  handle-IsNext token ty payload n =
      handle-Keeps c (λ w. IsNext c host sid n w.store) (λ w m h. h) (λ w rows h. h)
        (λ _ _ _ _ w h. h) (λ w m h. h) sid token ty payload

  run_command-tool :
      (token : List ℕ) (cmd : Command Fields) (name : String) (args d : Fields) (n : ℕ)
      (w : World Text)
      → IsNext c host sid n w.store
      → cmd.command_type ≡ "tool"
      → cmd.payload ≡ tool_payload name args
      → (name ≡ "echo") ⊎ (name ≡ "uppercase")
      → (verify c.env c.crypto c.secret token sid "tool" true
          (after_received c host sid cmd w).store).0
        ≡ ok d
      → (run_command c host sid token cmd w).0
        ≡ ok (
            event_at c host sid
              (suc n)
              ("tool.result", text_answer c name (text_made c name (text_given c args)))
            ∷ [])
  run_command-tool token cmd name args d n w h tool payload known accepted =
      let w1 = after_received c host sid cmd w in
      let out = text_answer c name (text_made c name (text_given c args)) in
      let run = handle c.env.repr (execute_tool c) sid token cmd.command_type cmd.payload in
      let answered : (run w1).0 ≡ ok (("tool.result", out) ∷ []) =
        ap (λ p. (handle c.env.repr (execute_tool c) sid token cmd.command_type p w1).0) payload
        ∙ ap (λ p. p.0)
            (handle_tool c.env.repr (execute_tool c) sid token cmd.command_type name args w1 tool
              ∙ bind_returned (execute_tool c sid token name (args_or_empty (obj args))) _ w1 out
                  (execute_tool_text c sid name token args d w1 known accepted)) in
      let next = (append_cell_event-IsNext c host sid "command.received" (received cmd) n w h).1 in
      ap (λ p. p.0)
        (run_command_event c host sid token cmd n "tool.result" out w (run w1).1 h
          (ap (λ r. (r, (run w1).1)) answered)
          (handle-IsNext token cmd.command_type cmd.payload (suc n) w1 next))

  pub append_cell_event_revoked :
      (ty : String) (payload : Option Fields) (w : World Text)
      → (append_cell_event c host sid ty payload w).1.store.revoked_tokens ≡ w.store.revoked_tokens
  unfolding append_cell_event append_event
  append_cell_event_revoked ty payload w = ground arith

  -- A token of the cell, at a store where it has not expired and is not revoked.
  accepted :
      (exp : ℤ) (jti : String) (s : Store Text)
      → IsCodec c.env c.crypto c.secret (claims host sid "cell tool" exp jti)
      → pos (c.env.time s.clock_reads / second) ≤ℤ exp
      → is_truthy (str jti) ≡ true
      → exists_where (has_jti jti) s.revoked_tokens ≡ false
      → (verify c.env c.crypto c.secret
          (signed c.env c.crypto c.secret (claims host sid "cell tool" exp jti))
          sid
          "tool"
          true
          s).0
        ≡ ok (claims host sid "cell tool" exp jti)
  unfolding is_token_revoked
  accepted exp jti s codec alive named unrevoked =
      verify-signed c.env c.crypto c.secret host sid "cell tool" exp jti "tool" s codec alive
        (inl grants_tool) named
        (ap ok (exists_where-deleted (has_jti jti) _ s.revoked_tokens unrevoked))

  -- The live cell of the session holds a token as `sign` makes it, that has not expired by the full
  -- seconds of the clock's reading `k` and is not revoked.
  pub record HasToken (k : ℕ) (w : World Text) : Type 0 where
    pub cell : Cell
    pub jti : String
    pub exp : ℤ
    pub live : cell_of c host sid w ≡ some cell
    pub made : cell.jwt ≡ signed c.env c.crypto c.secret (claims host sid "cell tool" exp jti)
    pub codec : IsCodec c.env c.crypto c.secret (claims host sid "cell tool" exp jti)
    pub alive : pos (c.env.time k / second) ≤ℤ exp
    pub named : is_truthy (str jti) ≡ true
    pub unrevoked : exists_where (has_jti jti) w.store.revoked_tokens ≡ false

  module _ (distinct : (i j : ℕ) → c.env.uuid i ≡ c.env.uuid j → i ≡ j) where
    pub consume_commands-tool :
        (row : Command Text) (name : String) (args : Fields) (n : ℕ) (w : World Text)
        → IsWellFormed c.env w.store
        → IsNext c host sid n w.store
        → select (is_waiting sid) w.store.command_inbox ≡ row ∷ []
        → row.command_type ≡ "tool"
        → c.env.loads row.payload ≡ some (tool_payload name args)
        → (name ≡ "echo") ⊎ (name ≡ "uppercase")
        → HasToken (w.store.clock_reads + 2) w
        → (consume_commands c host sid w).0
          ≡ ok (
              event_at c host sid
                (suc n)
                ("tool.result", text_answer c name (text_made c name (text_given c args)))
              ∷ [])
    unfolding consume_commands cell_or_reconstruct run_commands next_sequence
    consume_commands-tool row name args n w fit next one tool loads known held =
        let cell = held.cell in
        let owned = claims host sid "cell tool" held.exp held.jti in
        let token = c.env.uuid w.store.uuid_reads in
        let cmd =
          decode c.env (claim_row {Text = Text} host token (c.env.time w.store.clock_reads) row) in
        let claimed = claim_pending_commands_lem c.env distinct sid host w.store fit.inbox in
        let w2 = (on_store (claim_pending_commands c.env sid host) w).1 in
        let w3 = after_received c host sid cmd w2 in
        let found : cell_or_reconstruct c host sid w ≡ (ok cell, w) =
          rw (held.live, cell_or_reconstruct) refl in
        let taken : (on_store (claim_pending_commands c.env sid host) w).0 ≡ ok (cmd ∷ []) =
          ap (λ p. p.0) claimed
          ∙ ap
              (λ rows. ok (
                map (decode c.env)
                  (map (claim_row host token (c.env.time w.store.clock_reads)) rows)))
              one in
        let next2 : IsNext c host sid n w2.store = rw claimed next in
        let reads : w3.store.clock_reads ≡ w.store.clock_reads + 2 = omega (
          arith,
          append_cell_event_clock c host sid "command.received" (some (received cmd)) w2,
          ap (λ p. p.1.clock_reads) claimed,
        ) in
        let revoked : w3.store.revoked_tokens ≡ w.store.revoked_tokens =
          append_cell_event_revoked "command.received" (some (received cmd)) w2
          ∙ ap (λ p. p.1.revoked_tokens) claimed in
        let payload : cmd.payload ≡ tool_payload name args = rw loads refl in
        let verified : (verify c.env c.crypto c.secret cell.jwt sid "tool" true w3.store).0
            ≡ ok owned =
          rw held.made (
            accepted held.exp held.jti w3.store held.codec (rw reads held.alive) held.named
              (rw revoked held.unrevoked)) in
        let ran =
          run_command-tool cell.jwt cmd name args owned n w2 next2 tool payload known verified in
        ap (λ p. p.0)
          (bind_exact (cell_or_reconstruct c host sid) _ w w cell found
            ∙ (bind_returned (on_store (claim_pending_commands c.env sid host)) _ w (cmd ∷ []) taken
                ∙ bind_returned (run_command c host sid cell.jwt cmd) _ w2 _ ran))
