-- ===== src/Sandboxd/Texts.antt =====
-- What the tools `echo` and `uppercase` answer to a caller with a token.
use nadi.Common.{
  ◌+◌, ◌≡◌, refl, ap, ◌∙◌, String, true, ◌⊎◌, inl, inr, List, ℕ, arith, string_eq, ◌==◌,
  if◌then◌else◌,
}
use nadi.Json.{Value, Fields, end, field, str, obj, single, get_or, text_of}
use nadi.Exec.{ok}
use nadi.Exec.Returns.{bind_returned, bind_exact}
use nadi.Security.Jwt.{verify}
use nadi.Store.Audit.{audit}
use nadi.World.{World, Config, on_store}
use nadi.Sandboxd.{text_arg, args_or_empty, run_tool, execute_tool}

module _ {Text : Type 0} (c : Config Text) where
  -- The text that the tools read.
  abbrev pub text_given : Fields → String
  text_given args = text_of c.env.repr (get_or args "text" (str ""))

  -- The answer with the text that a tool made.
  abbrev pub text_answer : String → String → Fields
  text_answer name text = field "tool" (str name) (single "result" (obj (single "text" (str text))))

  -- What the tools `echo` and `uppercase` make of it.
  abbrev pub text_made : String → String → String
  text_made name text = if name == "uppercase" then c.platform.upper text else text

  text_arg_given :
      (args : Fields)
      → text_arg c (args_or_empty (args_or_empty (obj args))) "text" "" ≡ ok (text_given args)
  unfolding get_or
  text_arg_given end = refl
  text_arg_given (field k v rest) = refl

  run_tool_text :
      (sid name : String) (token : List ℕ) (args : Fields) (w : World Text)
      → (name ≡ "echo") ⊎ (name ≡ "uppercase")
      → run_tool c sid token name (args_or_empty (args_or_empty (obj args))) w
        ≡ (ok (single "text" (str (text_made name (text_given args)))), w)
  unfolding run_tool
  run_tool_text sid name token args w (inl e) = rw (e, text_arg_given args) (ground arith)
  run_tool_text sid name token args w (inr e) = rw (e, text_arg_given args) (ground arith)

  -- A tool that returned is audited, and its answer is put under its name.
  execute_tool_returned :
      (sid name : String) (token : List ℕ) (args : Value) (d out : Fields) (w : World Text)
      → (verify c.env c.crypto c.secret token sid "tool" true w.store).0 ≡ ok d
      → ((w' : World Text) → run_tool c sid token name (args_or_empty args) w' ≡ (ok out, w'))
      → (execute_tool c sid token name args w).0
        ≡ ok (field "tool" (str name) (single "result" (obj out)))
  unfolding execute_tool audit
  execute_tool_returned sid name token args d out w accepted returns =
      let verified = on_store (verify c.env c.crypto c.secret token sid "tool" true) in
      let w1 = (verified w).1 in
      let w2 = record w1 { tool_calls = w1.tool_calls + 1 } in
      ap (λ p. p.0)
        (bind_returned verified _ w d accepted
          ∙ bind_exact (run_tool c sid token name (args_or_empty args)) _ w2 w2 out (returns w2))

  -- The tools `echo` and `uppercase`, called with a token that is accepted.
  pub execute_tool_text :
      (sid name : String) (token : List ℕ) (args d : Fields) (w : World Text)
      → (name ≡ "echo") ⊎ (name ≡ "uppercase")
      → (verify c.env c.crypto c.secret token sid "tool" true w.store).0 ≡ ok d
      → (execute_tool c sid token name (args_or_empty (obj args)) w).0
        ≡ ok (text_answer name (text_made name (text_given args)))
  execute_tool_text sid name token args d w known accepted =
      execute_tool_returned sid name token (args_or_empty (obj args)) d _ w accepted
        (λ w'. run_tool_text sid name token args w' known)
