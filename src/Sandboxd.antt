-- ===== src/Sandboxd.antt =====
-- `CredentialsProxy` and `Sandboxd` of nadi/sandboxd.py.
pub mod Guarded
pub mod Texts
use Prim.Native.Char.{code}
use Prim.Native.String.{compare}
use Prim.Native.Nat.{Ordering}
use nadi.Common.{
  ℕ, zero, suc, ◌+◌, String, ◌<>◌, Bool, true, false, not, ◌&&◌, Option, none, some, List, [], ◌∷◌,
  ◌++◌, ◌==◌, nat_eq, string_eq, if◌then◌else◌,
}
use nadi.Strings.{take_chars, split_on}
use nadi.Json.{
  Value, Fields, Items, null, str, arr, obj, nil, cons, end, field, single, get_or, is_truthy,
  text_of,
}
use nadi.Exec.{
  Action, Result, ok, err, attribute_error, path_escapes, unknown_tool, pure, raise, lift, modify,
  raise_if, then_result, ◌>>=◌, ◌>>◌,
}
use nadi.Sql.{order_by}
use nadi.Store.Audit.{audit}
use nadi.Security.Jwt.{verify}
use nadi.World.{World, Config, on_store}

unfoldable pub path_parts : List String → List String
path_parts [] = []
path_parts (p ∷ ps) =
    if p == "" then path_parts ps else if p == "." then path_parts ps else p ∷ path_parts ps

abbrev pub is_absolute : String → Bool
is_absolute String.[] = false
is_absolute (String.◌∷◌ c s) = code c == b'/'

-- `root / rel`
unfoldable pub join_path : List String → String → List String
unfolding split_on path_parts
join_path root rel =
    let parts = path_parts (split_on b'/' rel) in if is_absolute rel then parts else root ++ parts

-- `target.relative_to(root)` raises unless this holds.
abbrev pub is_within : List String → List String → Bool
is_within [] target = true
is_within (p ∷ ps) [] = false
is_within (p ∷ ps) (q ∷ qs) = p == q && is_within ps qs

-- `sorted` of texts, by code points
abbrev pub text_le : String → String → Bool
text_le a b = elim (compare a b) [ Ordering.gt ↦ false | _ ↦ true ]

abbrev pub text_items : List String → Items
text_items [] = nil
text_items (n ∷ ns) = cons (str n) (text_items ns)

-- `args or {}`, of which the tools read entries
abbrev pub args_or_empty : Value → Value
args_or_empty v = if is_truthy v then v else obj end

module _ {Text : Type 0} (c : Config Text) where
  -- `str(args.get(k, default))`
  abbrev pub text_arg : Value → String → String → Result String
  text_arg (obj d) k default = ok (text_of c.env.repr (get_or d k (str default)))
  text_arg _ k default = err attribute_error

  -- `CredentialsProxy.exchange`
  unfoldable pub exchange : String → List ℕ → String → Action (World Text) Fields
  exchange session_id token audience = do
    on_store (verify c.env c.crypto c.secret token session_id "tool" true)
    on_store (
        audit c.env "credentials-proxy" "exchange" (some session_id)
          (some (single "audience" (str audience))))
    pure (
        field "access_token" (str ("fake-" <> (take_chars 8 session_id <> ("-" <> audience))))
          (single "audience" (str audience)))

  -- The tool `list_files`: the names in a directory below the root, and none of what is no directory.
  unfoldable pub list_files : Value → Result Fields
  unfolding join_path
  list_files args = then_result (text_arg args "path" ".") λ rel.
      let target = c.platform.resolve (join_path c.root rel) in
      if is_within c.root target
      then ok (
          single "files" (
            arr (
              text_items (
                if c.platform.is_dir target
                then order_by text_le (c.platform.names target)
                else []))))
      else err path_escapes

  unfoldable pub run_tool : String → List ℕ → String → Value → Action (World Text) Fields
  unfolding exchange list_files
  run_tool session_id token name args =
      if name == "echo"
      then lift (then_result (text_arg args "text" "") λ t. ok (single "text" (str t)))
      else if name == "uppercase"
      then lift
          (then_result (text_arg args "text" "") λ t. ok (single "text" (str (c.platform.upper t))))
      else if name == "list_files"
      then lift (list_files args)
      else if name == "credential"
      then (do
        audience ← lift (text_arg args "audience" "tool")
        exchange session_id token audience)
      else raise unknown_tool

  unfoldable pub execute_tool : String → List ℕ → String → Value → Action (World Text) Fields
  unfolding run_tool
  execute_tool session_id token name args = do
    on_store (verify c.env c.crypto c.secret token session_id "tool" true)
    modify (λ w. record w { tool_calls = w.tool_calls + 1 })
    result ← run_tool session_id token name (args_or_empty args)
    on_store
        (audit c.env "sandboxd" "execute_tool" (some session_id) (some (single "tool" (str name))))
    pure (field "tool" (str name) (single "result" (obj result)))
