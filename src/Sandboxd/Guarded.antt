-- ===== src/Sandboxd/Guarded.antt =====
-- What guards the tools: the token, the root directory and the audit log.
use nadi.Common.{
  ℕ, suc, ◌+◌, ◌/◌, ◌≡◌, refl, ap, sym, String, true, some, List, [], ◌∷◌, ◌++◌, arith, string_eq,
  eq_iff, Bool-cases, inl, inr, if◌then◌else◌, ◌⊎◌,
}
use nadi.Common.Int.{second}
use nadi.Json.{Value, Fields, arr, str, single}
use nadi.Exec.{Error, Result, ok, err, path_escapes, then_result}
use nadi.Exec.Returns.{bind_ok}
use nadi.Sql.{order_by}
use nadi.Store.Schema.{Store, AuditEntry, json_text}
use nadi.Store.Audit.{audit}
use nadi.Security.Jwt.{verify}
use nadi.Security.Jwt.Verified.{Genuine, verify-Genuine}
use nadi.World.{World, Config, on_store}
use nadi.Sandboxd.{
  is_within, join_path, text_arg, text_items, text_le, list_files, run_tool, execute_tool,
  args_or_empty,
}

is_within_prefix :
    (root target : List String)
    → is_within root target ≡ true
    → (rest : List String) × (target ≡ root ++ rest)
is_within_prefix [] target h = (target, refl)
is_within_prefix (p ∷ ps) [] h = absurd (cc)
is_within_prefix (p ∷ ps) (q ∷ qs) h =
    let (rest, e) = is_within_prefix ps qs (ground (arith, h)) in
    (rest, ground (arith, h, e, eq_iff p q))

module _ {Text : Type 0} (c : Config Text) where
  -- The entry that `execute_tool` writes.
  abbrev pub entry_of : String → String → Store Text → AuditEntry Text
  entry_of session_id name s = record {
    id = suc s.last_audit_id;
    actor = "sandboxd";
    action = "execute_tool";
    session_id = some session_id;
    payload = json_text c.env (some (single "tool" (str name)));
    created_at = c.env.time s.clock_reads;
  }

  -- The names that `list_files` gives for a directory.
  abbrev pub listing : List String → Fields
  listing target = single "files" (
      arr (
        text_items
          (if c.platform.is_dir target then order_by text_le (c.platform.names target) else [])))

  list_files_at :
      (r : Result String) (out : Fields)
      → then_result r (λ rel.
        let target = c.platform.resolve (join_path c.root rel) in
        if is_within c.root target then ok (listing target) else err path_escapes)
        ≡ ok out
      → (rel : String) × (rest : List String) × (r ≡ ok rel)
        × (c.platform.resolve (join_path c.root rel) ≡ c.root ++ rest)
        × (out ≡ listing (c.root ++ rest))
  list_files_at (err e) out h = absurd (cc)
  list_files_at (ok rel) out h =
      let target = c.platform.resolve (join_path c.root rel) in
      elim (Bool-cases (is_within c.root target)) [
        | inl inside ↦
            let (rest, e) = is_within_prefix c.root target inside in
            (rel, rest, refl, e, ground (arith, h, inside, e))
        | inr outside ↦ absurd (ground (arith, h, outside))
      ]

  -- What a listing shows lies at or below the root: the path that it resolves begins with the root,
  -- and the answer holds the sorted names of that directory, or none where it is no directory.
  pub list_files_ok :
      (args : Value) (out : Fields)
      → list_files c args ≡ ok out
      → (rel : String) × (rest : List String) × (text_arg c args "path" "." ≡ ok rel)
        × (c.platform.resolve (join_path c.root rel) ≡ c.root ++ rest)
        × (out ≡ listing (c.root ++ rest))
  unfolding list_files
  list_files_ok args out h = list_files_at (text_arg c args "path" ".") out h

  -- The call was refused as `verify` refused the token, and nothing but what that wrote has changed.
  abbrev pub IsTurnedAway : String → List ℕ → String → Value → World Text → Type 0
  IsTurnedAway session_id token name args w =
      let checked = verify c.env c.crypto c.secret token session_id "tool" true w.store in
      (e : Error) × (checked.0 ≡ err e)
      × (execute_tool c session_id token name args w ≡ (err e, record w { store = checked.1 }))

  abbrev pub IsGenuine : String → List ℕ → World Text → Type 0
  IsGenuine session_id token w =
      (d : Fields) × Genuine c.env c.crypto c.secret token session_id "tool"
        (c.env.time w.store.clock_reads / second) d

  -- The last entry of the audit log names the session and the tool.
  abbrev pub IsAudited : String → String → World Text → Type 0
  IsAudited session_id name w =
      (s : Store Text) × (w.store.audit_log ≡ s.audit_log ++ entry_of session_id name s ∷ [])

  turned_away :
      (session_id : String) (token : List ℕ) (name : String) (args : Value) (w : World Text)
      (r : Result Fields)
      → (verify c.env c.crypto c.secret token session_id "tool" true w.store).0 ≡ r
      → IsGenuine session_id token w ⊎ IsTurnedAway session_id token name args w
  unfolding execute_tool
  turned_away session_id token name args w (ok d) e =
      let s = (verify c.env c.crypto c.secret token session_id "tool" true w.store).1 in
      inl (
        d,
        verify-Genuine c.env c.crypto c.secret token session_id "tool" true d w.store s
            (ap (λ r. (r, s)) e),
      )
  turned_away session_id token name args w (err x) e = inr (x, e, rw (e, execute_tool) refl)

  execute_tool-IsAudited :
      (session_id : String) (token : List ℕ) (name : String) (args : Value) (w w' : World Text)
      (out : Fields)
      → execute_tool c session_id token name args w ≡ (ok out, w')
      → IsAudited session_id name w'
  unfolding execute_tool audit
  execute_tool-IsAudited session_id token name args w w' out h =
      let verified = on_store (verify c.env c.crypto c.secret token session_id "tool" true) in
      let (d, e, h1) = bind_ok verified _ w w' out h in
      let w2 = record (verified w).1 { tool_calls = (verified w).1.tool_calls + 1 } in
      let (result, e2, h2) =
        bind_ok (run_tool c session_id token name (args_or_empty args)) _ w2 w' out h1 in
      let w3 = (run_tool c session_id token name (args_or_empty args) w2).1 in
      (w3.store, sym (ap (λ x. x.1.store.audit_log) h2))

  -- What a call that returned has left; of one that raised, nothing is said.
  abbrev pub IsAuditedAfter : String → String → Result Fields × World Text → Type 0
  IsAuditedAfter session_id name (ok out, w) = IsAudited session_id name w
  IsAuditedAfter session_id name (err e, w) = Unit {0}

  audited_after :
      (session_id : String) (token : List ℕ) (name : String) (args : Value) (w : World Text)
      (r : Result Fields × World Text)
      → execute_tool c session_id token name args w ≡ r
      → IsAuditedAfter session_id name r
  audited_after session_id token name args w (ok out, w') h =
      execute_tool-IsAudited session_id token name args w w' out h
  audited_after session_id token name args w (err e, w') h = tt

  -- A tool runs only for a genuine token of its session that grants the scope `tool`: every other call
  -- raises the error of the token's check, and leaves everything as that check left it, the audit log
  -- and the count of the tools too. After a call that returns, the last entry of the audit log names
  -- the session and the tool.
  pub execute_tool-Genuine :
      (session_id : String) (token : List ℕ) (name : String) (args : Value) (w : World Text)
      → (IsGenuine session_id token w ⊎ IsTurnedAway session_id token name args w)
        × IsAuditedAfter session_id name (execute_tool c session_id token name args w)
  execute_tool-Genuine session_id token name args w = (
    turned_away session_id token name args w
        (verify c.env c.crypto c.secret token session_id "tool" true w.store).0 refl,
    audited_after session_id token name args w (execute_tool c session_id token name args w) refl,
  )
