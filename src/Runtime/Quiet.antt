-- ===== src/Runtime/Quiet.antt =====
-- What a command of the runtime leaves alone: it may read the clock, purge revoked tokens and write to
-- the audit log, and nothing else of the store changes. So it keeps each property of the objects that
-- these three changes and the count of the tools keep.
use nadi.Common.{
  ℕ, ◌/◌, String, Bool, true, false, Option, none, some, List, string_eq, if_both, ◌==◌,
}
use nadi.Json.{Value, Fields, arr, obj, text_of}
use nadi.Common.Int.{second}
use nadi.Exec.{malformed_payload, token_revoked, jwt, raise_if, lift, ◌>>=◌}
use nadi.Exec.Keeps.{Keeps, bind-Keeps, continue-Keeps, raise_if-Keeps}
use nadi.Store.Schema.{Store, RevokedToken}
use nadi.Store.Audit.{audit}
use nadi.Store.Tokens.{is_token_revoked}
use nadi.Security.Jwt.{
  check_signature, check_expiry, check_session, check_scope, check_revoked, jti_of, verify,
  now_seconds, as_dict, loads_segment,
}
use nadi.World.{World, Config, on_store}
use nadi.Sandboxd.{exchange, run_tool, execute_tool, text_arg, args_or_empty}
use nadi.Runtime.{handle, args_of}

module _ {Text : Type 0} (c : Config Text) (Q : Store Text → Type 0)
    (tick : (s : Store Text) (n : ℕ) → Q s → Q (record s { clock_reads = n }))
    (purge : (s : Store Text) (rows : List RevokedToken)
      → Q s
      → Q (record s { revoked_tokens = rows })) where
  is_token_revoked-Keeps : (jti : String) → Keeps Q (is_token_revoked c.env jti)
  unfolding is_token_revoked
  is_token_revoked-Keeps jti s h = purge _ _ (tick s _ h)

  raise_revoked-Keeps :
      (v : Value)
      → Keeps Q (
          is_token_revoked c.env (text_of c.env.repr v) >>= λ revoked.
          raise_if revoked (jwt token_revoked))
  raise_revoked-Keeps v =
      bind-Keeps Q (is_token_revoked c.env (text_of c.env.repr v)) _ (is_token_revoked-Keeps _)
        (λ revoked. raise_if-Keeps Q revoked (jwt token_revoked))

  check_revoked-Keeps :
      (keep : Bool) (jti : Option Value) → Keeps Q (check_revoked c.env c.crypto c.secret keep jti)
  unfolding check_revoked
  check_revoked-Keeps false jti = λ s h. h
  check_revoked-Keeps true none = λ s h. h
  check_revoked-Keeps true (some (arr _)) =
      bind-Keeps Q (is_token_revoked c.env "") _ (is_token_revoked-Keeps "") (λ _ s h. h)
  check_revoked-Keeps true (some (obj _)) =
      bind-Keeps Q (is_token_revoked c.env "") _ (is_token_revoked-Keeps "") (λ _ s h. h)
  check_revoked-Keeps true (some v) = raise_revoked-Keeps v

  verify-Keeps :
      (token : List ℕ) (sid scope : String) (keep : Bool)
      → Keeps Q (verify c.env c.crypto c.secret token sid scope keep)
  unfolding verify now_seconds
  verify-Keeps token sid scope keep =
      let e = c.env in
      continue-Keeps Q (check_signature e c.crypto c.secret token) _ (λ payload.
        continue-Keeps Q (loads_segment c.crypto payload malformed_payload) _ (λ v.
          continue-Keeps Q (as_dict v) _ (λ d s h.
            continue-Keeps Q (check_expiry e c.crypto c.secret d (e.time s.clock_reads / second)) _
              (λ _. continue-Keeps Q (check_session e c.crypto c.secret d sid) _ (λ _.
                continue-Keeps Q (check_scope e c.crypto c.secret d scope) _ (λ _.
                  bind-Keeps Q
                    (check_revoked e c.crypto c.secret keep (jti_of e c.crypto c.secret d)) _
                    (check_revoked-Keeps keep _) (λ _ s h. h))))
              _ (tick s _ h))))

-- The same for the objects of the process. A property that the clock, the purge of revoked tokens, the
-- audit log and the count of the tools keep is kept by every command.
module _ {Text : Type 0} (c : Config Text) (P : World Text → Type 0)
    (tick : (w : World Text) (n : ℕ)
      → P w
      → P (record w { store = record w.store { clock_reads = n } }))
    (purge : (w : World Text) (rows : List RevokedToken)
      → P w
      → P (record w { store = record w.store { revoked_tokens = rows } }))
    (audits : (actor action : String) (sid : Option String) (payload : Option Fields)
      → Keeps P (on_store (audit c.env actor action sid payload)))
    (count : (w : World Text) (n : ℕ) → P w → P (record w { tool_calls = n })) where
  verify_on-Keeps :
      (token : List ℕ) (sid : String)
      → Keeps P (on_store (verify c.env c.crypto c.secret token sid "tool" true))
  verify_on-Keeps token sid w h =
      verify-Keeps c (λ s. P (record w { store = s })) (λ s. tick (record w { store = s }))
        (λ s. purge (record w { store = s })) token sid "tool" true w.store h

  exchange-Keeps :
      (sid : String) (token : List ℕ) (audience : String) → Keeps P (exchange c sid token audience)
  unfolding exchange
  exchange-Keeps sid token audience =
      bind-Keeps P (on_store (verify c.env c.crypto c.secret token sid "tool" true)) _
        (verify_on-Keeps token sid)
        (λ _.
          bind-Keeps P (on_store (audit c.env "credentials-proxy" "exchange" (some sid) _)) _
            (audits "credentials-proxy" "exchange" (some sid) _) (λ _ w h. h))

  run_tool-Keeps :
      (sid : String) (token : List ℕ) (name : String) (args : Value)
      → Keeps P (run_tool c sid token name args)
  unfolding run_tool
  run_tool-Keeps sid token name args =
      if_both (Keeps P) (name == "echo") _ _ (λ w h. h)
        (if_both (Keeps P) (name == "uppercase") _ _ (λ w h. h)
          (if_both (Keeps P) (name == "list_files") _ _ (λ w h. h)
            (if_both (Keeps P) (name == "credential") _ _
              (bind-Keeps P (lift (text_arg c args "audience" "tool")) _ (λ w h. h)
                (λ audience. exchange-Keeps sid token audience))
              (λ w h. h))))

  execute_tool-Keeps :
      (sid : String) (token : List ℕ) (name : String) (args : Value)
      → Keeps P (execute_tool c sid token name args)
  unfolding execute_tool
  execute_tool-Keeps sid token name args =
      bind-Keeps P (on_store (verify c.env c.crypto c.secret token sid "tool" true)) _
        (verify_on-Keeps token sid)
        (λ _ w h.
          bind-Keeps P (run_tool c sid token name (args_or_empty args)) _
            (run_tool-Keeps sid token name _)
            (λ result.
              bind-Keeps P (on_store (audit c.env "sandboxd" "execute_tool" (some sid) _)) _
                (audits "sandboxd" "execute_tool" (some sid) _) (λ _ w h. h))
            _ (count w _ h))

  -- Whatever a command of a session does or raises, it keeps such a property.
  pub handle-Keeps :
      (sid : String) (token : List ℕ) (ty : String) (payload : Fields)
      → Keeps P (handle c.env.repr (execute_tool c) sid token ty payload)
  unfolding handle
  handle-Keeps sid token ty payload =
      if_both (Keeps P) (ty == "echo") _ _ (λ w h. h)
        (if_both (Keeps P) (ty == "model") _ _ (λ w h. h)
          (if_both (Keeps P) (ty == "tool") _ _
            (bind-Keeps P (execute_tool c sid token _ (args_of payload)) _
              (execute_tool-Keeps sid token _ (args_of payload)) (λ out w h. h))
            (λ w h. h)))
