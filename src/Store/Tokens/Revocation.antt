-- ===== src/Store/Tokens/Revocation.antt =====
-- What `is_token_revoked` answers after `revoke_token`.
use nadi.Common.{ℕ, ◌≡◌, String, false, not, arith, string_eq, beq_self}
use nadi.Common.Int.{ℤ, pos, ltb_ℤ}
use nadi.Exec.{ok}
use nadi.Sql.{exists_where}
use nadi.Sql.Laws.{exists_where-delete}
use nadi.Store.Schema.{Env, Store}
use nadi.Store.Tokens.{has_jti, revoke_token, is_token_revoked}

module _ {Text : Type 0} (env : Env Text) where
  -- A token that was not revoked before counts as revoked until the clock passes `expires_at`, and no
  -- longer: the answer at the `n`th reading of the clock.
  pub is_token_revoked-revoke_token :
      (jti : String) (expires_at : ℤ) (n : ℕ) (s : Store Text)
      → exists_where (has_jti jti) s.revoked_tokens ≡ false
      → let s' = (revoke_token env jti expires_at s).1 in
        (is_token_revoked env jti (record s' { clock_reads = n })).0
        ≡ ok (not (ltb_ℤ expires_at (pos (env.time n))))
  unfolding revoke_token is_token_revoked
  is_token_revoked-revoke_token jti expires_at n s h = ground (
    arith,
    h,
    beq_self jti,
    exists_where-delete (has_jti jti) (λ r. ltb_ℤ r.expires_at (pos (env.time n))) s.revoked_tokens
        (record { jti = jti; expires_at = expires_at; revoked_at = env.time s.clock_reads }) h,
  )
