-- ===== src/Store/Tokens.antt =====
-- The table `revoked_tokens`: `revoke_token` and `is_token_revoked`.
pub mod Revocation
use nadi.Common.{String, Bool, [], ◌∷◌, ◌++◌, ◌==◌, string_eq}
use nadi.Common.Int.{ℤ, pos, ltb_ℤ}
use nadi.Exec.{Action, gets, modify, ◌>>=◌, ◌>>◌}
use nadi.Sql.{delete_where, exists_where}
use nadi.Store.Schema.{Env, RevokedToken, Store, now}

abbrev pub has_jti : String → RevokedToken → Bool
has_jti jti row = row.jti == jti

module _ {Text : Type 0} (env : Env Text) where
  -- INSERT OR IGNORE on the primary key `jti`
  unfoldable pub revoke_token : String → ℤ → Action (Store Text) (Unit {0})
  unfolding now
  revoke_token jti expires_at = do
    t ← now env
    modify (λ s. record s {
      revoked_tokens = elim (exists_where (has_jti jti) s.revoked_tokens) [
        | Bool.true ↦ s.revoked_tokens
        | Bool.false ↦
            s.revoked_tokens ++ record { jti = jti; expires_at = expires_at; revoked_at = t } ∷ []
      ];
    })

  -- The rows that have expired are purged first.
  unfoldable pub is_token_revoked : String → Action (Store Text) Bool
  unfolding now
  is_token_revoked jti = do
    t ← now env
    modify (λ s. record s {
      revoked_tokens = delete_where (λ r. ltb_ℤ r.expires_at (pos t)) s.revoked_tokens;
    })
    gets (λ s. exists_where (has_jti jti) s.revoked_tokens)
