-- ===== src/Security/Jwt/Tests.antt =====
-- Tokens at concrete inputs: a signing function and a JSON codec of one byte each.
use nadi.Common.{suc, ◌/◌, ◌≡◌, refl, ap, true, [], arith, inl, if◌then◌else◌}
use nadi.Strings.{words}
use nadi.Common.Int.{◌+ℤ◌, pos, ltb_ℤ, seconds, second}
use nadi.Exec.{ok, err, jwt, token_revoked}
use nadi.Sql.{exists_where, delete_where}
use nadi.Store.Fixture.{test_env, small_store}
use nadi.Store.Tokens.{revoke_token, is_token_revoked}
use nadi.Security.Jwt.Fixture.{test_claims, test_crypto, test_crypto-IsCodec, test_token}
use nadi.Security.Jwt.{sign, now_seconds, verify, contains}
use nadi.Security.Jwt.Verified.{Genuine, verify-Genuine}
use nadi.Security.Jwt.Signed.{signed}
use nadi.Security.Jwt.SignVerify.{verify-sign, verify-signed, verify-revoke_token}

verify-sign_example :
    (verify test_env test_crypto [] test_token "s1" "tool" true small_store).0 ≡ ok test_claims
unfolding words contains is_token_revoked exists_where delete_where sign now_seconds ◌+ℤ◌
verify-sign_example =
    verify-sign test_env test_crypto [] "cell-local" "s1" "cell tool" "tool" (pos 50) small_store
      small_store test_token refl test_crypto-IsCodec (omega arith) (inl refl) refl refl

verify-revoke_token_example :
    let s' = (revoke_token test_env "iiii" (seconds (pos 60)) small_store).1 in
    (verify test_env test_crypto []
      (signed test_env test_crypto [] test_claims)
      "s1"
      "tool"
      true
      s').0
    ≡ (if ltb_ℤ (seconds (pos 60)) (pos (test_env.time (suc s'.clock_reads)))
        then ok test_claims
        else err (jwt token_revoked))
unfolding words contains exists_where revoke_token
verify-revoke_token_example =
    verify-revoke_token test_env test_crypto [] "cell-local" "s1" "cell tool" (pos 60) "iiii" "tool"
      small_store test_crypto-IsCodec refl (omega arith) (inl refl) refl

accepted :
    (verify test_env test_crypto [] test_token "s1" "tool" true small_store).0 ≡ ok test_claims
unfolding words contains is_token_revoked exists_where delete_where
accepted =
    verify-signed test_env test_crypto [] "cell-local" "s1" "cell tool" (pos 60) "iiii" "tool"
      small_store test_crypto-IsCodec (omega arith) (inl refl) refl refl

verify-Genuine_example :
    Genuine test_env test_crypto [] test_token "s1" "tool"
      (test_env.time small_store.clock_reads / second)
      test_claims
verify-Genuine_example =
    verify-Genuine test_env test_crypto [] test_token "s1" "tool" true test_claims small_store
      (verify test_env test_crypto [] test_token "s1" "tool" true small_store).1
      (ap (λ r. (r, (verify test_env test_crypto [] test_token "s1" "tool" true small_store).1))
        accepted)
