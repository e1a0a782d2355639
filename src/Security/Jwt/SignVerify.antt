-- ===== src/Security/Jwt/SignVerify.antt =====
-- `verify` accepts what `sign` makes, and what revocation adds to that.

use nadi.Common.{
  sym, ℕ, suc, ◌/◌, ◌≡◌, refl, ◌∙◌, String, Bool, true, false, not, ◌⊎◌, inl, inr, some, List,
  nat_eq, string_eq, eq_iff, beq_self, if◌then◌else◌, arith,
}
use nadi.Strings.{words}
use nadi.Common.Int.{ℤ, pos, ◌+ℤ◌, ◌≤ℤ◌, ltb_ℤ, min_ℤ, second, seconds}
use nadi.Json.{Fields, str, get, get_or, is_truthy}
use nadi.Exec.{Result, ok, err, jwt, token_revoked, raise_if, then_result, continue}
use nadi.Sql.{exists_where}
use nadi.Store.Schema.{Env, Store}
use nadi.Store.Tokens.{has_jti, revoke_token, is_token_revoked}
use nadi.Store.Tokens.Revocation.{is_token_revoked-revoke_token}
use nadi.Security.Jwt.{
  Crypto, claims, contains, sign, check_expiry, check_session, check_scope, check_revoked, verify,
  max_ttl_seconds, jti_of,
}
use nadi.Security.Jwt.Signed.{signed, IsCodec, verify_signed}

negated :
    (late : Bool) (d : Fields)
    → then_result (if not late then err (jwt token_revoked) else ok tt) (λ _. ok d)
      ≡ (if late then ok d else err (jwt token_revoked))
negated true d = refl
negated false d = refl

continue_flag :
    {S : Type 0} (r : Result Bool) (b : Bool) (s : S)
    → r ≡ ok b
    → (continue r (λ flag. raise_if flag (jwt token_revoked)) s).0
      ≡ (if b then err (jwt token_revoked) else ok tt)
continue_flag r b s e = rw e (ground arith)

module _ {Text : Type 0} (env : Env Text) (c : Crypto) (secret : List ℕ) where
  -- The claims of a token as `sign` makes it.
  module _ (subject session_id scope : String) (exp : ℤ) (jti : String) where
    abbrev cl : Fields
    cl = claims subject session_id scope exp jti

    claims_alive : (t : ℕ) → pos t ≤ℤ exp → check_expiry env c secret cl t ≡ ok tt
    unfolding check_expiry get_or
    claims_alive t h = ground arith

    claims_session : check_session env c secret cl session_id ≡ ok tt
    unfolding check_session get
    claims_session = rw (beq_self session_id)

    claims_scope :
        (wanted : String)
        → (contains wanted (words scope) ≡ true) ⊎ (scope ≡ "*")
        → check_scope env c secret cl wanted ≡ ok tt
    unfolding check_scope get_or
    claims_scope wanted (inl e) = rw e
    claims_scope wanted (inr e) = rw ((eq_iff scope "*").1 e) (ground arith)

    claims_jti : is_truthy (str jti) ≡ true → jti_of env c secret cl ≡ some (str jti)
    unfolding get
    claims_jti h = rw h

    check_revoked_lem :
        (s : Store Text) (b : Bool)
        → is_truthy (str jti) ≡ true
        → (is_token_revoked env jti s).0 ≡ ok b
        → (check_revoked env c secret true (jti_of env c secret cl) s).0
          ≡ (if b then err (jwt token_revoked) else ok tt)
    unfolding check_revoked
    check_revoked_lem s b named e = rw (claims_jti named) (continue_flag _ b _ e)

    pub verify-signed_revoked :
        (wanted : String) (s : Store Text) (b : Bool)
        → IsCodec env c secret cl
        → pos (env.time s.clock_reads / second) ≤ℤ exp
        → (contains wanted (words scope) ≡ true) ⊎ (scope ≡ "*")
        → is_truthy (str jti) ≡ true
        → (is_token_revoked env jti (record s { clock_reads = suc s.clock_reads })).0 ≡ ok b
        → (verify env c secret (signed env c secret cl) session_id wanted true s).0
          ≡ then_result (if b then err (jwt token_revoked) else ok tt) (λ _. ok cl)
    verify-signed_revoked wanted s b codec alive granted named kept =
        verify_signed env c secret cl codec session_id wanted s _ (claims_alive _ alive)
          claims_session (claims_scope wanted granted) (check_revoked_lem _ b named kept)

    -- A token with such claims is accepted, with its claims, as long as the clock does not pass its
    -- expiry, for its session, for each scope that it grants, while the store does not count it as
    -- revoked.
    pub verify-signed :
        (wanted : String) (s : Store Text)
        → IsCodec env c secret cl
        → pos (env.time s.clock_reads / second) ≤ℤ exp
        → (contains wanted (words scope) ≡ true) ⊎ (scope ≡ "*")
        → is_truthy (str jti) ≡ true
        → (is_token_revoked env jti (record s { clock_reads = suc s.clock_reads })).0 ≡ ok false
        → (verify env c secret (signed env c secret cl) session_id wanted true s).0 ≡ ok cl
    verify-signed wanted s codec alive granted named kept =
        verify-signed_revoked wanted s false codec alive granted named kept

    -- A token with such claims, which has not expired by the clock's full seconds, presented to `verify`
    -- right after its revocation: it is refused as long as the clock, read a second time, has not passed the
    -- expiry itself; in the last second, between the expiry and the next full second, it is accepted
    -- again. Its identifier is not empty and was not revoked before (a row that is there would keep
    -- its own expiry), its scope grants what is wanted, and the signing functions give back what they wrote.
    pub verify-revoke_token :
        (wanted : String) (s : Store Text)
        → IsCodec env c secret cl
        → exists_where (has_jti jti) s.revoked_tokens ≡ false
        → let s' = (revoke_token env jti (seconds exp) s).1 in
          pos (env.time s'.clock_reads / second) ≤ℤ exp
          → (contains wanted (words scope) ≡ true) ⊎ (scope ≡ "*")
          → is_truthy (str jti) ≡ true
          → (verify env c secret (signed env c secret cl) session_id wanted true s').0 ≡ (
              if ltb_ℤ (seconds exp) (pos (env.time (suc s'.clock_reads)))
              then ok cl
              else err (jwt token_revoked))
    verify-revoke_token wanted s codec new alive granted named =
        let s' = (revoke_token env jti (seconds exp) s).1 in
        let n = suc s'.clock_reads in
        let late = ltb_ℤ (seconds exp) (pos (env.time n)) in
        verify-signed_revoked wanted s' (not late) codec alive granted named
          (is_token_revoked-revoke_token env jti (seconds exp) n s new)
        ∙ negated late cl

  -- A token that `sign` returned is accepted later on, with its claims, as long as the clock's full
  -- seconds do not pass its expiry, for its session, for each scope that it grants, while the store
  -- does not count it as revoked; the library functions give back what they wrote.
  pub verify-sign :
      (subject session_id scope wanted : String) (ttl : ℤ) (s0 s : Store Text) (token : List ℕ)
      → let exp = pos (env.time s0.clock_reads / second) +ℤ min_ℤ ttl max_ttl_seconds in
        let jti = env.uuid s0.uuid_reads in
        let d = claims subject session_id scope exp jti in
        (sign env c secret session_id scope ttl subject s0).0 ≡ ok token
        → IsCodec env c secret d
        → pos (env.time s.clock_reads / second) ≤ℤ exp
        → (contains wanted (words scope) ≡ true) ⊎ (scope ≡ "*")
        → is_truthy (str jti) ≡ true
        → (is_token_revoked env jti (record s { clock_reads = suc s.clock_reads })).0 ≡ ok false
        → (verify env c secret token session_id wanted true s).0 ≡ ok d
  unfolding sign
  verify-sign subject session_id scope wanted ttl s0 s token made codec alive granted named kept =
      let exp = pos (env.time s0.clock_reads / second) +ℤ min_ℤ ttl max_ttl_seconds in
      let jti = env.uuid s0.uuid_reads in
      let same : signed env c secret (claims subject session_id scope exp jti) ≡ token = cc in
      rw (sym same)
        (verify-signed subject session_id scope exp jti wanted s codec alive granted named kept)
