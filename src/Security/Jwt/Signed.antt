-- ===== src/Security/Jwt/Signed.antt =====
-- The token that `sign` makes, and what `verify` sees of it: its three parts, their signature, and the
-- claims that decide.
use mathlib.Core.List.{append_assoc}
use nadi.Common.{
  ℕ, suc, ◌/◌, ◌≡◌, refl, ap, ◌∙◌, String, true, some, List, [], ◌∷◌, All, nat_eq, string_eq,
  beq_self, arith,
}
use nadi.Common.Int.{ℤ, pos, ◌+ℤ◌, min_ℤ, second}
use nadi.Json.{Value, Fields, obj, get}
use nadi.Exec.{
  Action, Result, ok, lift, JwtError, malformed_header, malformed_payload, then_result, pure,
  continue, ◌>>=◌,
}
use nadi.Store.Schema.{Env, Store}
use nadi.Security.Base64.{b64e}
use nadi.Security.Base64.RoundTrip.{IsBytes, IsPlain, b64d-b64e, b64e-IsPlain, is_ascii_plain}
use nadi.Security.Jwt.{
  Crypto, cut, same_text, dotted, split_dots, header, claims, loads_segment, signature, sign,
  check_expiry, check_session, check_scope, check_revoked, check_signature, verify, max_ttl_seconds,
  jti_of,
}

same_text_refl : (a : List ℕ) → same_text a a ≡ true
same_text_refl [] = refl
same_text_refl (x ∷ xs) = rw (beq_self x) (same_text_refl xs)

split_dots_plain : (a : List ℕ) → All IsPlain a → split_dots a ≡ a ∷ []
unfolding split_dots
split_dots_plain [] h = refl
split_dots_plain (x ∷ xs) h = rw (split_dots_plain xs h.1) (ground (arith, h.0.2))

cut_dot_cut : (c : ℕ) (parts : List (List ℕ)) → cut b'.' (cut c parts) ≡ [] ∷ cut c parts
cut_dot_cut c [] = refl
cut_dot_cut c (part ∷ parts) = ground arith

cut_dot : (rest : List ℕ) → cut b'.' (split_dots rest) ≡ [] ∷ split_dots rest
unfolding split_dots
cut_dot [] = refl
cut_dot (c ∷ cs) = cut_dot_cut c (split_dots cs)

split_dots-dotted :
    (a rest : List ℕ) → All IsPlain a → split_dots (dotted a rest) ≡ a ∷ split_dots rest
unfolding split_dots
split_dots-dotted [] rest h = cut_dot rest
split_dots-dotted (x ∷ xs) rest h = rw (split_dots-dotted xs rest h.1) (ground (arith, h.0.2))

lift_step :
    {S A B : Type 0} (r : Result A) (a : A) (f : A → Action S B) (s : S)
    → r ≡ ok a
    → (lift r >>= f) s ≡ f a s
lift_step r a f s e = rw e

continue_result :
    {S : Type 0} (q r : Result (Unit {0})) (d : Fields) (s : S)
    → q ≡ r
    → (continue q (λ _. pure d) s).0 ≡ then_result r (λ _. ok d)
continue_result q r d s e = rw e (ground arith)

module _ {Text : Type 0} (env : Env Text) (c : Crypto) (secret : List ℕ) where
  -- The token that carries a dictionary of claims.
  abbrev pub signed : Fields → List ℕ
  signed d =
      let body = dotted (b64e (c.dumps header)) (b64e (c.dumps d)) in
      dotted body (signature env c secret body)

  -- `sign` never fails. The token expires after the given time, or after a day if that is sooner.
  sign_lem :
      (session_id scope subject : String) (ttl : ℤ) (s : Store Text)
      → sign env c secret session_id scope ttl subject s ≡ (
        ok (
            signed (
              claims subject session_id scope
                (pos (env.time s.clock_reads / second) +ℤ min_ℤ ttl max_ttl_seconds)
                (env.uuid s.uuid_reads))),
        record s { clock_reads = suc s.clock_reads; uuid_reads = suc s.uuid_reads },
      )
  unfolding sign
  sign_lem session_id scope subject ttl s = refl

  -- The library functions give back what they wrote, in bytes.
  pub record IsCodec (d : Fields) : Type 0 where
    pub header_bytes : IsBytes (c.dumps header)
    pub bytes : IsBytes (c.dumps d)
    pub mac_bytes : (text : List ℕ) → IsBytes (c.hmac_sha256 secret text)
    pub header_back : c.loads (c.dumps header) ≡ some (obj header)
    pub back : c.loads (c.dumps d) ≡ some (obj d)

  module _ (d : Fields) (codec : IsCodec d) where
    pub split_signed :
        split_dots (signed d)
        ≡ b64e (c.dumps header)
          ∷ b64e (c.dumps d)
          ∷ signature env c secret (dotted (b64e (c.dumps header)) (b64e (c.dumps d)))
          ∷ []
    split_signed =
        let body = dotted (b64e (c.dumps header)) (b64e (c.dumps d)) in
        rw (
          append_assoc,
          split_dots-dotted (b64e (c.dumps header)) _
              (b64e-IsPlain (c.dumps header) codec.header_bytes),
          split_dots-dotted (b64e (c.dumps d)) _ (b64e-IsPlain (c.dumps d) codec.bytes),
          split_dots_plain (signature env c secret body)
              (b64e-IsPlain (c.hmac_sha256 secret body) (codec.mac_bytes body)),
        )

    loads_segment_back :
        (bytes : List ℕ) (v : Value) (e : JwtError)
        → IsBytes bytes
        → c.loads bytes ≡ some v
        → loads_segment c (b64e bytes) e ≡ ok v
    loads_segment_back bytes v e h back = rw (b64d-b64e bytes h, loads_segment, back)

    check_signature_signed : check_signature env c secret (signed d) ≡ ok (b64e (c.dumps d))
    unfolding check_signature get
    check_signature_signed =
        let body = dotted (b64e (c.dumps header)) (b64e (c.dumps d)) in
        let mac = signature env c secret body in
        rw (
          split_signed,
          check_signature,
          loads_segment_back (c.dumps header) (obj header) malformed_header codec.header_bytes
              codec.header_back,
          is_ascii_plain mac (b64e-IsPlain (c.hmac_sha256 secret body) (codec.mac_bytes body)),
          same_text_refl mac,
        )

    -- A signed token is judged by its claims alone.
    pub verify_signed :
        (session_id scope : String) (s : Store Text) (r : Result (Unit {0}))
        → let t = env.time s.clock_reads / second in
          let s1 = record s { clock_reads = suc s.clock_reads } in
          check_expiry env c secret d t ≡ ok tt
          → check_session env c secret d session_id ≡ ok tt
          → check_scope env c secret d scope ≡ ok tt
          → (check_revoked env c secret true (jti_of env c secret d) s1).0 ≡ r
          → (verify env c secret (signed d) session_id scope true s).0 ≡ then_result r (λ _. ok d)
    unfolding verify
    verify_signed session_id scope s r alive mine granted kept =
        let s1 = record s { clock_reads = suc s.clock_reads } in
        ap (λ x. x.0)
          (lift_step (check_signature env c secret (signed d)) (b64e (c.dumps d)) _ s
              check_signature_signed
            ∙ lift_step (loads_segment c (b64e (c.dumps d)) malformed_payload) (obj d) _ s
                (loads_segment_back (c.dumps d) (obj d) malformed_payload codec.bytes codec.back)
            ∙ lift_step (check_expiry env c secret d (env.time s.clock_reads / second)) tt _ s1
                alive
            ∙ lift_step (check_session env c secret d session_id) tt _ s1 mine
            ∙ lift_step (check_scope env c secret d scope) tt _ s1 granted)
        ∙ continue_result (check_revoked env c secret true (jti_of env c secret d) s1).0 r d _ kept
