-- ===== src/Security/Jwt/Verified.antt =====
-- What a token must be for `verify` to accept it.
use mathlib.Core.Path.{subst}
use nadi.Common.{
  ℕ, suc, ◌/◌, ◌≡◌, refl, ap, ◌∙◌, sym, String, Bool, true, ◌⊎◌, inl, inr, Option, none, some, List,
  [], ◌∷◌, ◌++◌, nat_eq, string_eq, eq_iff, arith, Bool-cases, Option-cases,
}
use nadi.Strings.{words}
use nadi.Common.Int.{ℤ, pos, ◌≤ℤ◌, second}
use nadi.Json.{Value, Fields, num, str, obj, get, get_or, text_of}
use nadi.Exec.{
  Action, Result, ok, err, lift, JwtError, malformed_header, malformed_payload, then_result,
  continue, pure, ◌>>=◌,
}
use nadi.Store.Schema.{Env, Store}
use nadi.Security.Base64.{b64d}
use nadi.Security.Jwt.{
  Crypto, cut, same_text, dotted, split_dots, three_parts, contains, is_text, number_of,
  loads_segment, as_dict, signature, check_expiry, check_session, check_scope, check_revoked,
  jti_of, check_parts, check_signature, verify,
}

same_text_eq : (a b : List ℕ) → same_text a b ≡ true → a ≡ b
same_text_eq [] [] h = refl
same_text_eq [] (y ∷ ys) h = absurd (cc)
same_text_eq (x ∷ xs) [] h = absurd (cc)
same_text_eq (x ∷ xs) (y ∷ ys) h = ground (arith, same_text_eq xs ys)

is_text_eq : (v : Option Value) (k : String) → is_text v k ≡ true → v ≡ some (str k)
is_text_eq none k h = absurd (cc)
is_text_eq (some (str t)) k h = ap (λ x. some (str x)) ((eq_iff t k).0 h)
is_text_eq (some _) k h = absurd (cc)

-- The dots put back between the parts.
abbrev join_dots : List (List ℕ) → List ℕ
join_dots [] = []
join_dots (a ∷ []) = a
join_dots (a ∷ b ∷ rest) = a ++ b'.' ∷ join_dots (b ∷ rest)

join_dots-cut : (c : ℕ) (parts : List (List ℕ)) → join_dots (cut c parts) ≡ c ∷ join_dots parts
join_dots-cut c [] = refl
join_dots-cut c (part ∷ []) = ground arith
join_dots-cut c (part ∷ next ∷ parts) = ground arith

-- Splitting loses nothing.
split_dots_join : (cs : List ℕ) → join_dots (split_dots cs) ≡ cs
unfolding split_dots
split_dots_join [] = refl
split_dots_join (c ∷ cs) = join_dots-cut c (split_dots cs) ∙ ap (λ l. c ∷ l) (split_dots_join cs)

three_parts_eq :
    (parts : List (List ℕ)) (a b c : List ℕ)
    → three_parts parts ≡ some (a, b, c)
    → parts ≡ a ∷ b ∷ c ∷ []
three_parts_eq [] a b c h = absurd (cc)
three_parts_eq (x ∷ []) a b c h = absurd (cc)
three_parts_eq (x ∷ y ∷ []) a b c h = absurd (cc)
three_parts_eq (x ∷ y ∷ z ∷ []) a b c h = ground arith
three_parts_eq (x ∷ y ∷ z ∷ w ∷ r) a b c h = absurd (cc)

-- A first step that does not touch the state, in an action that returns.
lift_ok :
    {S A B : Type 0} (r : Result A) (f : A → Action S B) (s s' : S) (b : B)
    → (lift r >>= f) s ≡ (ok b, s')
    → (a : A) × (r ≡ ok a) × (f a s ≡ (ok b, s'))
lift_ok (ok a) f s s' b h = (a, refl, h)
lift_ok (err e) f s s' b h = absurd (ground arith)

module _ {Text : Type 0} (env : Env Text) (c : Crypto) (secret : List ℕ) where
  -- A token that carries the claims `d` for a session and a scope at time `t`, in seconds: its third
  -- part is the HMAC of the first two, the claims are those that its second part encodes, they name
  -- the session, they grant the scope, and they have not expired.
  pub record Genuine (token : List ℕ) (session_id scope : String) (t : ℕ) (d : Fields)
      : Type 0 where
    pub head : List ℕ
    pub payload : List ℕ
    pub bytes : List ℕ
    pub expires : ℤ
    pub signed : token ≡ dotted head (dotted payload (signature env c secret (dotted head payload)))
    pub decoded : b64d payload ≡ some bytes
    pub loaded : c.loads bytes ≡ some (obj d)
    pub session : get d "sid" ≡ some (str session_id)
    pub scoped :
        (contains scope (words (text_of env.repr (get_or d "scope" (str "")))) ≡ true)
        ⊎ (get d "scope" ≡ some (str "*"))
    pub expiry : number_of (get_or d "exp" (num (pos 0))) ≡ some expires
    pub alive : pos t ≤ℤ expires

  then_result_ok :
      {A B : Type 0} (r : Result A) (f : A → Result B) (b : B)
      → then_result r f ≡ ok b
      → (a : A) × (r ≡ ok a) × (f a ≡ ok b)
  then_result_ok (ok a) f b h = (a, refl, h)
  then_result_ok (err e) f b h = absurd (cc)

  check_parts_ok :
      (head payload sig p : List ℕ)
      → check_parts env c secret head payload sig ≡ ok p
      → (payload ≡ p) × (same_text (signature env c secret (dotted head payload)) sig ≡ true)
  check_parts_ok head payload sig p h =
      let (v, _, h1) = then_result_ok (loads_segment c head malformed_header) _ p h in
      let (d, _, h2) = then_result_ok (as_dict v) _ p h1 in ground (arith, h2)

  -- `check_signature` accepts a token only with the right third part.
  check_signature_ok :
      (token payload : List ℕ)
      → check_signature env c secret token ≡ ok payload
      → (head : List ℕ) × (token
          ≡ dotted head (dotted payload (signature env c secret (dotted head payload))))
  unfolding check_signature
  check_signature_ok token payload h = elim (Option-cases (three_parts (split_dots token))) [
    | inl e ↦ absurd (ground (arith, e, h))
    | inr ((head, p, sig), e) ↦
        let (same, mac) = check_parts_ok head p sig payload (rw (e, check_signature) at h) in
        (
          head,
          sym (split_dots_join token)
              ∙ ap join_dots (three_parts_eq (split_dots token) head p sig e)
              ∙ cc (same, same_text_eq _ sig mac),
        )
  ]

  loads_segment_ok :
      (segment : List ℕ) (e : JwtError) (v : Value)
      → loads_segment c segment e ≡ ok v
      → (bytes : List ℕ) × (b64d segment ≡ some bytes) × (c.loads bytes ≡ some v)
  loads_segment_ok segment e v h = elim (Option-cases (b64d segment)) [
    | inl n ↦ absurd (ground (arith, n, h))
    | inr (bytes, s) ↦ (bytes, s, ground (arith, s, h))
  ]

  as_dict_ok : (v : Value) (d : Fields) → as_dict v ≡ ok d → v ≡ obj d
  as_dict_ok (obj d) d' h = cc
  as_dict_ok _ d' h = absurd (cc)

  continue-pure :
      (r : Result (Unit {0})) (a b : Fields) (s s' : Store Text)
      → continue r (λ _. pure a) s ≡ (ok b, s')
      → a ≡ b
  continue-pure (ok _) a b s s' h = cc
  continue-pure (err e) a b s s' h = absurd (ground arith)

  check_expiry_ok :
      (d : Fields) (t : ℕ)
      → check_expiry env c secret d t ≡ ok tt
      → (e : ℤ) × (number_of (get_or d "exp" (num (pos 0))) ≡ some e) × (pos t ≤ℤ e)
  unfolding check_expiry
  check_expiry_ok d t h = elim (Option-cases (number_of (get_or d "exp" (num (pos 0))))) [
    | inl n ↦ absurd (ground (arith, n, h))
    | inr (e, k) ↦ (e, k, ground (arith, k, h))
  ]

  check_session_ok :
      (d : Fields) (session_id : String)
      → check_session env c secret d session_id ≡ ok tt
      → get d "sid" ≡ some (str session_id)
  unfolding check_session
  check_session_ok d session_id h = is_text_eq (get d "sid") session_id (ground (arith, h))

  check_scope_ok :
      (d : Fields) (scope : String)
      → check_scope env c secret d scope ≡ ok tt
      → (contains scope (words (text_of env.repr (get_or d "scope" (str "")))) ≡ true)
        ⊎ (get d "scope" ≡ some (str "*"))
  unfolding check_scope
  check_scope_ok d scope h =
      elim (Bool-cases (contains scope (words (text_of env.repr (get_or d "scope" (str "")))))) [
        | inl e ↦ inl e
        | inr e ↦ inr (is_text_eq (get d "scope") "*" (ground (arith, e, h)))
      ]

  -- Whatever `verify` accepts is a genuine token of the session and the scope, at the second that the
  -- clock showed; the claims that it returns are the token's.
  pub verify-Genuine :
      (token : List ℕ) (session_id scope : String) (with_store : Bool) (d : Fields)
      (s s' : Store Text)
      → verify env c secret token session_id scope with_store s ≡ (ok d, s')
      → Genuine token session_id scope (env.time s.clock_reads / second) d
  unfolding verify
  verify-Genuine token session_id scope with_store d s s' h =
      let t = env.time s.clock_reads / second in
      let s1 = record s { clock_reads = suc s.clock_reads } in
      let (payload, e1, h1) = lift_ok (check_signature env c secret token) _ s s' d h in
      let (v, e2, h2) = lift_ok (loads_segment c payload malformed_payload) _ s s' d h1 in
      let (d', e3, h3) = lift_ok (as_dict v) _ s s' d h2 in
      let (_, e4, h4) = lift_ok (check_expiry env c secret d' t) _ s1 s' d h3 in
      let (_, e5, h5) = lift_ok (check_session env c secret d' session_id) _ s1 s' d h4 in
      let (_, e6, h6) = lift_ok (check_scope env c secret d' scope) _ s1 s' d h5 in
      let (r, s2) = check_revoked env c secret with_store (jti_of env c secret d') s1 in
      let same : d' ≡ d = continue-pure r d' d s2 s' h6 in
      let (head, signed) = check_signature_ok token payload e1 in
      let (bytes, decoded, loaded) = loads_segment_ok payload malformed_payload v e2 in
      let (expires, expiry, alive) = check_expiry_ok d' t e4 in
      subst (Genuine token session_id scope t) same (record {
        head = head;
        payload = payload;
        bytes = bytes;
        expires = expires;
        signed = signed;
        decoded = decoded;
        loaded = loaded ∙ ap some (as_dict_ok v d' e3);
        session = check_session_ok d' session_id e5;
        scoped = check_scope_ok d' scope e6;
        expiry = expiry;
        alive = alive;
      })
