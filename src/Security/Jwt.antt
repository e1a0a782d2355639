-- ===== src/Security/Jwt.antt =====
-- `SessionJWT` of nadi/security.py. A token is the list of its code points.
pub mod Verified
pub mod Signed
pub mod SignVerify
pub mod Fixture
mod Tests
use Prim.Native.Char.{code}
use nadi.Common.{
  ℕ, suc, ◌+◌, ◌*◌, ◌/◌, String, Bool, true, false, not, ◌&&◌, ◌||◌, Option, none, some, List, [],
  ◌∷◌, ◌++◌, leb, ltb, ◌==◌, nat_eq, string_eq, if◌then◌else◌, length,
}
use nadi.Strings.{words}
use nadi.Common.Int.{ℤ, pos, negsuc, ◌+ℤ◌, ltb_ℤ, min_ℤ, second}
use nadi.Json.{
  Value, Fields, null, bool, num, str, arr, obj, end, field, get, get_or, is_truthy, text_of,
}
use nadi.Exec.{
  Action, JwtError, malformed_token, malformed_header, unsupported_algorithm, bad_signature,
  malformed_payload, token_expired, wrong_session, missing_scope, token_revoked, Result, ok, err,
  jwt, attribute_error, type_error, pure, raise, lift, gets, or_raise, raise_if, then_result, ◌>>=◌,
  ◌>>◌,
}
use nadi.Store.Schema.{Env, Store, now, uuid4}
use nadi.Store.Tokens.{is_token_revoked}
use nadi.Security.Base64.{b64e, b64d, is_ascii}

-- HMAC-SHA256 of the UTF-8 bytes of a text under a key, and `json` between values and bytes, as
-- `SessionJWT` calls them.
pub record Crypto : Type 0 where
  pub hmac_sha256 : List ℕ → List ℕ → List ℕ
  pub dumps : Fields → List ℕ
  pub loads : List ℕ → Option Value

-- A list beside `==`, compared item by item.
abbrev pub same_text : List ℕ → List ℕ → Bool
same_text [] [] = true
same_text (a ∷ as') (b ∷ bs) = a == b && same_text as' bs
same_text _ _ = false

-- `_MAX_TTL_SECONDS`
abbrev pub max_ttl_seconds : ℤ
max_ttl_seconds = pos 86400

abbrev pub header : Fields
header = field "alg" (str "HS256") (field "typ" (str "JWT") end)

abbrev pub claims : String → String → String → ℤ → String → Fields
claims subject session_id scope exp jti = field "sub" (str subject) (
    field "sid" (str session_id)
      (field "scope" (str scope) (field "exp" (num exp) (field "jti" (str jti) end))))

-- `a.b`
abbrev pub dotted : List ℕ → List ℕ → List ℕ
dotted a b = a ++ b'.' ∷ b

-- One more character before the parts: a dot begins a new part, and any other goes to the first.
abbrev pub cut : ℕ → List (List ℕ) → List (List ℕ)
cut c [] = (c ∷ []) ∷ []
cut c (part ∷ parts) = if c == b'.' then [] ∷ part ∷ parts else (c ∷ part) ∷ parts

-- `text.split(".")`
unfoldable pub split_dots : List ℕ → List (List ℕ)
split_dots [] = [] ∷ []
split_dots (c ∷ cs) = cut c (split_dots cs)

-- the unpacking into three parts
abbrev pub three_parts : List (List ℕ) → Option (List ℕ × List ℕ × List ℕ)
three_parts (a ∷ b ∷ c ∷ []) = some (a, b, c)
three_parts _ = none

unfoldable pub contains : String → List String → Bool
contains k [] = false
contains k (w ∷ ws) = w == k || contains k ws

-- `value == text`
abbrev pub is_text : Option Value → String → Bool
is_text (some (str t)) k = t == k
is_text _ k = false

-- A number for `<`; Python's booleans are numbers too.
abbrev pub number_of : Value → Option ℤ
number_of (num n) = some n
number_of (bool true) = some (pos 1)
number_of (bool false) = some (pos 0)
number_of _ = none

-- `json.loads` of a segment, with the exception of each place
abbrev pub loads_segment : Crypto → List ℕ → JwtError → Result Value
loads_segment c segment e = elim (b64d segment) [
  | none ↦ err (jwt e)
  | some bytes ↦ elim (c.loads bytes) [ none ↦ err (jwt e) | some v ↦ ok v ]
]

-- `.get` is there on a dictionary alone.
abbrev pub as_dict : Value → Result Fields
as_dict (obj d) = ok d
as_dict _ = err attribute_error

module _ {Text : Type 0} (env : Env Text) (c : Crypto) (secret : List ℕ) where
  abbrev pub signature : List ℕ → List ℕ
  signature body = b64e (c.hmac_sha256 secret body)

  -- `int(time.time())`
  unfoldable pub now_seconds : Action (Store Text) ℕ
  unfolding now
  now_seconds = do t ← now env; pure (t / second)

  unfoldable pub sign : String → String → ℤ → String → Action (Store Text) (List ℕ)
  unfolding now_seconds uuid4 ◌+ℤ◌
  sign session_id scope ttl_seconds subject = do
    let ttl = min_ℤ ttl_seconds max_ttl_seconds
    t ← now_seconds
    jti ← uuid4 env
    let exp = pos t +ℤ ttl
    let body =
        dotted (b64e (c.dumps header)) (b64e (c.dumps (claims subject session_id scope exp jti)))
    pure (dotted body (signature body))

  -- The checks on the payload, in their order.
  unfoldable pub check_expiry : Fields → ℕ → Result (Unit {0})
  check_expiry d t = elim (number_of (get_or d "exp" (num (pos 0)))) [
    | none ↦ err type_error
    | some e ↦ if ltb_ℤ e (pos t) then err (jwt token_expired) else ok tt
  ]

  unfoldable pub check_session : Fields → String → Result (Unit {0})
  check_session d session_id =
      if is_text (get d "sid") session_id then ok tt else err (jwt wrong_session)

  unfoldable pub check_scope : Fields → String → Result (Unit {0})
  check_scope d scope =
      let scopes = words (text_of env.repr (get_or d "scope" (str ""))) in
      if not (contains scope scopes) && not (is_text (get d "scope") "*")
      then err (jwt missing_scope)
      else ok tt

  -- `jti and store.is_token_revoked(jti)`; `none` stands for a missing or empty `jti`.
  abbrev pub jti_of : Fields → Option Value
  jti_of d = elim (get d "jti") [ none ↦ none | some v ↦ if is_truthy v then some v else none ]

  -- sqlite3 refuses a list or a dictionary as a parameter of the SELECT, after the DELETE.
  unfoldable pub check_revoked : Bool → Option Value → Action (Store Text) (Unit {0})
  check_revoked false jti = pure tt
  check_revoked true none = pure tt
  check_revoked true (some (arr _)) = is_token_revoked env "" >> raise type_error
  check_revoked true (some (obj _)) = is_token_revoked env "" >> raise type_error
  check_revoked true (some v) = do
    revoked ← is_token_revoked env (text_of env.repr v)
    raise_if revoked (jwt token_revoked)

  -- The checks on the header and on the signature; the result is the encoded payload.
  abbrev pub check_parts : List ℕ → List ℕ → List ℕ → Result (List ℕ)
  check_parts head payload sig = then_result (loads_segment c head malformed_header) λ v.
      then_result (as_dict v) λ d.
        if is_text (get d "alg") "HS256"
        then if is_ascii sig
          then if same_text (signature (dotted head payload)) sig
            then ok payload
            else err (jwt bad_signature)
          else err type_error
        else err (jwt unsupported_algorithm)

  unfoldable pub check_signature : List ℕ → Result (List ℕ)
  check_signature token = elim (three_parts (split_dots token)) [
    | none ↦ err (jwt malformed_token)
    | some (head, payload, sig) ↦ check_parts head payload sig
  ]

  -- `with_store` says whether a store was passed.
  unfoldable pub verify : List ℕ → String → String → Bool → Action (Store Text) Fields
  unfolding check_signature check_expiry check_session check_scope check_revoked now_seconds
  verify token session_id scope with_store = do
    payload ← lift (check_signature token)
    v ← lift (loads_segment c payload malformed_payload)
    d ← lift (as_dict v)
    t ← now_seconds
    lift (check_expiry d t)
    lift (check_session d session_id)
    lift (check_scope d scope)
    check_revoked with_store (jti_of d)
    pure d
