-- ===== src/Server/Refusals.antt =====
-- What a request must have before the server does anything for it.
use nadi.Common.{
  ℕ, ◌≤◌, ◌≡◌, ◌≢◌, refl, String, true, false, Option, none, some, List, [], ◌∷◌, All, arith,
  nat_eq, string_eq, eq_iff, Bool-cases, Option-cases, inl, inr, ◌⊎◌,
}
use nadi.Common.Int.{ℤ, ◌≤ℤ◌}
use nadi.Strings.{utf8_size}
use nadi.Json.{Value, Fields, str, get_or}
use nadi.Exec.{ok}
use nadi.World.{World, Config}
use nadi.Server.{
  Request, Handler, Refusal, unauthorized, refuse, given_key, check_api_key, is_oversized,
  oversized_field, sized_fields, parse_body, read_body, max_body_bytes, max_field_bytes, do_get,
  do_post, post_channel,
}

-- The request has the key of the handler, if the handler has one.
abbrev pub HasKey : Option String → Request → Type 0
HasKey none request = Unit {0}
HasKey (some k) request = given_key request.key ≡ k

check_api_key-HasKey :
    (key : Option String) (request : Request)
    → check_api_key key request ≡ true
    → HasKey key request
unfolding check_api_key
check_api_key-HasKey none request e = tt
check_api_key-HasKey (some k) request e = (eq_iff (given_key request.key) k).0 e

HasKey-check_api_key :
    (key : Option String) (request : Request)
    → HasKey key request
    → check_api_key key request ≡ true
unfolding check_api_key
HasKey-check_api_key none request has = refl
HasKey-check_api_key (some k) request has = (eq_iff (given_key request.key) k).1 has

-- A text has at most 8192 bytes.
abbrev pub Fits : Value → Type 0
Fits (str t) = utf8_size t ≤ max_field_bytes
Fits v = Unit {0}

is_oversized-Fits : (v : Value) → is_oversized v ≡ false → Fits v
is_oversized-Fits (str t) e = ground arith
is_oversized-Fits _ e = tt

oversized_field-Fits :
    (body : Fields) (ks : List String)
    → oversized_field body ks ≡ none
    → All (λ k. Fits (get_or body k (str ""))) ks
unfolding oversized_field
oversized_field-Fits body [] e = tt
oversized_field-Fits body (k ∷ ks) e = elim (Bool-cases (is_oversized (get_or body k (str "")))) [
  | inl large ↦ absurd (ground arith)
  | inr fits ↦
      (is_oversized-Fits (get_or body k (str "")) fits, oversized_field-Fits body ks (ground arith))
]

module _ {Text : Type 0} (c : Config Text) (handler : Handler) (w : World Text) where
  do_get_unauthorized :
      (request : Request)
      → check_api_key handler.api_key request ≡ false
      → (do_get c handler request w).1 ≡ w
  unfolding do_get
  do_get_unauthorized request e = ground (arith, e)

  -- A body that is read is announced with a length of at most 1 MB, and is JSON of that length.
  read_body-inr :
      (request : Request) (v : Value)
      → read_body c handler request ≡ inr v
      → (n : ℤ) × (request.content_length ≡ some n)
        × (n ≤ℤ max_body_bytes)
        × (parse_body c handler (request.read n) ≡ some v)
  unfolding read_body
  read_body-inr request v e = elim (Option-cases request.content_length) [
    | inl missing ↦ absurd (ground arith)
    | inr (n, announced) ↦ elim (Option-cases (parse_body c handler (request.read n))) [
      | inl bad ↦ absurd (ground arith)
      | inr (v', parsed) ↦ (n, announced, ground arith, ground arith)
    ]
  ]

  -- A GET request that changes anything has the handler's key, where there is one.
  pub do_get-HasKey :
      (request : Request) → (do_get c handler request w).1 ≢ w → HasKey handler.api_key request
  do_get-HasKey request changed = elim (Bool-cases (check_api_key handler.api_key request)) [
    | inl given ↦ check_api_key-HasKey handler.api_key request given
    | inr refused ↦ absurd (changed (do_get_unauthorized request refused))
  ]

  -- A body was announced with at most 1 MB, and is JSON when so much is read.
  abbrev pub HasBody : Request → Type 0
  HasBody request =
      (n : ℤ) × (v : Value) × (request.content_length ≡ some n)
      × (n ≤ℤ max_body_bytes)
      × (parse_body c handler (request.read n) ≡ some v)

  abbrev pub IsRefused : ℕ → Refusal → Request → Type 0
  IsRefused status refusal request = do_post c handler request w ≡ (ok (refuse status refusal), w)

  read_or_IsRefused :
      (request : Request) (o : Refusal ⊎ Value)
      → check_api_key handler.api_key request ≡ true
      → read_body c handler request ≡ o
      → HasBody request ⊎ ((refusal : Refusal) × IsRefused 413 refusal request)
  unfolding do_post
  read_or_IsRefused request (inl refusal) given e = inr (refusal, rw (given, e, do_post) refl)
  read_or_IsRefused request (inr v) given e =
      let (n, announced, short, parsed) = read_body-inr request v e in
      inl (n, v, announced, short, parsed)

  -- A POST request without the handler's key, where there is one, is answered with 401, and the world is
  -- left as it was. One with the key has a body that was announced with at most 1 MB and is JSON when so
  -- much is read, or it is answered with 413, and the world is left as it was.
  pub do_post-HasKey :
      (request : Request)
      → ((¬ HasKey handler.api_key request) × IsRefused 401 unauthorized request)
        ⊎ (HasKey handler.api_key request
            × (HasBody request ⊎ ((refusal : Refusal) × IsRefused 413 refusal request)))
  unfolding do_post
  do_post-HasKey request = elim (Bool-cases (check_api_key handler.api_key request)) [
    | inl given ↦ inr (
      check_api_key-HasKey handler.api_key request given,
      read_or_IsRefused request (read_body c handler request) given refl,
    )
    | inr refused ↦ inl (
      (λ has. cc (HasKey-check_api_key handler.api_key request has, refused)),
      rw (refused, do_post) refl,
    )
  ]

  -- A request on `/channels` that changes anything has no text of more than 8192 bytes under
  -- "platform", "channel_id", "thread_id" or "initiator_resource_id". A value that is no text, and what stands
  -- under other names, is not bounded.
  pub post_channel-Fits :
      (body : Fields)
      → (post_channel c handler body w).1 ≢ w
      → All (λ k. Fits (get_or body k (str ""))) sized_fields
  unfolding post_channel
  post_channel-Fits body changed = elim (Option-cases (oversized_field body sized_fields)) [
    | inl fits ↦ oversized_field-Fits body sized_fields fits
    | inr (k, large) ↦ absurd (changed (rw (large, post_channel) refl))
  ]
