-- ===== src/Server.antt =====
-- `NadiHandler` of nadi/server.py: what a request does to the objects of the process, and the
-- response. A method that raises sends no response.
mod Tests
pub mod Refusals
pub mod Runs
pub mod Once
pub mod Invariant
use Prim.Native.Char.{code}
use nadi.Common.{
  ℕ, String, Bool, true, false, not, ◌&&◌, Option, none, some, List, [], ◌∷◌, ltb, ◌==◌, nat_eq,
  string_eq, if◌then◌else◌, ◌⊎◌, inl, inr,
}
use nadi.Common.Int.{ℤ, pos, ltb_ℤ}
use nadi.Strings.{utf8_size, split_on, strip}
use nadi.Json.{Value, Fields, null, str, obj, end, get, get_or, is_truthy, text_of}
use nadi.Exec.{
  Action, Result, ok, err, attribute_error, unsupported, pure, raise, lift, then_result, ◌>>=◌,
}
use nadi.Store.Schema.{Event}
use nadi.World.{World, Config, empty_world}
use nadi.Stack.{local_stack}
use nadi.Gateway.{
  Created, Joined, Sent, open_session, get_or_create_channel_session, send_command,
  get_session_events,
}

-- `_MAX_BODY_BYTES` and `_MAX_FIELD_BYTES`
abbrev pub max_body_bytes : ℤ
max_body_bytes = pos 1_048_576

abbrev pub max_field_bytes : ℕ
max_field_bytes = 8192

-- What `http.server` and `urllib` give: the path of the target, the header `x-nadi-key`, `int()` of
-- the header `content-length` where that is a number, 0 where the header is missing, and what
-- `rfile.read(n)` returns.
pub record Request : Type 0 where
  pub path : String
  pub key : Option String
  pub content_length : Option ℤ
  pub read : ℤ → List ℕ

-- `api_key` and `tenant_id` of the handler's class
pub record Handler : Type 0 where
  pub api_key : Option String
  pub tenant_id : String

-- The texts under "error". `malformed` is the message of the library that read the body.
pub data Refusal : Type 0 where
  unauthorized not_found malformed : Refusal
  body_too_large : ℤ → Refusal
  field_too_large : String → Refusal

pub data Body : Type 0 where
  healthy : Body
  refused : Refusal → Body
  event_list : List (Event Fields) → Body
  session : Created → Body
  channel : Joined → Body
  command : Sent → Body

pub record Response : Type 0 where
  pub status : ℕ
  pub body : Body

-- `_json`
abbrev pub respond : ℕ → Body → Response
respond status body = record { status = status; body = body }

abbrev pub refuse : ℕ → Refusal → Response
refuse status refusal = respond status (refused refusal)

-- `_check_api_key`; a missing header counts as the empty text.
abbrev pub given_key : Option String → String
given_key none = ""
given_key (some k) = k

unfoldable pub check_api_key : Option String → Request → Bool
check_api_key none request = true
check_api_key (some api_key) request = given_key request.key == api_key

-- `path.strip("/").split("/")`
unfoldable pub path_split : String → List String
path_split path = split_on b'/' (strip (λ c. c == b'/') path)

-- The session in the path `/sessions/<session>/<last>`
abbrev pub session_of : String → List String → Option String
session_of last (first ∷ session_id ∷ third ∷ []) =
    if first == "sessions" && third == last then some session_id else none
session_of last _ = none

-- `body.get(k) or {}`. A value that is true and no dictionary is not modelled.
abbrev pub dictionary_or_empty : Value → Result Fields
dictionary_or_empty (obj d) = ok d
dictionary_or_empty v = if is_truthy v then err unsupported else ok end

-- A text, where another value is not modelled.
abbrev pub text_only : Value → Result String
text_only (str t) = ok t
text_only _ = err unsupported

abbrev pub text_or_null : Value → Result (Option String)
text_or_null null = ok none
text_or_null (str t) = ok (some t)
text_or_null _ = err unsupported

-- The loop over the fields of `/channels`
abbrev pub is_oversized : Value → Bool
is_oversized (str t) = ltb max_field_bytes (utf8_size t)
is_oversized _ = false

abbrev pub sized_fields : List String
sized_fields = "platform" ∷ "channel_id" ∷ "thread_id" ∷ "initiator_resource_id" ∷ []

unfoldable pub oversized_field : Fields → List String → Option String
oversized_field body [] = none
oversized_field body (k ∷ ks) =
    if is_oversized (get_or body k (str "")) then some k else oversized_field body ks

module _ {Text : Type 0} (c : Config Text) (handler : Handler) where
  -- `_body`: the refusals are its ValueErrors. An empty body stands for `{}`.
  abbrev pub parse_body : List ℕ → Option Value
  parse_body [] = some (obj end)
  parse_body raw = c.crypto.loads raw

  unfoldable pub read_body : Request → Refusal ⊎ Value
  read_body request = elim request.content_length [
    | none ↦ inl malformed
    | some n ↦
        if ltb_ℤ max_body_bytes n
        then inl (body_too_large n)
        else elim (parse_body (request.read n)) [ none ↦ inl malformed | some v ↦ inr v ]
  ]

  -- `body.get` is there on a dictionary alone.
  abbrev pub as_body : Value → Result Fields
  as_body (obj d) = ok d
  as_body _ = err attribute_error

  abbrev pub body_text : Fields → String → String
  body_text body k = text_of c.env.repr (get_or body k (str ""))

  unfoldable pub do_get : Request → Action (World Text) Response
  do_get request =
      if request.path == "/healthz"
      then pure (respond 200 healthy)
      else if not (check_api_key handler.api_key request)
      then pure (refuse 401 unauthorized)
      else elim (session_of "events" (path_split request.path)) [
        | none ↦ pure (refuse 404 not_found)
        | some session_id ↦ do
          evs ← get_session_events c session_id 0
          pure (respond 200 (event_list evs))
      ]

  -- The branches of `do_POST`
  unfoldable pub post_session : Fields → Action (World Text) Response
  post_session body = do
    metadata ← lift (dictionary_or_empty (get_or body "metadata" null))
    created ← open_session c handler.tenant_id (some metadata)
    pure (respond 201 (session created))

  unfoldable pub post_channel : Fields → Action (World Text) Response
  post_channel body = elim (oversized_field body sized_fields) [
    | some k ↦ pure (refuse 400 (field_too_large k))
    | none ↦ do
      metadata ← lift (dictionary_or_empty (get_or body "metadata" null))
      joined ←
          get_or_create_channel_session c (body_text body "platform") (body_text body "channel_id")
            (body_text body "thread_id") handler.tenant_id (body_text body "initiator_resource_id")
            (some metadata)
      pure (respond 200 (channel joined))
  ]

  unfoldable pub post_command : String → Fields → Action (World Text) Response
  post_command session_id body = do
    command_type ← lift (text_only (get_or body "type" (get_or body "command_type" (str "echo"))))
    payload ← lift (dictionary_or_empty (get_or body "payload" null))
    actor ← lift (text_or_null (get_or body "actor_resource_id" null))
    sent ← send_command c session_id command_type (some payload) actor
    pure (respond 202 (command sent))

  unfoldable pub post_body : Request → Value → Action (World Text) Response
  unfolding post_session post_channel post_command
  post_body request v =
      if request.path == "/sessions"
      then lift (as_body v) >>= post_session
      else if request.path == "/channels"
      then lift (as_body v) >>= post_channel
      else elim (session_of "commands" (path_split request.path)) [
        | none ↦ pure (refuse 404 not_found)
        | some session_id ↦ lift (as_body v) >>= post_command session_id
      ]

  unfoldable pub do_post : Request → Action (World Text) Response
  do_post request =
      if not (check_api_key handler.api_key request)
      then pure (refuse 401 unauthorized)
      else elim (read_body request) [
        | inl refusal ↦ pure (refuse 413 refusal)
        | inr v ↦ post_body request v
      ]

-- `make_server`: what the class of the handler is given, and the objects of the stack. The socket is
-- left out.
unfoldable pub make_server :
    {Text : Type 0} → Config Text → Option String → String → Handler × World Text
unfolding local_stack
make_server c api_key tenant_id =
    (record { api_key = api_key; tenant_id = tenant_id }, (local_stack c empty_world).1)
