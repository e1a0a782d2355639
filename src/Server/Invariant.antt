-- ===== src/Server/Invariant.antt =====
-- A property that the methods of the store keep is kept by every request, whatever it holds and
-- whatever comes of it.
use nadi.Common.{String, Option, none, some, not, ◌==◌, string_eq, inl, inr, Option-cases, ◌⊎◌}
use nadi.Json.{Value, Fields, get_or, null, str}
use nadi.Exec.{lift, pure, ◌>>=◌}
use nadi.Exec.Keeps.{Keeps, bind-Keeps, continue-Keeps, branch-Keeps}
use nadi.Store.Schema.{Store}
use nadi.Store.Invariant.{IsInvariant}
use nadi.World.{Config}
use nadi.Celld.Invariant.{Holds}
use nadi.Gateway.{open_session, get_or_create_channel_session, send_command, get_session_events}
use nadi.Gateway.Invariant.{
  open_session-Keeps, get_or_create_channel_session-Keeps, send_command-Keeps,
  get_session_events-Keeps,
}
use nadi.Server.{
  Request, Handler, Refusal, respond, event_list, do_get, do_post, post_body, post_session,
  post_channel, post_command, as_body, check_api_key, session_of, path_split, read_body, refuse,
  not_found, dictionary_or_empty, text_only, text_or_null, oversized_field, sized_fields, body_text,
}

module _ {Text : Type 0} (c : Config Text) (handler : Handler) (Q : Store Text → Type 0)
    (inv : IsInvariant c.env handler.tenant_id Q) where
  events-Keeps :
      (o : Option String)
      → Keeps (Holds Q) (elim o [
        | none ↦ pure (refuse 404 not_found)
        | some sid ↦ get_session_events c sid 0 >>= λ evs. pure (respond 200 (event_list evs))
      ])
  events-Keeps none = λ w h. h
  events-Keeps (some sid) =
      bind-Keeps (Holds Q) (get_session_events c sid 0) _
        (get_session_events-Keeps c handler.tenant_id Q inv sid 0) (λ evs w h. h)

  pub do_get-Keeps : (request : Request) → Keeps (Holds Q) (do_get c handler request)
  unfolding do_get
  do_get-Keeps request =
      branch-Keeps (Holds Q) (request.path == "/healthz") _ _ (λ w h. h)
        (branch-Keeps (Holds Q) (not (check_api_key handler.api_key request)) _ _ (λ w h. h)
          (events-Keeps (session_of "events" (path_split request.path))))

  post_session-Keeps : (body : Fields) → Keeps (Holds Q) (post_session c handler body)
  unfolding post_session
  post_session-Keeps body w =
      continue-Keeps (Holds Q) (dictionary_or_empty (get_or body "metadata" null)) _
        (λ metadata.
          bind-Keeps (Holds Q) (open_session c handler.tenant_id (some metadata)) _
            (open_session-Keeps c handler.tenant_id Q inv (some metadata)) (λ _ w h. h))
        w

  post_channel-Keeps : (body : Fields) → Keeps (Holds Q) (post_channel c handler body)
  unfolding post_channel
  post_channel-Keeps body w h = elim (Option-cases (oversized_field body sized_fields)) [
    | inl fits ↦
        rw (fits, post_channel)
          (continue-Keeps (Holds Q) (dictionary_or_empty (get_or body "metadata" null)) _
            (λ metadata.
              bind-Keeps (Holds Q)
                (get_or_create_channel_session c (body_text c handler body "platform")
                  (body_text c handler body "channel_id") (body_text c handler body "thread_id")
                  handler.tenant_id (body_text c handler body "initiator_resource_id")
                  (some metadata))
                _
                (get_or_create_channel_session-Keeps c handler.tenant_id Q inv
                  (body_text c handler body "platform") (body_text c handler body "channel_id")
                  (body_text c handler body "thread_id")
                  (body_text c handler body "initiator_resource_id") (some metadata))
                (λ _ w h. h))
            w h)
    | inr (k, large) ↦ rw (large, post_channel) h
  ]

  post_command-Keeps :
      (sid : String) (body : Fields) → Keeps (Holds Q) (post_command c handler sid body)
  unfolding post_command
  post_command-Keeps sid body w =
      continue-Keeps (Holds Q)
        (text_only (get_or body "type" (get_or body "command_type" (str "echo")))) _
        (λ ty w.
          continue-Keeps (Holds Q) (dictionary_or_empty (get_or body "payload" null)) _
            (λ payload w.
              continue-Keeps (Holds Q) (text_or_null (get_or body "actor_resource_id" null)) _
                (λ actor.
                  bind-Keeps (Holds Q) (send_command c sid ty (some payload) actor) _
                    (send_command-Keeps c handler.tenant_id Q inv sid ty (some payload) actor)
                    (λ _ w h. h))
                w)
            w)
        w

  commands-Keeps :
      (o : Option String) (v : Value)
      → Keeps (Holds Q) (elim o [
        | none ↦ pure (refuse 404 not_found)
        | some sid ↦ lift (as_body c handler v) >>= post_command c handler sid
      ])
  commands-Keeps none v = λ w h. h
  commands-Keeps (some sid) v =
      λ w. continue-Keeps (Holds Q) (as_body c handler v) _ (post_command-Keeps sid) w

  post_body-Keeps :
      (request : Request) (v : Value) → Keeps (Holds Q) (post_body c handler request v)
  unfolding post_body
  post_body-Keeps request v =
      branch-Keeps (Holds Q) (request.path == "/sessions") _ _
        (λ w. continue-Keeps (Holds Q) (as_body c handler v) _ post_session-Keeps w)
        (branch-Keeps (Holds Q) (request.path == "/channels") _ _
          (λ w. continue-Keeps (Holds Q) (as_body c handler v) _ post_channel-Keeps w)
          (commands-Keeps (session_of "commands" (path_split request.path)) v))

  body-Keeps :
      (request : Request) (o : Refusal ⊎ Value)
      → Keeps (Holds Q) (elim o [
        | inl refusal ↦ pure (refuse 413 refusal)
        | inr v ↦ post_body c handler request v
      ])
  body-Keeps request (inl refusal) = λ w h. h
  body-Keeps request (inr v) = post_body-Keeps request v

  pub do_post-Keeps : (request : Request) → Keeps (Holds Q) (do_post c handler request)
  unfolding do_post
  do_post-Keeps request =
      branch-Keeps (Holds Q) (not (check_api_key handler.api_key request)) _ _ (λ w h. h)
        (body-Keeps request (read_body c handler request))
