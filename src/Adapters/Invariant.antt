-- ===== src/Adapters/Invariant.antt =====
-- A property that the methods of the store keep is kept by every message of a chat platform.
use nadi.Common.{◌≡◌, refl, ◌⊎◌, inl, inr, if_both, String, false, ◌||◌, Option, none, some}
use nadi.Json.{Value, Fields, str, obj, end, field, single, get_or}
use nadi.Exec.{Error, Result, ok, err}
use nadi.Exec.Keeps.{Keeps, bind-Keeps, continue-Keeps}
use nadi.Store.Schema.{Store}
use nadi.Store.Invariant.{IsInvariant}
use nadi.World.{World, Config}
use nadi.Celld.Invariant.{Holds}
use nadi.Gateway.Invariant.{get_or_create_channel_session-Keeps, send_command-Keeps}
use nadi.Adapters.{gateway_of, converse, extract_reply_text}
use nadi.Adapters.Slack.{Said, slack_handle, on_message, on_mention, event_of_body, is_set}
use nadi.Adapters.Discord.{DiscordMessage, discord_handle, on_discord_message}
use nadi.Adapters.Telegram.{TelegramUpdate, telegram_handle}

Result-cases : {A : Type 0} (r : Result A) → ((a : A) × (r ≡ ok a)) ⊎ ((e : Error) × (r ≡ err e))
Result-cases (ok a) = inl (a, refl)
Result-cases (err e) = inr (e, refl)

module _ {Text : Type 0} (c : Config Text) (tenant : String) (Q : Store Text → Type 0)
    (inv : IsInvariant c.env tenant Q) (repr : Value → String) where
  converse-Keeps :
      (platform channel_id thread_id rid : String) (metadata : Fields) (command_type text : String)
      → Keeps (Holds Q) (
          converse repr
            (gateway_of c)
            platform
            channel_id
            thread_id
            tenant
            rid
            metadata
            command_type
            text)
  unfolding converse
  converse-Keeps platform channel_id thread_id rid metadata command_type text =
      bind-Keeps (Holds Q)
        ((gateway_of c).get_or_create_channel_session platform channel_id thread_id tenant rid
          (some metadata))
        _
        (get_or_create_channel_session-Keeps c tenant Q inv platform channel_id thread_id rid
          (some metadata))
        (λ routing.
          bind-Keeps (Holds Q)
            ((gateway_of c).send_command routing.session_id command_type
              (some (field "text" (str text) (single "prompt" (str text)))) (some rid))
            _
            (send_command-Keeps c tenant Q inv routing.session_id command_type
              (some (field "text" (str text) (single "prompt" (str text)))) (some rid))
            (λ result. λ w.
              continue-Keeps (Holds Q) (extract_reply_text repr false result.events) _
                (λ reply w h. h) w))

  module _ (command_type : String) where
    slack_handle-Keeps :
        (event : Fields) (w : World Text)
        → Holds Q w
        → Holds Q (slack_handle repr (gateway_of c) tenant command_type event w).1
    unfolding slack_handle
    slack_handle-Keeps event = converse-Keeps "slack" _ _ _ _ command_type _

    pub on_mention-Keeps :
        (body : Fields) (w : World Text)
        → Holds Q w
        → Holds Q (on_mention repr (gateway_of c) tenant command_type body w).1
    unfolding on_mention
    on_mention-Keeps body w h =
        elim (Result-cases (event_of_body (get_or body "event" (obj end)))) [
          | inl (event, e) ↦ rw (e, on_mention) (slack_handle-Keeps event w h)
          | inr (f, e) ↦ rw (e, on_mention) h
        ]

    pub on_message-Keeps :
        (body : Fields) (w : World Text)
        → Holds Q w
        → Holds Q (on_message repr (gateway_of c) tenant command_type body w).1
    unfolding on_message
    on_message-Keeps body w h =
        elim (Result-cases (event_of_body (get_or body "event" (obj end)))) [
          | inl (event, e) ↦
              rw (e, on_message)
                (if_both (λ (r : Result (Option Said) × World Text). Holds Q r.1)
                  (is_set event "bot_id" || is_set event "subtype") _ _ h
                  (slack_handle-Keeps event w h))
          | inr (f, e) ↦ rw (e, on_message) h
        ]

    discord_handle-Keeps :
        (message : DiscordMessage) (w : World Text)
        → Holds Q w
        → Holds Q (discord_handle repr (gateway_of c) tenant command_type message w).1
    unfolding discord_handle
    discord_handle-Keeps message = converse-Keeps "discord" _ _ _ _ command_type _

    pub on_discord_message-Keeps :
        (message : DiscordMessage) (w : World Text)
        → Holds Q w
        → Holds Q (on_discord_message repr (gateway_of c) tenant command_type message w).1
    unfolding on_discord_message
    on_discord_message-Keeps message w h =
        if_both (λ (r : Option String × World Text). Holds Q r.1) message.author_is_bot (none, w) _
          h (discord_handle-Keeps message w h)

    pub telegram_handle-Keeps :
        (update : TelegramUpdate) (w : World Text)
        → Holds Q w
        → Holds Q (telegram_handle repr (gateway_of c) tenant command_type update w).1
    unfolding telegram_handle
    telegram_handle-Keeps update = converse-Keeps "telegram" _ _ _ _ command_type _
