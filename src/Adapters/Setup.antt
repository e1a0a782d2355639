-- ===== src/Adapters/Setup.antt =====
-- The constructors of the three adapters, what they register with the library of their platform, and
-- `run`. A library is there or not, which the flags say; what `run` starts is its result.
use nadi.Common.{
  ℕ, String, Bool, true, false, not, ◌&&◌, Option, none, some, [], ◌∷◌, string_eq, if◌then◌else◌,
  ◌⊎◌, inl, inr,
}
use nadi.Strings.{is_empty}
use nadi.Json.{Value, Fields}
use nadi.Exec.{Result, ok}
use nadi.Dict.{Dict, lookup}
use nadi.Adapters.{GatewayProtocol}
use nadi.Adapters.Slack.{Said, on_message, on_mention}
use nadi.Adapters.Telegram.{TelegramUpdate, telegram_handle}

-- The texts of the ImportErrors, and the ValueError.
pub data SetupError : Type 0 where
  import_error : String → SetupError
  app_token_required : SetupError

-- `SlackAdapter.__init__`. The app of the library keeps the token and the secret.
pub record SlackAdapter : Type 0 where
  pub bot_token : String
  pub signing_secret : String
  pub tenant_id : String
  pub command_type : String
  pub port : ℕ
  pub socket_mode : Bool
  pub app_token : Option String

unfoldable pub slack_adapter : Bool → SlackAdapter → SetupError ⊎ SlackAdapter
slack_adapter has_library options =
    if has_library then inr options else inl (import_error "pip install slack-bolt")

-- The arguments that the callers may leave out
abbrev pub slack_defaults : String → String → SlackAdapter
slack_defaults bot_token signing_secret = record {
  bot_token = bot_token;
  signing_secret = signing_secret;
  tenant_id = "slack";
  command_type = "model";
  port = 3000;
  socket_mode = false;
  app_token = none;
}

module _ {S : Type 0} (repr : Value → String) (gateway : GatewayProtocol S) (a : SlackAdapter) where
  -- `@self._app.event(…)`: the handlers under the types of their events
  abbrev pub slack_handlers : Dict String (Fields → S → Result (Option Said) × S)
  slack_handlers =
      ("message", on_message repr gateway a.tenant_id a.command_type)
      ∷ ("app_mention", on_mention repr gateway a.tenant_id a.command_type)
      ∷ []

  -- An event that the library delivers; without a handler, nothing happens.
  unfoldable pub slack_event : String → Fields → S → Result (Option Said) × S
  slack_event event_type body s = elim (lookup event_type slack_handlers) [
    | none ↦ (ok none, s)
    | some handler ↦ handler body s
  ]

-- What `run` starts, and waits for.
pub data Running : Type 0 where
  socket_handler : String → Running
  http_server : ℕ → Running
  discord_client : String → Running
  telegram_polling : String → Running

abbrev pub is_given : Option String → Bool
is_given none = false
is_given (some t) = not (is_empty t)

abbrev pub socket_or_error : Option String → SetupError ⊎ Running
socket_or_error none = inl app_token_required
socket_or_error (some t) = if is_empty t then inl app_token_required else inr (socket_handler t)

unfoldable pub slack_run : Bool → SlackAdapter → SetupError ⊎ Running
slack_run has_socket_mode a =
    if a.socket_mode
    then if has_socket_mode
      then socket_or_error a.app_token
      else inl (import_error "pip install slack-bolt[adapter]")
    else inr (http_server a.port)

-- `DiscordAdapter.__init__`
pub record DiscordAdapter : Type 0 where
  pub bot_token : String
  pub tenant_id : String
  pub command_type : String
  pub message_content : Bool

abbrev pub discord_defaults : String → DiscordAdapter
discord_defaults bot_token = record {
  bot_token = bot_token;
  tenant_id = "discord";
  command_type = "model";
  message_content = false;
}

-- The intents of the client are the default ones and the content of messages.
unfoldable pub discord_adapter : Bool → DiscordAdapter → SetupError ⊎ DiscordAdapter
discord_adapter has_library options =
    if has_library
    then inr (record options { message_content = true })
    else inl (import_error "pip install discord.py")

abbrev pub discord_run : DiscordAdapter → Running
discord_run a = discord_client a.bot_token

-- `TelegramAdapter.__init__`
pub record TelegramAdapter : Type 0 where
  pub bot_token : String
  pub tenant_id : String
  pub command_type : String

abbrev pub telegram_defaults : String → TelegramAdapter
telegram_defaults bot_token = record {
  bot_token = bot_token;
  tenant_id = "telegram";
  command_type = "model";
}

unfoldable pub telegram_adapter : Bool → TelegramAdapter → SetupError ⊎ TelegramAdapter
telegram_adapter has_library options =
    if has_library then inr options else inl (import_error "pip install python-telegram-bot")

-- `filters.TEXT & ~filters.COMMAND`, where `is_command` is what the library says of an update
abbrev pub has_text : TelegramUpdate → Bool
has_text update = is_given update.text

unfoldable pub telegram_update :
    {S : Type 0}
    → (Value → String)
    → GatewayProtocol S
    → TelegramAdapter
    → (TelegramUpdate → Bool)
    → TelegramUpdate
    → S
    → Option String × S
telegram_update repr gateway a is_command update s =
    if has_text update && not (is_command update)
    then telegram_handle repr gateway a.tenant_id a.command_type update s
    else (none, s)

abbrev pub telegram_run : TelegramAdapter → Running
telegram_run a = telegram_polling a.bot_token
