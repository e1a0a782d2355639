-- ===== src/Adapters/Telegram.antt =====
-- `TelegramAdapter._handle` (nadi/adapters/telegram_adapter.py); the result is the text of the reply.
use nadi.Common.{String, Option, none, some}
use nadi.Json.{Value, str, single}
use nadi.Adapters.{GatewayProtocol, make_resource_id, converse, guarded}

-- What the handler reads of an update; the numbers are written out, and a thread id that Python takes
-- for false is missing.
pub record TelegramUpdate : Type 0 where
  pub chat_id : String
  pub chat_type : String
  pub user_id : String
  pub message_thread_id : Option String
  pub text : Option String

abbrev pub given_or_empty : Option String → String
given_or_empty none = ""
given_or_empty (some t) = t

unfoldable pub telegram_handle :
    {S : Type 0}
    → (Value → String)
    → GatewayProtocol S
    → String
    → String
    → TelegramUpdate
    → S
    → Option String × S
telegram_handle repr gateway tenant_id command_type update s =
    guarded
      (converse repr gateway "telegram" update.chat_id (given_or_empty update.message_thread_id)
        tenant_id (make_resource_id "telegram" update.user_id)
        (single "chat_type" (str update.chat_type)) command_type (given_or_empty update.text))
      s
