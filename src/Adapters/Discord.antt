-- ===== src/Adapters/Discord.antt =====
-- The handlers of `DiscordAdapter` (nadi/adapters/discord_adapter.py); the result is what is sent to
-- the channel.
use nadi.Common.{ℕ, String, Bool, Option, none, some, if◌then◌else◌}
use nadi.Strings.{take_chars}
use nadi.Json.{Value, null, str, single}
use nadi.Adapters.{GatewayProtocol, make_resource_id, converse, guarded}

-- What the handler reads of a message; the numbers are written out, as `str` does.
pub record DiscordMessage : Type 0 where
  pub author_is_bot : Bool
  pub author_id : String
  pub channel_id : String
  pub in_thread : Bool
  pub content : Option String
  pub guild_id : Option String

-- `_MAX_TEXT`, and the limit of a message
abbrev pub max_content : ℕ
max_content = 8000

abbrev pub max_reply : ℕ
max_reply = 2000

abbrev pub text_or_empty : Option String → String
text_or_empty none = ""
text_or_empty (some t) = t

abbrev pub guild_value : Option String → Value
guild_value none = null
guild_value (some g) = str g

abbrev pub cut_reply : Option String → Option String
cut_reply none = none
cut_reply (some reply) = some (take_chars max_reply reply)

module _ {S : Type 0} (repr : Value → String) (gateway : GatewayProtocol S)
    (tenant_id command_type : String) where
  unfoldable pub discord_handle : DiscordMessage → S → Option String × S
  discord_handle message s =
      let text = take_chars max_content (text_or_empty message.content) in
      let (reply, s') =
        guarded
          (converse repr gateway "discord" message.channel_id
            (if message.in_thread then message.channel_id else "") tenant_id
            (make_resource_id "discord" message.author_id)
            (single "guild_id" (guild_value message.guild_id)) command_type text)
          s in
      (cut_reply reply, s')

  unfoldable pub on_discord_message : DiscordMessage → S → Option String × S
  on_discord_message message s =
      if message.author_is_bot then (none, s) else discord_handle message s
