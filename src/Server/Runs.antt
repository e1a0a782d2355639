-- ===== src/Server/Runs.antt =====
-- What holds after any number of requests and messages, in any order, whatever comes of each.
use nadi.Common.{ℕ, Option, ◌≡◌, refl, arith, String, All}
use nadi.Sql.{fetch_one, exists_where}
use nadi.Store.Schema.{Store, RoundTrips, empty_store}
use nadi.Store.Invariant.{IsInvariant}
use nadi.Store.Tenancy.{store-IsOwned}
use nadi.Store.WellFormed.{
  IsWellFormed-moved, empty_store-IsWellFormed, IsWellFormed, store-IsWellFormed,
}
use nadi.Store.Hosts.{upsert_cell_host, upsert_sandbox_host}
use nadi.World.{World, Config}
use nadi.Celld.Invariant.{Holds}
use nadi.Json.{Fields}
use nadi.Adapters.{gateway_of}
use nadi.Adapters.Slack.{on_message, on_mention}
use nadi.Adapters.Discord.{DiscordMessage, on_discord_message}
use nadi.Adapters.Telegram.{TelegramUpdate, telegram_handle}
use nadi.Adapters.Invariant.{
  on_message-Keeps, on_mention-Keeps, on_discord_message-Keeps, telegram_handle-Keeps,
}
use nadi.Server.{Request, Handler, do_get, do_post, make_server}
use nadi.Server.Invariant.{do_get-Keeps, do_post-Keeps}

-- The worlds that requests, and messages of chat platforms to adapters of the same tenant, lead to.
pub data Reached {Text : Type 0} (c : Config Text) (handler : Handler) (start : World Text)
    : World Text → Type 0 where
  at_start : Reached c handler start start
  after_get :
      (w : World Text) (request : Request)
      → Reached c handler start w
      → Reached c handler start (do_get c handler request w).1
  after_post :
      (w : World Text) (request : Request)
      → Reached c handler start w
      → Reached c handler start (do_post c handler request w).1
  after_message :
      (w : World Text) (command_type : String) (body : Fields)
      → Reached c handler start w
      → Reached c handler start
          (on_message c.env.repr (gateway_of c) handler.tenant_id command_type body w).1
  after_mention :
      (w : World Text) (command_type : String) (body : Fields)
      → Reached c handler start w
      → Reached c handler start
          (on_mention c.env.repr (gateway_of c) handler.tenant_id command_type body w).1
  after_discord :
      (w : World Text) (command_type : String) (message : DiscordMessage)
      → Reached c handler start w
      → Reached c handler start
          (on_discord_message c.env.repr (gateway_of c) handler.tenant_id command_type message w).1
  after_telegram :
      (w : World Text) (command_type : String) (update : TelegramUpdate)
      → Reached c handler start w
      → Reached c handler start
          (telegram_handle c.env.repr (gateway_of c) handler.tenant_id command_type update w).1

module _ {Text : Type 0} (c : Config Text) (handler : Handler) (start : World Text) where
  pub Reached-Holds :
      (Q : Store Text → Type 0)
      → IsInvariant c.env handler.tenant_id Q
      → Holds Q start
      → (w : World Text) → Reached c handler start w
      → Holds Q w
  Reached-Holds Q inv h _ at_start = h
  Reached-Holds Q inv h _ (after_get w request r) =
      do_get-Keeps c handler Q inv request w (Reached-Holds Q inv h w r)
  Reached-Holds Q inv h _ (after_post w request r) =
      do_post-Keeps c handler Q inv request w (Reached-Holds Q inv h w r)
  Reached-Holds Q inv h _ (after_message w ty body r) =
      on_message-Keeps c handler.tenant_id Q inv c.env.repr ty body w (Reached-Holds Q inv h w r)
  Reached-Holds Q inv h _ (after_mention w ty body r) =
      on_mention-Keeps c handler.tenant_id Q inv c.env.repr ty body w (Reached-Holds Q inv h w r)
  Reached-Holds Q inv h _ (after_discord w ty message r) =
      on_discord_message-Keeps c handler.tenant_id Q inv c.env.repr ty message w
        (Reached-Holds Q inv h w r)
  Reached-Holds Q inv h _ (after_telegram w ty update r) =
      telegram_handle-Keeps c handler.tenant_id Q inv c.env.repr ty update w
        (Reached-Holds Q inv h w r)

  -- The store stays well formed, and the sessions the tenant's.
  pub Reached-IsWellFormed :
      ((i j : ℕ) → c.env.uuid i ≡ c.env.uuid j → i ≡ j)
      → RoundTrips c.env
      → IsWellFormed c.env start.store
      → (w : World Text) → Reached c handler start w
      → IsWellFormed c.env w.store
  Reached-IsWellFormed distinct round h w r =
      (Reached-Holds (IsWellFormed c.env)
        (store-IsWellFormed c.env distinct round handler.tenant_id) (record { holds = h }) w
        r).holds

  pub Reached-IsOwned :
      All (λ r. r.tenant_id ≡ handler.tenant_id) start.store.sessions
      → (w : World Text) → Reached c handler start w
      → All (λ r. r.tenant_id ≡ handler.tenant_id) w.store.sessions
  Reached-IsOwned h w r =
      (Reached-Holds _ (store-IsOwned c.env handler.tenant_id) (record { holds = h }) w r).holds

module _ {Text : Type 0} (c : Config Text) (api_key : Option String) (tenant_id : String) where
  started : IsWellFormed c.env (make_server c api_key tenant_id).1.store
  unfolding make_server upsert_cell_host upsert_sandbox_host fetch_one exists_where
  started =
      IsWellFormed-moved c.env empty_store _ refl refl refl (omega arith)
        (empty_store-IsWellFormed c.env)

  -- On a new database, after any sequence of requests to the server that `make_server` gives and of
  -- messages to adapters of its tenant, with any contents, and whatever comes of each: the events of
  -- each session count up from 1, the ids in the inbox count up, no session has more than 100 commands
  -- that wait, and all sessions belong to the tenant. `uuid4` never gives the same text twice, and
  -- `json.loads` gives back what `json.dumps` wrote.
  pub make_server-Reached :
      ((i j : ℕ) → c.env.uuid i ≡ c.env.uuid j → i ≡ j)
      → RoundTrips c.env
      → (w : World Text)
      → let (handler, start) = make_server c api_key tenant_id in
        Reached c handler start w
        → IsWellFormed c.env w.store × All (λ r. r.tenant_id ≡ tenant_id) w.store.sessions
  unfolding make_server upsert_cell_host upsert_sandbox_host fetch_one exists_where
  make_server-Reached distinct round w r =
      let (handler, start) = make_server c api_key tenant_id in
      (
        Reached-IsWellFormed c handler start distinct round started w r,
        Reached-IsOwned c handler start tt w r,
      )
