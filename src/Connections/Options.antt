-- ===== src/Connections/Options.antt =====
-- src/baileys/types.ts and the options of a connection (src/baileys/connection.ts): what it is built
-- from, what a reconfiguration changes, and what a rebuild of it starts from.
use baileys_api.Prelude.{
  ℕ, String, Bool, true, false, ◌&&◌, Option, none, some, truthy, get_or, leb, ltb, if◌then◌else◌,
}

-- BaileysConnectionOptions without the callbacks; `none` is undefined, and null for the epoch.
pub record ConnectionOptions : Type 0 where
  pub client_name : Option String
  pub webhook_url : String
  pub webhook_verify_token : String
  pub include_media : Option Bool
  pub sync_full_history : Option Bool
  pub groups_enabled : Option Bool
  pub auto_presence_subscribe : Option Bool
  pub api_key_hash : Option String
  pub is_reconnect : Option Bool
  pub force_restart : Option Bool
  pub lease_epoch : Option ℕ

-- "unknown", "ok", "degraded" and "stalled"
pub data SendState : Type 0 where
  unknown healthy degraded stalled : SendState

-- What the handler reads of a BaileysConnection. `is_open`, the counters and the times are set by
-- the socket's events, which are not modelled.
pub record Connection : Type 0 where
  pub phone : String
  pub client_name : String
  pub webhook_url : String
  pub webhook_verify_token : String
  pub include_media : Bool
  pub sync_full_history : Bool
  pub groups_enabled : Bool
  pub auto_presence_subscribe : Bool
  pub api_key_hash : Option String
  pub is_reconnect : Bool
  pub lease_epoch : Option ℕ
  pub is_discarded : Bool
  pub in_flight_webhooks : ℕ
  pub restart_pending : Bool
  pub is_open : Bool
  pub consecutive_send_timeouts : ℕ
  pub last_traffic_at : Option ℕ
  pub last_send_completed_at : Option ℕ
  pub last_outgoing_ack_at : Option ℕ

abbrev pub is_true : Option Bool → Bool
is_true o = get_or o false

-- `options.clientName || "Chrome"`
abbrev pub name_or_default : Option String → String
name_or_default o = get_or (truthy o) "Chrome"

-- The constructor.
unfoldable pub new_connection : String → ConnectionOptions → Connection
new_connection phone options = record {
  phone = phone;
  client_name = name_or_default options.client_name;
  webhook_url = options.webhook_url;
  webhook_verify_token = options.webhook_verify_token;
  include_media = get_or options.include_media true;
  sync_full_history = get_or options.sync_full_history false;
  groups_enabled = get_or options.groups_enabled true;
  auto_presence_subscribe = get_or options.auto_presence_subscribe false;
  api_key_hash = options.api_key_hash;
  is_reconnect = is_true options.is_reconnect;
  lease_epoch = options.lease_epoch;
  is_discarded = false;
  in_flight_webhooks = 0;
  restart_pending = false;
  is_open = false;
  consecutive_send_timeouts = 0;
  last_traffic_at = none;
  last_send_completed_at = none;
  last_outgoing_ack_at = none;
}

-- Forward only: a request that holds an older epoch, or none, leaves the newer one.
unfoldable pub advance_epoch : Option ℕ → Option ℕ → Option ℕ
advance_epoch none given = given
advance_epoch (some held) none = some held
advance_epoch (some held) (some given) = if leb held given then some given else some held

abbrev or_else : Option String → Option String → Option String
or_else none o = o
or_else (some s) o = some s

-- updateOptions up to its first await; what it then persists is these fields.
unfoldable pub update_options : ConnectionOptions → Connection → Connection
unfolding advance_epoch
update_options options c = record c {
  client_name = name_or_default options.client_name;
  webhook_url = options.webhook_url;
  webhook_verify_token = options.webhook_verify_token;
  include_media = get_or options.include_media true;
  sync_full_history = get_or options.sync_full_history false;
  groups_enabled = get_or options.groups_enabled true;
  auto_presence_subscribe = get_or options.auto_presence_subscribe false;
  api_key_hash = or_else options.api_key_hash c.api_key_hash;
  lease_epoch = advance_epoch c.lease_epoch options.lease_epoch;
}

-- The getter currentOptions.
unfoldable pub current_options : Connection → ConnectionOptions
current_options c = record {
  client_name = some c.client_name;
  webhook_url = c.webhook_url;
  webhook_verify_token = c.webhook_verify_token;
  include_media = some c.include_media;
  sync_full_history = some c.sync_full_history;
  groups_enabled = some c.groups_enabled;
  auto_presence_subscribe = some c.auto_presence_subscribe;
  api_key_hash = c.api_key_hash;
  is_reconnect = none;
  force_restart = none;
  lease_epoch = c.lease_epoch;
}

-- SEND_STALL_THRESHOLD
abbrev pub send_stall_threshold : ℕ
send_stall_threshold = 3

abbrev observed : Option ℕ → Option ℕ → SendState
observed none none = unknown
observed (some _) _ = healthy
observed none (some _) = healthy

-- The getter sendState.
unfoldable pub send_state : Connection → SendState
send_state c =
    if leb send_stall_threshold c.consecutive_send_timeouts && c.is_open
    then stalled
    else if ltb 0 c.consecutive_send_timeouts
    then degraded
    else observed c.last_send_completed_at c.last_outgoing_ack_at

-- discard: what is seen of it from outside
abbrev pub discard : Connection → Connection
discard c = record c { is_discarded = true }
