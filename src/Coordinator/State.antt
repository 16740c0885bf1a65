-- ===== src/Coordinator/State.antt =====
-- src/cluster/coordinator.ts: what a coordinator keeps in memory, and what it uses of the
-- connections handler (src/baileys/connectionsHandler.ts) and of the stored sessions
-- (src/baileys/redisAuthState.ts).
use baileys_api.Prelude.{
  ℕ, String, Bool, Option, none, some, List, [], ◌∷◌, ◌==◌, eqb, if◌then◌else◌, true, false,
}
use baileys_api.Redis.{Redis}
use baileys_api.Exec.{Exec}

-- BaileysConnectionOptions and the metadata stored from it, without the callbacks.
pub record Options : Type 0 where
  pub client_name : Option String
  pub webhook_url : String
  pub webhook_verify_token : String
  pub include_media : Bool
  pub sync_full_history : Bool
  pub groups_enabled : Bool
  pub auto_presence_subscribe : Bool
  pub api_key_hash : Option String
  pub is_reconnect : Bool
  pub force_restart : Bool
  pub lease_epoch : Option ℕ

-- The fields of ClusterCoordinator but for its timers and options; a Map is a function. `announced` are the phones of the
-- ownership.changed events that were published, newest first: nothing waits for these calls, and
-- their failures are swallowed.
pub record Coordinator : Type 0 where
  pub running : Bool
  pub draining : Bool
  pub redis_degraded : Bool
  pub first_seen_unleased_at : String → Option ℕ
  pub claimed_at : String → Option ℕ
  pub last_claim_at : ℕ
  -- `none` is -Infinity
  pub last_rebalance_release_at : Option ℕ
  pub held_lease_epochs : String → Option ℕ
  pub announced : List String

-- A process: its coordinator, and the state of its connections handler.
pub record Node (H : Type 0) : Type 0 where
  pub coordinator : Coordinator
  pub handler : H

pub record Activity : Type 0 where
  pub in_flight_webhooks : ℕ
  -- `none` is null
  pub last_traffic_at : Option ℕ

pub record Handler (r : Redis) (H : Type 0) : Type 0 where
  pub active_phone_numbers : H → List String
  pub current_connection_options : H → String → Option Options
  pub connection_activity : H → String → Option Activity
  pub in_flight_webhook_count : H → ℕ
  -- `connect` with a resolver of the options; false where the resolver vetoed it
  pub connect : String → (Node H → Option Options) → Exec r (Node H) Bool
  pub discard_connection : String → Exec r (Node H) (Unit {0})
  pub update_lease_epoch : String → ℕ → Exec r (Node H) (Unit {0})
  pub logout : String → Exec r (Node H) (Unit {0})

pub record Sessions (r : Redis) (H : Type 0) : Type 0 where
  -- getRedisSavedAuthStateIds
  pub saved_auth_state_ids : Exec r (Node H) (List (String × Options))
  -- getRedisAuthMetadata
  pub auth_metadata : String → Exec r (Node H) (Option Options)
  -- isRedisAuthStatePaired
  pub is_paired : String → Exec r (Node H) Bool
  -- clearRedisAuthState
  pub clear_auth_state : String → Exec r (Node H) Bool
  -- the scan of instance keys
  pub instance_keys : Exec r (Node H) (List String)

-- A Map with one entry set, or deleted.
abbrev pub update {ℓ} : {A : Type ℓ} → (String → A) → String → A → String → A
update m k a j = if k == j then a else m j

abbrev pub contains : List String → String → Bool
contains [] p = false
contains (q ∷ l) p = if q == p then true else contains l p

abbrev pub is_epoch : Option ℕ → ℕ → Bool
is_epoch none e = false
is_epoch (some d) e = eqb d e
