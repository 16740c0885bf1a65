-- ===== src/Coordinator/Tests/Cycles.antt =====
-- The theorems on the background cycles at concrete inputs: a handler that is the list of its
-- connections, and one stored session.
use baileys_api.Prelude.{
  String, ◌≡◌, ◌≢◌, true, false, Option, none, some, List, [], ◌∷◌, refl, if◌then◌else◌, ◌==◌,
}
use baileys_api.Redis.Memory.{Memory, memory, memory-IsRedis, empty}
use baileys_api.Sample.{site-IsSite, texts_differ}
use baileys_api.Exec
use baileys_api.Exec.{
  Env, Exec, Delivery, delivered, refused, State, Result, ok, throw, quiet, call, arrive, pure,
}
use baileys_api.Cluster.Keys
use baileys_api.Cluster.Site.{Site}
use baileys_api.Cluster.LeaseStore.{
  get_lease, get_handoff_target, is_on_own_release_cooldown, acquire_lease,
}
use baileys_api.Cluster.LeaseStore.Ownership.{lease_in, owned}
use baileys_api.Cluster.QuarantineStore.{is_quarantined}
use baileys_api.Coordinator.State.{Options, Node, Activity, Handler, Sessions, contains}
use baileys_api.Coordinator.Renew.{run_renew_cycle, set_degraded}
use baileys_api.Coordinator.Renew.Outage.{run_renew_cycle-refused}
use baileys_api.Coordinator.Claim.{Claim, claim_phone}
use baileys_api.Coordinator.Claim.Claimed.{IsClaimed, claim_phone-IsClaimed}
use baileys_api.Coordinator.Rebalance.{pick_rebalance_victim}
use baileys_api.Coordinator.Tests.{a, b, phone, holding, leased}

abbrev Connections : Type 0
Connections = List String

abbrev idle_activity : List String → String → Option Activity
idle_activity l p =
    if contains l p then some (record { in_flight_webhooks = 0; last_traffic_at = none }) else none

abbrev without : String → List String → List String
without p [] = []
without p (q ∷ l) = if q == p then l else q ∷ without p l

abbrev handler : Handler memory Connections
handler = record {
  active_phone_numbers = λ h. h;
  current_connection_options = λ h p. none;
  connection_activity = idle_activity;
  in_flight_webhook_count = λ h. 0;
  connect = λ p options. pure true;
  discard_connection = λ p. Exec.modify (λ n. record n { handler = without p n.handler });
  update_lease_epoch = λ p e. pure tt;
  logout = λ p. pure tt;
}

abbrev stored : Options
stored = record {
  client_name = none;
  webhook_url = "http://hook";
  webhook_verify_token = "";
  include_media = false;
  sync_full_history = false;
  groups_enabled = false;
  auto_presence_subscribe = false;
  api_key_hash = none;
  is_reconnect = false;
  force_restart = false;
  lease_epoch = none;
}

abbrev sessions : Sessions memory Connections
sessions = record {
  saved_auth_state_ids = pure ((phone, stored) ∷ []);
  auth_metadata = λ p. pure (some stored);
  is_paired = λ p. pure true;
  clear_auth_state = λ p. pure true;
  instance_keys = pure [];
}

abbrev env : Env memory (Node Connections)
env = quiet 1000

-- Every call is refused.
abbrev down : Env memory (Node Connections)
down = record {
  meanwhile = λ n t. t;
  delivery = λ n. refused;
  date_now = λ n. 1000;
  performance_now = λ n. 1000;
}

abbrev keep_order : List (String × Options) → List (String × Options)
keep_order l = l

abbrev at : Memory → State memory (Node Connections)
at m = record { db = m; local = record { coordinator = holding; handler = phone ∷ [] }; turn = 0 }

run_renew_cycle-refused_example : run_renew_cycle down a handler (at leased) ≡ (
  ok tt,
  record (at leased) {
    local = record (at leased).local {
      coordinator = set_degraded true (at leased).local.coordinator;
    };
    turn = 1;
  },
)
run_renew_cycle-refused_example =
    run_renew_cycle-refused down a handler (at leased) {phone = phone} {phones = []} refl refl

leased_by_a : lease_in memory b leased phone ≡ some (owned a 4)
unfolding Keys.lease Keys.instance_key
leased_by_a = refl

a_is_not_b : a.instance_id ≢ b.instance_id
a_is_not_b = texts_differ refl

claim : Claim
claim = record { id = phone; metadata = stored; epoch = 1 }

claimed :
    (claim_phone env b handler sessions keep_order 1000 2 0 phone stored (at empty)).0
    ≡ ok (some claim)
unfolding claim claim_phone get_lease get_handoff_target is_on_own_release_cooldown is_quarantined
    acquire_lease Exec.get Exec.incr Exec.set_nx call Keys.lease Keys.lease_epoch
claimed = refl

claim_phone-IsClaimed_example :
    IsClaimed memory-IsRedis env b
      (site-IsSite "b")
      handler
      sessions
      keep_order
      phone
      claim
      (claim_phone env b handler sessions keep_order 1000 2 0 phone stored (at empty)).1
claim_phone-IsClaimed_example =
    claim_phone-IsClaimed memory-IsRedis env b (site-IsSite "b") handler sessions keep_order 1000 2
      0 phone stored (at empty) claim claimed

picked : (pick_rebalance_victim env a handler sessions false (at leased)).0 ≡ ok (some phone)
unfolding pick_rebalance_victim
picked = refl

abbrev draining : State memory (Node Connections)
draining = record (at leased) {
  local = record (at leased).local { coordinator = record holding { draining = true } };
}

abbrev without_cooldown : Site
without_cooldown = record a { config = record a.config { release_cooldown_ms = 0 } }
