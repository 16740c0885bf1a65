-- ===== src/Config/Start.antt =====
-- src/config.ts: the checks that end a start with settings that do not fit together.
use Prim.Native.String.{◌++◌}
use baileys_api.Prelude.{
  ℕ, ◌+◌, ◌*◌, String, Bool, true, false, List, [], ◌∷◌, ◌&&◌, Option, none, some, ltb, leb,
}
use baileys_api.Exec.{failure, Result, ok, throw}
use baileys_api.Cluster.Site.{Role, ClusterConfig}
use baileys_api.Config.{
  Config, ◌>>=◌, role_of, role_text, read_baileys, read_webhook, read_cluster, read_proxy,
}

-- `if (bad) throw new Error(message);`, one after another.
unfoldable pub run_checks : List (Bool × String) → Result (Unit {0})
run_checks [] = ok tt
run_checks ((true, message) ∷ checks) = throw (failure message)
run_checks ((false, message) ∷ checks) = run_checks checks

-- The checks that follow the role's, in their order. `a > b / 2` is `b < 2 * a`.
abbrev pub checks : Config → List (Bool × String)
checks c =
    (
      ltb c.cluster.lease_ttl_ms (2 * c.cluster.lease_renew_interval_ms),
      "CLUSTER_LEASE_RENEW_INTERVAL_MS must be at most half of CLUSTER_LEASE_TTL_MS",
    )
    ∷ (
      ltb c.cluster.instance_ttl_ms (2 * c.cluster.heartbeat_interval_ms),
      "CLUSTER_HEARTBEAT_INTERVAL_MS must be at most half of CLUSTER_INSTANCE_TTL_MS",
    )
    ∷ (
      ltb c.cluster.quarantine_max_ms c.cluster.quarantine_base_ms,
      "CLUSTER_QUARANTINE_BASE_MS must be at most CLUSTER_QUARANTINE_MAX_MS",
    )
    ∷ (
      ltb 0 c.baileys.tx_acquire_timeout_ms && ltb c.baileys.tx_acquire_timeout_ms 90000,
      "BAILEYS_TX_ACQUIRE_TIMEOUT_MS must be 0 (disabled) or at least 90000",
    )
    ∷ (
      ltb 0 c.baileys.tx_acquire_timeout_ms
          && leb c.baileys.tx_acquire_timeout_ms c.baileys.tx_hold_warn_ms,
      "BAILEYS_TX_HOLD_WARN_MS must be lower than BAILEYS_TX_ACQUIRE_TIMEOUT_MS",
    )
    ∷ (
      leb c.proxy.request_timeout_ms
          (c.baileys.send_timeout_ms + c.baileys.audio_preprocess_timeout_ms),
      "BAILEYS_SEND_TIMEOUT_MS plus the 20000ms audio-preprocessing budget must be lower than PROXY_REQUEST_TIMEOUT_MS",
    )
    ∷ []

unfoldable pub check_config : Config → Result Config
unfolding run_checks
check_config c = run_checks (checks c) >>= λ passed. ok c

abbrev pub with_role : (Role → ClusterConfig) → String → Option Role → Result ClusterConfig
with_role cluster text none =
    throw (failure ("Invalid ROLE \"" ++ (text ++ "\" — expected standalone, worker or proxy")))
with_role cluster text (some role) = ok (cluster role)

-- The module, as it is loaded.
unfoldable pub read_config : (String → Option String) → (String → Option ℕ) → Result Config
unfolding read_baileys read_webhook read_cluster read_proxy role_of check_config
read_config env number = do
  baileys ← read_baileys env number
  webhook ← read_webhook env number
  settings ← read_cluster env number
  forwarding ← read_proxy env number
  cluster ← with_role settings (role_text env number) (role_of (role_text env number))
  check_config
      (record { baileys = baileys; webhook = webhook; cluster = cluster; proxy = forwarding })
