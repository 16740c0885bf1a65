-- ===== src/Config/Tests.antt =====
-- The theorems on the settings at concrete environments.
use baileys_api.Prelude.{ℕ, ◌≡◌, refl, String, true, false, Option, none, some, ◌==◌, if◌then◌else◌}
use baileys_api.Exec.{ok}
use baileys_api.Cluster.Site.{standalone}
use baileys_api.Config.{
  Config, int_from_env, bool_from_env, is_on, role_of, read_baileys, read_webhook, read_cluster,
  read_proxy,
}
use baileys_api.Config.Start.{run_checks, check_config, read_config}
use baileys_api.Config.Checked.{IsConsistent, read_config-IsConsistent}

-- An environment without any of the variables.
abbrev nothing : String → Option String
nothing name = none

abbrev no_number : String → Option ℕ
no_number raw = none

abbrev defaults : Config
defaults = record {
  baileys = record {
    http_timeout_ms = 120000;
    tx_acquire_timeout_ms = 300000;
    tx_hold_warn_ms = 30000;
    send_timeout_ms = 45000;
    message_secret_store_timeout_ms = 5000;
    send_stall_restart_enabled = false;
    audio_preprocess_timeout_ms = 20000;
    ignore_group_messages = false;
    ignore_status_messages = true;
    ignore_broadcast_messages = true;
    ignore_newsletter_messages = true;
    ignore_bot_messages = true;
    ignore_meta_ai_messages = true;
  };
  webhook = record { timeout_ms = 60000; history_frame_max_bytes = 524288 };
  cluster = record {
    role = standalone;
    lease_ttl_ms = 30000;
    lease_renew_interval_ms = 10000;
    claim_interval_ms = 5000;
    claim_jitter_ms = 2000;
    reconnect_concurrency = 5;
    unclaimed_grace_ms = 30000;
    release_cooldown_ms = 60000;
    rebalance_enabled = true;
    rebalance_release_interval_ms = 10000;
    rebalance_tolerance = 1;
    rebalance_idle_threshold_ms = 300000;
    heartbeat_interval_ms = 5000;
    instance_ttl_ms = 15000;
    shutdown_timeout_ms = 30000;
    quarantine_enabled = true;
    quarantine_base_ms = 60000;
    quarantine_max_ms = 3600000;
  };
  proxy = record {
    route_cache_ttl_ms = 5000;
    request_timeout_ms = 75000;
    max_body_bytes = 67108864;
  };
}

started : read_config nothing no_number ≡ ok defaults
unfolding read_config read_baileys read_webhook read_cluster read_proxy role_of check_config
    run_checks int_from_env bool_from_env is_on
started = refl

read_config-IsConsistent_example : IsConsistent defaults
read_config-IsConsistent_example = read_config-IsConsistent nothing no_number defaults started

abbrev two_seconds : String → Option String
two_seconds name = if name == "CLUSTER_CLAIM_INTERVAL_MS" then some "2000" else none

abbrev read_two_seconds : String → Option ℕ
read_two_seconds raw = if raw == "2000" then some 2000 else none
