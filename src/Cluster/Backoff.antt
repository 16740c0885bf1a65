-- ===== src/Cluster/Backoff.antt =====
-- The exponential backoff of src/cluster/quarantineStore.ts and src/cluster/sendStallStore.ts,
-- which share its formula and differ in its two bounds.
pub mod Bounds
use baileys_api.Prelude.{ℕ, ◌*◌, ◌-◌, ◌^◌, min, max}
use baileys_api.Cluster.Site.{ClusterConfig}

abbrev pub max_backoff_exponent : ℕ
max_backoff_exponent = 25

-- `strikes` counts from 1; the difference of the source is negative for 0 and clamped there.
abbrev pub exponent : ℕ → ℕ
exponent strikes = min (max (strikes - 1) 0) max_backoff_exponent

-- backoffMs of quarantineStore.ts
unfoldable pub quarantine_backoff_ms : ClusterConfig → ℕ → ℕ
quarantine_backoff_ms config strikes =
    min (config.quarantine_base_ms * 2 ^ exponent strikes) config.quarantine_max_ms

-- backoffMs of sendStallStore.ts: five minutes, up to an hour
unfoldable pub send_stall_backoff_ms : ℕ → ℕ
send_stall_backoff_ms restarts = min (300000 * 2 ^ exponent restarts) 3600000
