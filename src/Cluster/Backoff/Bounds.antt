-- ===== src/Cluster/Backoff/Bounds.antt =====
-- src/cluster/quarantineStore.ts, src/cluster/sendStallStore.ts: the waits that the backoff gives.
use native.Mathlib.Nat.{pow-suc, one-le-pow, pow-le-pow_right}
use baileys_api.Prelude.{ℕ, suc, ◌*◌, ◌^◌, ◌≤◌, ◌<◌, min, ◌≡◌, arith}
use baileys_api.Cluster.Site.{ClusterConfig}
use baileys_api.Cluster.Backoff.{exponent, quarantine_backoff_ms, send_stall_backoff_ms}

exponent_mono : (m n : ℕ) → m ≤ n → exponent m ≤ exponent n
exponent_mono m n h = omega arith

module _ (config : ClusterConfig) where
  -- If the configured base is no more than the configured maximum, the wait lies between the two,
  -- however many strikes there are.
  pub quarantine_backoff_bounds :
      (strikes : ℕ)
      → config.quarantine_base_ms ≤ config.quarantine_max_ms
      → (config.quarantine_base_ms ≤ quarantine_backoff_ms config strikes)
        × (quarantine_backoff_ms config strikes ≤ config.quarantine_max_ms)
  unfolding quarantine_backoff_ms
  quarantine_backoff_bounds strikes h = grind (arith, one-le-pow (exponent strikes) 2 (omega arith))

  -- More strikes never shorten the wait.
  pub quarantine_backoff_mono :
      (m n : ℕ) → m ≤ n → quarantine_backoff_ms config m ≤ quarantine_backoff_ms config n
  unfolding quarantine_backoff_ms
  quarantine_backoff_mono m n h =
      let powers : 2 ^ exponent m ≤ 2 ^ exponent n =
        pow-le-pow_right (omega arith) (exponent_mono m n h) in
      grind arith

  -- From the first strike on, one more doubles the wait, up to the configured maximum, while the
  -- exponent is below its clamp.
  pub quarantine_backoff_doubles :
      (n : ℕ)
      → n < 25
      → quarantine_backoff_ms config (suc (suc n))
        ≡ min (2 * quarantine_backoff_ms config (suc n)) config.quarantine_max_ms
  unfolding quarantine_backoff_ms
  quarantine_backoff_doubles n h =
      let same : exponent (suc n) ≡ n = omega arith in
      let one_more : exponent (suc (suc n)) ≡ suc n = omega arith in
      rw (same, one_more, pow-suc) (omega arith)

-- However many restarts there were, the wait is at least five minutes and at most an hour.
pub send_stall_backoff_bounds :
    (restarts : ℕ)
    → (300000 ≤ send_stall_backoff_ms restarts) × (send_stall_backoff_ms restarts ≤ 3600000)
unfolding send_stall_backoff_ms
send_stall_backoff_bounds restarts = omega (arith, one-le-pow (exponent restarts) 2 (omega arith))
