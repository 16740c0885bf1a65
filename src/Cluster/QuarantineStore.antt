-- ===== src/Cluster/QuarantineStore.antt =====
-- src/cluster/quarantineStore.ts: strikes of phones whose reconnect cycles fail, under a backoff.
pub mod Strikes
use baileys_api.Prelude.{
  ℕ, ◌+◌, String, Bool, true, false, Option, none, some, ltb, if◌then◌else◌, not,
}
use baileys_api.Redis.{Redis}
use baileys_api.Json.{decode_or_none}
use baileys_api.Exec
use baileys_api.Exec.{Env, Exec, pure, ◌>>=◌, ◌>>◌}
use baileys_api.Cluster.Keys
use baileys_api.Cluster.Site.{Site, QuarantineState}
use baileys_api.Cluster.Backoff.{quarantine_backoff_ms}

-- seven days
abbrev pub quarantine_ttl_ms : ℕ
quarantine_ttl_ms = 604800000

-- The strikes that a new one brings the count to; an entry that is missing or cannot be read
-- restarts it.
abbrev pub next_strikes : Option QuarantineState → ℕ
next_strikes none = 1
next_strikes (some state) = state.strikes + 1

-- `nextRetryAt > Date.now()`
abbrev pub is_pending : Option QuarantineState → ℕ → Bool
is_pending none now = false
is_pending (some state) now = ltb now state.next_retry_at

module _ {r : Redis} {L : Type 0} (env : Env r L) (site : Site) (phone_number : String) where
  -- the read-modify-write of `recordStrike`
  unfoldable pub add_strike : Exec r L (Option QuarantineState)
  add_strike = do
    raw ← Exec.get env (Keys.quarantine phone_number)
    let strikes = next_strikes (decode_or_none site.quarantine_json raw)
    now ← Exec.date_now env
    let state : QuarantineState = record {
      strikes = strikes;
      next_retry_at = now + quarantine_backoff_ms site.config strikes;
    }
    Exec.set env (Keys.quarantine phone_number) (site.quarantine_json.stringify state)
        quarantine_ttl_ms
    pure (some state)

  unfoldable pub record_strike : Exec r L (Option QuarantineState)
  unfolding add_strike
  record_strike = if site.config.quarantine_enabled then add_strike else pure none

  -- the read of `isQuarantined`
  unfoldable pub check_pending : Exec r L Bool
  check_pending = do
    raw ← Exec.get env (Keys.quarantine phone_number)
    now ← Exec.date_now env
    pure (is_pending (decode_or_none site.quarantine_json raw) now)

  unfoldable pub is_quarantined : Exec r L Bool
  unfolding check_pending
  is_quarantined = if site.config.quarantine_enabled then check_pending else pure false

  unfoldable pub clear_quarantine : Exec r L (Unit {0})
  clear_quarantine = Exec.del env (Keys.quarantine phone_number)
