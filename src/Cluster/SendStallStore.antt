-- ===== src/Cluster/SendStallStore.antt =====
-- src/cluster/sendStallStore.ts: restarts of phones whose sends stall, under a backoff, written by
-- compare-and-set.
pub mod Strikes
pub mod Undo
use Prim.Native.String.{◌++◌}
use baileys_api.Prelude.{
  ℕ, zero, suc, ◌+◌, ◌<◌, String, Bool, true, false, Option, none, some, ltb, leb, ◌==◌, ◌&&◌, ◌||◌,
  if◌then◌else◌, same_text, get_or,
}
use baileys_api.Redis.{Redis}
use baileys_api.Json.{decode_or_none}
use baileys_api.Exec
use baileys_api.Exec.{
  Env, Exec, Result, ok, throw, failure, pure, raise, catch, call, ◌>>=◌, ◌>>◌, absent,
}
use baileys_api.Cluster.Keys
use baileys_api.Cluster.Site.{Site, SendStallState}
use baileys_api.Cluster.Backoff.{send_stall_backoff_ms}

-- one day
abbrev pub send_stall_ttl_ms : ℕ
send_stall_ttl_ms = 86400000

abbrev pub cas_attempts : ℕ
cas_attempts = 3

-- What `recordRestart` returns.
pub record Recorded : Type 0 where
  pub state : SendStallState
  pub previous : Option SendStallState
  pub previous_ttl_ms : Option ℕ
  pub wrote : String

-- `(previous?.restarts ?? 0) + 1`
abbrev pub next_restarts : Option SendStallState → ℕ
next_restarts none = 1
next_restarts (some state) = state.restarts + 1

-- `!state || state.nextRestartAllowedAt <= Date.now()`
abbrev pub is_allowed : Option SendStallState → ℕ → Bool
is_allowed none now = true
is_allowed (some state) now = leb state.next_restart_allowed_at now

-- `state?.nextRestartAllowedAt ?? null`
abbrev pub allowed_at : Option SendStallState → Option ℕ
allowed_at none = none
allowed_at (some state) = some state.next_restart_allowed_at

-- The condition of CAS_SCRIPT.
abbrev pub cas_holds : Option String → String → Bool
cas_holds raw expected = (absent raw && expected == "") || same_text raw expected

-- `typeof ttl === "number" && ttl > 0 ? ttl : null`
abbrev pub positive : Option ℕ → Option ℕ
positive none = none
positive (some ttl) = if ltb 0 ttl then some ttl else none

module _ {r : Redis} {L : Type 0} where
  abbrev pub retry : Exec r L Recorded → Option Recorded → Exec r L Recorded
  retry again none = again
  retry again (some recorded) = pure recorded

module _ {r : Redis} {L : Type 0} (env : Env r L) (site : Site) where
  read_state : String → Exec r L (Option SendStallState)
  read_state key = do raw ← Exec.get env key; pure (decode_or_none site.send_stall_json raw)

  unfoldable pub can_restart : String → Exec r L Bool
  unfolding read_state
  can_restart phone_number = do
    state ← read_state (Keys.send_stall phone_number)
    now ← Exec.date_now env
    pure (is_allowed state now)

  -- CAS_SCRIPT: true for its reply 1
  unfoldable pub cas : String → String → String → ℕ → Exec r L Bool
  cas key expected value ttl_ms =
      call env (λ d. ok (cas_holds (r.get d key) expected))
        (λ d. if cas_holds (r.get d key) expected then r.set d key value (some ttl_ms) else d)

  -- CAD_SCRIPT
  unfoldable pub cad : String → String → Exec r L Bool
  cad key expected =
      call env (λ d. ok (same_text (r.get d key) expected))
        (λ d. if same_text (r.get d key) expected then r.del d key else d)

  unfoldable pub read_ttl_ms : String → Exec r L (Option ℕ)
  read_ttl_ms key = catch (do ttl ← Exec.pttl env key; pure (positive ttl)) (λ e. pure none)

  -- `previous === null ? null : await readTtlMs(key)`
  unfoldable pub read_previous_ttl : String → Option SendStallState → Exec r L (Option ℕ)
  unfolding read_ttl_ms
  read_previous_ttl key none = pure none
  read_previous_ttl key (some previous) = read_ttl_ms key

  -- One round of the loop: what it wrote, or null where the compare-and-set was lost.
  unfoldable pub attempt_restart : String → Exec r L (Option Recorded)
  unfolding read_previous_ttl cas
  attempt_restart key = do
    raw ← Exec.get env key
    let previous = decode_or_none site.send_stall_json raw
    previous_ttl_ms ← read_previous_ttl key previous
    let restarts = next_restarts previous
    now ← Exec.date_now env
    let state : SendStallState = record {
      restarts = restarts;
      next_restart_allowed_at = now + send_stall_backoff_ms restarts;
    }
    let wrote = site.send_stall_json.stringify state
    applied ← cas key (get_or raw "") wrote send_stall_ttl_ms
    pure (
        if applied
        then some (record {
          state = state;
          previous = previous;
          previous_ttl_ms = previous_ttl_ms;
          wrote = wrote;
        })
        else none)

  -- `for (attempt < CAS_ATTEMPTS)`, by the rounds that are left
  unfoldable pub attempts : ℕ → String → String → Exec r L Recorded
  unfolding attempt_restart
  attempts zero key phone_number =
      raise (
        failure ("send-stall strike for " ++ phone_number ++ " lost every compare-and-set attempt"))
  attempts (suc n) key phone_number = attempt_restart key >>= retry (attempts n key phone_number)

  unfoldable pub record_restart : String → Exec r L Recorded
  unfolding attempts
  record_restart phone_number = attempts cas_attempts (Keys.send_stall phone_number) phone_number

  unfoldable pub restore_state :
      String → Option SendStallState → Option ℕ → String → Exec r L (Unit {0})
  unfolding cas cad
  restore_state phone_number none ttl_ms expected = do
    cad (Keys.send_stall phone_number) expected
    pure tt
  restore_state phone_number (some previous) ttl_ms expected = do
    cas (Keys.send_stall phone_number) expected (site.send_stall_json.stringify previous)
        (get_or ttl_ms send_stall_ttl_ms)
    pure tt

  unfoldable pub next_restart_allowed_at : String → Exec r L (Option ℕ)
  unfolding read_state
  next_restart_allowed_at phone_number = do
    state ← read_state (Keys.send_stall phone_number)
    pure (allowed_at state)

  unfoldable pub clear_send_stall : String → Exec r L (Unit {0})
  clear_send_stall phone_number = Exec.del env (Keys.send_stall phone_number)
