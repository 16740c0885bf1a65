-- ===== src/Watchdog/Stall.antt =====
-- src/baileys/connection.ts (handleSendStall): what a connection does about a send stall, between
-- the answers of the Redis server.
pub mod Verdict
mod Tests
use baileys_api.Prelude.{
  ℕ, ◌+◌, String, Bool, true, false, not, ◌&&◌, Option, none, some, List, [], ◌∷◌, ◌==◌, eqb, leb,
  ltb, get_or, if◌then◌else◌,
}
use baileys_api.Redis.{Redis}
use baileys_api.Exec
use baileys_api.Exec.{
  Env, Exec, Error, Result, ok, throw, pure, catch, settle, gets, modify, ◌>>=◌, ◌>>◌,
}
use baileys_api.Cluster.Site.{Site, Lease}
use baileys_api.Cluster.LeaseStore.{get_lease}
use baileys_api.Cluster.SendStallStore.{
  Recorded, can_restart, record_restart, restore_state, next_restart_allowed_at, clear_send_stall,
}
use baileys_api.Connections.Options.{send_stall_threshold}
use baileys_api.Watchdog.{
  Watchdog, Silence, until, is_open, is_current_generation, send_stall_restart_cooldown_ms,
}

pub data Action : Type 0 where
  restart suppressed cancelled failed : Action

-- What leaves the connection: a report of reportSendStall, with its action, streak and `until`, or a
-- call of requestRestart.
pub data Notice : Type 0 where
  report : Action → ℕ → Option ℕ → Notice
  restart_request : Notice

-- `last_stall_restart_at` is of the class, not of the connection; `none` is -Infinity.
pub record Local : Type 0 where
  pub watchdog : Watchdog
  pub last_stall_restart_at : Option ℕ

abbrev pub on_watchdog : (Watchdog → Watchdog) → Local → Local
on_watchdog f l = record l { watchdog = f l.watchdog }

abbrev pub set_silence : Silence → Local → Local
set_silence silence = on_watchdog (λ w. record w { send_stall_silent_until = silence })

abbrev pub set_restart_requested : Bool → Local → Local
set_restart_requested b = on_watchdog (λ w. record w { restart_requested = b })

abbrev pub set_rollback : Option Recorded → Local → Local
set_rollback rollback = on_watchdog (λ w. record w { stall_strike_rollback = rollback })

-- abort, which discards the connection and has the handler forget it.
abbrev pub abort : Local → Local
abort = on_watchdog (λ w. record w { is_discarded = true; has_socket = false })

abbrev pub is_stall_episode_current : ℕ → Local → Bool
is_stall_episode_current generation l =
    is_open l.watchdog
    && not l.watchdog.is_discarded
    && is_current_generation generation l.watchdog
    && leb send_stall_threshold l.watchdog.consecutive_send_timeouts

abbrev pub is_owned_by_other : String → Option Lease → Bool
is_owned_by_other instance_id none = false
is_owned_by_other instance_id (some lease) = not (lease.owner == instance_id)

-- The condition of claimStallRestartSlot.
abbrev pub is_cooling : Option ℕ → ℕ → Bool
is_cooling none now = false
is_cooling (some last) now = ltb now (last + send_stall_restart_cooldown_ms)

-- What the lookup comes to: nothing more to do, or whether the action is "restart" rather than
-- "suppressed", and the `until`.
pub data Lookup : Type 0 where
  ended : Lookup
  decided : Bool → Option ℕ → Lookup

module _ {r : Redis} (env : Env r Local) (site : Site) (phone_number : String) where
  unfoldable pub should_yield_to_lease_owner : Exec r Local Bool
  should_yield_to_lease_owner =
      catch
        (do
          lease ← get_lease env site phone_number
          pure (is_owned_by_other site.instance_id lease))
        (λ e. pure false)

  abbrev pub is_current : ℕ → Exec r Local Bool
  is_current generation = gets (is_stall_episode_current generation)

  -- `this.sendStallSilentUntil = 0; return;`
  abbrev pub rearm : Exec r Local Lookup
  rearm = modify (set_silence (until 0)) >> pure ended

  unfoldable pub claim_stall_restart_slot : Exec r Local Bool
  claim_stall_restart_slot = do
    now ← Exec.performance_now env
    cooling ← gets (λ l. is_cooling l.last_stall_restart_at now)
    if cooling
        then pure false
        else (modify (λ l. record l { last_stall_restart_at = some now }) >> pure true)

  unfoldable pub claim_slot : Exec r Local Lookup
  unfolding claim_stall_restart_slot
  claim_slot = do
    claimed ← claim_stall_restart_slot
    if claimed then pure (decided true none) else rearm

  unfoldable pub back_off : ℕ → Exec r Local Lookup
  back_off generation = do
    allowed_at ← next_restart_allowed_at env site phone_number
    current ← is_current generation
    if current
        then (modify (set_silence (until (get_or allowed_at 0))) >> pure (decided false allowed_at))
        else rearm

  -- The block of the first `try`.
  unfoldable pub look_up : ℕ → Exec r Local Lookup
  unfolding should_yield_to_lease_owner claim_slot back_off
  look_up generation = do
    may_restart ← can_restart env site phone_number
    owned_elsewhere ← should_yield_to_lease_owner
    current ← is_current generation
    if not current
        then rearm
        else if owned_elsewhere
        then (modify abort >> pure ended)
        else if may_restart
        then claim_slot
        else back_off generation

  abbrev pub cool_down : ℕ → Exec r Local Lookup
  cool_down now =
      modify (set_silence (until (now + send_stall_restart_cooldown_ms)))
      >> pure (decided false none)

  -- Its `catch`.
  unfoldable pub lookup_failed : ℕ → Exec r Local Lookup
  lookup_failed generation = do
    current ← is_current generation
    now ← Exec.date_now env
    if current then cool_down now else rearm

  unfoldable pub clear_or_restore : Recorded → Exec r Local (Unit {0})
  clear_or_restore rollback = do
    session_ended ← gets (λ l. l.watchdog.session_ended)
    if session_ended
        then clear_send_stall env site phone_number
        else restore_state env site phone_number rollback.previous rollback.previous_ttl_ms
            rollback.wrote

  abbrev pub undo : Option Recorded → Exec r Local (Unit {0})
  undo none = pure tt
  undo (some rollback) = catch (clear_or_restore rollback) (λ e. pure tt)

  unfoldable pub roll_back_stall_strike : Exec r Local (Unit {0})
  unfolding clear_or_restore
  roll_back_stall_strike = do
    rollback ← gets (λ l. l.watchdog.stall_strike_rollback)
    modify (set_rollback none)
    undo rollback

  -- The results from here on are the notices that leave the connection, in order: the source returns
  -- nothing. Here the restart is off, and this episode's strike is taken back.
  unfoldable pub give_up : Exec r Local (List Notice)
  unfolding roll_back_stall_strike
  give_up = roll_back_stall_strike >> pure []

  unfoldable pub give_up_session : Exec r Local (List Notice)
  give_up_session = do
    modify (set_rollback none)
    catch (clear_send_stall env site phone_number) (λ e. pure tt)
    pure []

  unfoldable pub give_up_phone : Exec r Local (List Notice)
  unfolding roll_back_stall_strike
  give_up_phone = do roll_back_stall_strike; modify abort; pure []

  -- After the strike is written.
  unfoldable pub after_strike : ℕ → Option ℕ → Bool → Watchdog → Exec r Local (List Notice)
  unfolding give_up give_up_session give_up_phone
  after_strike streak allowed_at owned_elsewhere w =
      if w.session_ended
      then give_up_session
      else if w.is_discarded
      then give_up
      else if owned_elsewhere
      then give_up_phone
      else if not w.restart_requested
      then give_up
      else pure (report restart streak allowed_at ∷ restart_request ∷ [])

  abbrev pub end_episode : Exec r Local (List Notice)
  end_episode = modify (set_silence (until 0)) >> pure []

  abbrev pub suppress : ℕ → ℕ → Exec r Local (List Notice)
  suppress streak now = do
    modify (set_silence (until (now + send_stall_restart_cooldown_ms)))
    pure (report suppressed streak none ∷ [])

  unfoldable pub strike_failed : ℕ → ℕ → Exec r Local (List Notice)
  strike_failed generation streak = do
    modify (set_restart_requested false)
    current ← is_current generation
    now ← Exec.date_now env
    if current then suppress streak now else end_episode

  -- The second `try`, with its `catch`.
  abbrev pub struck : ℕ → ℕ → Option ℕ → Result (Recorded × Bool) → Exec r Local (List Notice)
  struck generation streak allowed_at (throw e) = strike_failed generation streak
  struck generation streak allowed_at (ok (recorded, owned_elsewhere)) = do
    modify (set_rollback (some recorded))
    w ← gets (λ l. l.watchdog)
    after_strike streak allowed_at owned_elsewhere w

  unfoldable pub strike : Exec r Local (Recorded × Bool)
  unfolding should_yield_to_lease_owner
  strike = do
    recorded ← record_restart env site phone_number
    owned_elsewhere ← should_yield_to_lease_owner
    pure (recorded, owned_elsewhere)

  unfoldable pub go_on : ℕ → ℕ → Option ℕ → Exec r Local (List Notice)
  unfolding strike strike_failed after_strike
  go_on generation streak allowed_at = do
    current ← is_current generation
    if current
        then (do
          modify (set_restart_requested true)
          settle strike (struck generation streak allowed_at))
        else end_episode

  abbrev pub conclude : ℕ → ℕ → Lookup → Exec r Local (List Notice)
  conclude generation streak ended = pure []
  conclude generation streak (decided true allowed_at) = go_on generation streak allowed_at
  conclude generation streak (decided false allowed_at) =
      pure (report suppressed streak allowed_at ∷ [])

  -- `enabled` is config.baileys.sendStallRestartEnabled.
  unfoldable pub handle_send_stall : Bool → ℕ → Exec r Local (List Notice)
  unfolding look_up lookup_failed go_on
  handle_send_stall enabled streak = do
    generation ← gets (λ l. l.watchdog.socket_generation)
    verdict ←
        if enabled
        then catch (look_up generation) (λ e. lookup_failed generation)
        else pure (decided false none)
    conclude generation streak verdict

  unfoldable pub withdraw_stall_restart : ℕ → Exec r Local (List Notice)
  unfolding roll_back_stall_strike
  withdraw_stall_restart streak = do
    modify (set_restart_requested false)
    roll_back_stall_strike
    pure (report cancelled streak none ∷ [])

  abbrev pub report_failed_stall_restart : Exec r Local (List Notice)
  report_failed_stall_restart = pure (report failed 0 none ∷ [])
