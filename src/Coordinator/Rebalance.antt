-- ===== src/Coordinator/Rebalance.antt =====
-- src/cluster/coordinator.ts: the rebalance cycle, which sheds one phone at a time.
pub mod Victims
use baileys_api.Prelude.{
  ℕ, ◌+◌, ◌-◌, ◌*◌, String, Bool, true, false, Option, none, some, List, [], ◌∷◌, ◌==◌, ◌&&◌, ◌||◌,
  not, ltb, leb, eqb, if◌then◌else◌, length, get_or,
}
use baileys_api.Redis.{Redis}
use baileys_api.Exec
use baileys_api.Exec.{Env, Exec, Result, ok, throw, pure, catch, settle, ◌>>=◌, ◌>>◌}
use baileys_api.Cluster.Site.{Site, InstanceInfo}
use baileys_api.Cluster.LeaseStore.{set_release_cooldown, set_handoff_target}
use baileys_api.Coordinator.State.{Options, Coordinator, Node, Activity, Handler, Sessions}
use baileys_api.Coordinator.{edit, announce, ignore, release_held_lease}
use baileys_api.Coordinator.Renew.{size, sort, earlier, set_degraded}
use baileys_api.Coordinator.Claim.{filter, ceil_div, list_live}

abbrev pub rebalance_force_factor : ℕ
rebalance_force_factor = 2

-- `now - time < interval`, where `none` is -Infinity.
abbrev pub is_within : ℕ → Option ℕ → ℕ → Bool
is_within now none interval = false
is_within now (some time) interval = ltb now (time + interval)

-- The first of the least loaded.
abbrev pub least_loaded : InstanceInfo → List InstanceInfo → InstanceInfo
least_loaded best [] = best
least_loaded best (candidate ∷ peers) =
    least_loaded (if ltb candidate.connection_count best.connection_count then candidate else best)
      peers

abbrev pub released_at : ℕ → Coordinator → Coordinator
released_at now c = record c { last_rebalance_release_at = some now }

-- A phone with its activity; the phones without a connection are left out.
abbrev pub add_candidate :
    String → Option Activity → List (String × Activity) → List (String × Activity)
add_candidate phone none l = l
add_candidate phone (some activity) l = (phone, activity) ∷ l

abbrev pub phones_of : List (String × Activity) → List String
phones_of [] = []
phones_of ((phone, activity) ∷ l) = phone ∷ phones_of l

-- `lastTrafficAt === null || now - lastTrafficAt >= rebalanceIdleThresholdMs`
abbrev pub is_quiet : ℕ → ℕ → Option ℕ → Bool
is_quiet now threshold none = true
is_quiet now threshold (some time) = leb (time + threshold) now

module _ {r : Redis} {H : Type 0} (env : Env r (Node H)) (site : Site) (handler : Handler r H)
    (sessions : Sessions r H) where
  abbrev pub candidates_of : H → List String → List (String × Activity)
  candidates_of h [] = []
  candidates_of h (phone ∷ phones) =
      add_candidate phone (handler.connection_activity h phone) (candidates_of h phones)

  abbrev pub candidates : Node H → List (String × Activity)
  candidates n = candidates_of n.handler (handler.active_phone_numbers n.handler)

  abbrev pub is_idle : ℕ → String × Activity → Bool
  is_idle now (phone, activity) =
      eqb activity.in_flight_webhooks 0
      && is_quiet now site.config.rebalance_idle_threshold_ms activity.last_traffic_at

  abbrev pub later_claim : Node H → String × Activity → String × Activity → Bool
  later_claim n (p, a) (q, b) =
      ltb (get_or (n.coordinator.claimed_at q) 0) (get_or (n.coordinator.claimed_at p) 0)

  abbrev pub earlier_traffic : String × Activity → String × Activity → Bool
  earlier_traffic (p, a) (q, b) = earlier a.last_traffic_at b.last_traffic_at

  abbrev pub idle_phones : ℕ → Node H → List String
  idle_phones now n = phones_of (sort (later_claim n) (filter (is_idle now) (candidates n)))

  abbrev pub phones_by_activity : List (String × Activity) → List String
  phones_by_activity l = phones_of (sort earlier_traffic l)

  unfoldable pub first_paired : List String → Exec r (Node H) (Option String)
  first_paired [] = pure none
  first_paired (phone ∷ phones) = do
    paired ← catch (sessions.is_paired phone) (λ e. pure false)
    if paired then pure (some phone) else first_paired phones

  abbrev pub or_forced :
      Bool → List (String × Activity) → Option String → Exec r (Node H) (Option String)
  or_forced forced l (some phone) = pure (some phone)
  or_forced forced l none = if forced then first_paired (phones_by_activity l) else pure none

  unfoldable pub pick_rebalance_victim : Bool → Exec r (Node H) (Option String)
  unfolding first_paired
  pick_rebalance_victim forced = do
    now ← Exec.performance_now env
    found ← Exec.gets candidates
    idle ← Exec.gets (idle_phones now)
    picked ← first_paired idle
    or_forced forced found picked

  unfoldable pub steer : String → String → Exec r (Node H) (Unit {0})
  steer victim target =
      ignore (set_release_cooldown env site victim >> set_handoff_target env site victim target)

  unfoldable pub after_release : String → Result (Unit {0}) → Exec r (Node H) (Unit {0})
  after_release victim (ok u) = do
    announce victim
    now ← Exec.performance_now env
    edit (released_at now)
  after_release victim (throw e) = do edit (set_degraded true); announce victim

  unfoldable pub migrate : String → String → Exec r (Node H) (Unit {0})
  unfolding steer after_release
  migrate victim target = do
    handler.discard_connection victim
    steer victim target
    settle (release_held_lease env site victim) (after_release victim)

  abbrev pub migrate_picked : String → Option String → Exec r (Node H) (Unit {0})
  migrate_picked target none = pure tt
  migrate_picked target (some victim) = migrate victim target

  abbrev pub is_peer : InstanceInfo → Bool
  is_peer instance_info =
      not (instance_info.instance_id == site.instance_id) && not instance_info.draining

  -- With the least loaded of the peers, the fair share and the count of connections here.
  unfoldable pub shed : InstanceInfo → ℕ → ℕ → Exec r (Node H) (Unit {0})
  unfolding pick_rebalance_victim migrate
  shed target fair_share my_count =
      if leb my_count (fair_share + site.config.rebalance_tolerance)
      then pure tt
      else if leb (my_count - 1) target.connection_count
      then pure tt
      else do
        victim ← pick_rebalance_victim (ltb (fair_share * rebalance_force_factor) my_count)
        migrate_picked target.instance_id victim

  unfoldable pub rebalance_among : List InstanceInfo → Exec r (Node H) (Unit {0})
  unfolding shed
  rebalance_among [] = pure tt
  rebalance_among (peer ∷ peers) = do
    saved ← sessions.saved_auth_state_ids
    my_count ← Exec.gets (size env site handler)
    shed (least_loaded peer peers) (ceil_div (length saved) (length (peer ∷ peers) + 1)) my_count

  -- Too soon after a release, or after a claim.
  abbrev pub is_unsteady : ℕ → Coordinator → Bool
  is_unsteady now c =
      is_within now c.last_rebalance_release_at site.config.rebalance_release_interval_ms
      || (ltb 0 c.last_claim_at
          && is_within now (some c.last_claim_at) site.config.unclaimed_grace_ms)

  abbrev pub is_off : Coordinator → Bool
  is_off c = not site.config.rebalance_enabled || (c.draining || c.redis_degraded)

  unfoldable pub run_rebalance_cycle : Exec r (Node H) (Unit {0})
  unfolding rebalance_among
  run_rebalance_cycle = do
    now ← Exec.performance_now env
    off ← Exec.gets (λ n. is_off n.coordinator)
    unsteady ← Exec.gets (λ n. is_unsteady now n.coordinator)
    if off || unsteady then pure tt else (do
      instances ← catch (list_live env site sessions) (λ e. pure [])
      rebalance_among (filter is_peer instances))
