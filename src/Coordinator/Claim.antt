-- ===== src/Coordinator/Claim.antt =====
-- src/cluster/coordinator.ts: the claim cycle, by which instances share out the stored sessions
-- that no instance holds.
pub mod Claimed
use baileys_api.Prelude.{
  ℕ, suc, ◌+◌, ◌-◌, ◌*◌, ◌/◌, max, String, Bool, true, false, Option, none, some, List, [], ◌∷◌,
  ◌++◌, ◌==◌, ◌&&◌, ◌||◌, not, ltb, leb, if◌then◌else◌, length, same_text, get_or,
}
use baileys_api.Redis.{Redis}
use baileys_api.Exec
use baileys_api.Exec.{Env, Exec, Result, ok, throw, pure, catch, settle, ◌>>=◌, ◌>>◌}
use baileys_api.Cluster.Site.{Site, Lease, InstanceInfo}
use baileys_api.Cluster.LeaseStore.{
  get_lease, get_handoff_target, is_on_own_release_cooldown, acquire_lease,
}
use baileys_api.Cluster.QuarantineStore.{is_quarantined}
use baileys_api.Cluster.InstanceRegistry.{list_live_instances}
use baileys_api.Coordinator.State.{
  Options, Coordinator, Node, Handler, Sessions, update, contains, is_epoch,
}
use baileys_api.Coordinator.{
  edit, announce, hold, ignore, held_epoch, release_held_lease, abandon_explicit_lease,
  has_connection,
}
use baileys_api.Coordinator.Renew.{size}

-- A phone that this cycle has claimed.
pub record Claim : Type 0 where
  pub id : String
  pub metadata : Options
  pub epoch : ℕ

abbrev pub unsee : String → Coordinator → Coordinator
unsee id c = record c { first_seen_unleased_at = update c.first_seen_unleased_at id none }

-- `now` where the phone was not seen before.
abbrev pub see : String → ℕ → Coordinator → Coordinator
see id now c = record c {
  first_seen_unleased_at =
      update c.first_seen_unleased_at id (some (get_or (c.first_seen_unleased_at id) now));
}

abbrev pub count_claim : ℕ → Coordinator → Coordinator
count_claim now c = record c { last_claim_at = now }

-- `handoffTarget && handoffTarget !== instanceId`
abbrev pub directed_elsewhere : Option String → String → Bool
directed_elsewhere none id = false
directed_elsewhere (some target) id = not (target == "") && not (target == id)

abbrev pub filter : {A : Type 0} → (A → Bool) → List A → List A
filter p [] = []
filter p (x ∷ l) = if p x then x ∷ filter p l else filter p l

-- `Math.ceil(a / b)` for a positive b
abbrev pub ceil_div : ℕ → ℕ → ℕ
ceil_div a b = (a + (b - 1)) / b

abbrev pub saved_ids : List (String × Options) → List String
saved_ids [] = []
saved_ids ((id, metadata) ∷ saved) = id ∷ saved_ids saved

abbrev pub live_count : List InstanceInfo → ℕ
live_count instances = max (length (filter (λ (i : InstanceInfo). not i.draining) instances)) 1

abbrev pub add_claim : List Claim → Option Claim → List Claim
add_claim claimed none = claimed
add_claim claimed (some claim) = claimed ++ (claim ∷ [])

abbrev pub add_result : List Claim → Result (Option Claim) → List Claim
add_result claimed (ok o) = add_claim claimed o
add_result claimed (throw e) = claimed

module _ {r : Redis} {H : Type 0} (env : Env r (Node H)) (site : Site)
    (sessions : Sessions r H) where
  unfoldable pub list_live : Exec r (Node H) (List InstanceInfo)
  list_live = do keys ← sessions.instance_keys; list_live_instances env site keys

-- `shuffle` is the order that `Math.random` gives.
module _ {r : Redis} {H : Type 0} (env : Env r (Node H)) (site : Site) (handler : Handler r H)
    (sessions : Sessions r H) (shuffle : List (String × Options) → List (String × Options)) where
  abbrev pub keep_claim : String → Options → Option Lease → Exec r (Node H) (Option Claim)
  keep_claim id metadata none = pure none
  keep_claim id metadata (some lease) = do
    now ← Exec.performance_now env
    edit (λ c. count_claim now (unsee id (hold id lease.epoch now c)))
    announce id
    pure (some (record { id = id; metadata = metadata; epoch = lease.epoch }))

  unfoldable pub claim_paired : String → Options → Exec r (Node H) (Option Claim)
  claim_paired id metadata = do
    paired ← sessions.is_paired id
    if paired
        then (do acquired ← acquire_lease env site id; keep_claim id metadata acquired)
        else pure none

  unfoldable pub claim_settled : String → Options → Exec r (Node H) (Option Claim)
  unfolding claim_paired
  claim_settled id metadata = do
    quarantined ← is_quarantined env site id
    if quarantined then pure none else claim_paired id metadata

  -- Without a handoff to this instance.
  unfoldable pub claim_undirected : Bool → String → Options → Exec r (Node H) (Option Claim)
  unfolding claim_settled
  claim_undirected full id metadata = if full then pure none else (do
    cooling ← is_on_own_release_cooldown env site id
    if cooling then pure none else claim_settled id metadata)

  abbrev pub claim_directed :
      Option String → Bool → String → Options → Exec r (Node H) (Option Claim)
  claim_directed target full id metadata =
      if directed_elsewhere target site.instance_id
      then pure none
      else if same_text target site.instance_id
      then claim_paired id metadata
      else claim_undirected full id metadata

  -- The phone has been without a lease for the grace time.
  abbrev pub is_orphaned : ℕ → String → Node H → Bool
  is_orphaned now id n =
      leb (get_or (n.coordinator.first_seen_unleased_at id) now + site.config.unclaimed_grace_ms)
        now

  unfoldable pub claim_unleased : ℕ → ℕ → ℕ → String → Options → Exec r (Node H) (Option Claim)
  unfolding claim_paired claim_undirected
  claim_unleased now fair_share claimed id metadata = do
    edit (see id now)
    orphaned ← Exec.gets (is_orphaned now id)
    target ← get_handoff_target env site id
    held ← Exec.gets (size env site handler)
    claim_directed target (leb fair_share (held + claimed) && not orphaned) id metadata

  -- The `try` block of the scan, for one phone.
  unfoldable pub claim_phone : ℕ → ℕ → ℕ → String → Options → Exec r (Node H) (Option Claim)
  unfolding claim_unleased
  claim_phone now fair_share claimed id metadata = do
    lease ← get_lease env site id
    elim lease [
      | some l ↦ edit (unsee id) >> pure none
      | none ↦ claim_unleased now fair_share claimed id metadata
    ]

  unfoldable pub scan : ℕ → ℕ → List (String × Options) → List Claim → Exec r (Node H) (List Claim)
  unfolding claim_phone
  scan now fair_share [] claimed = pure claimed
  scan now fair_share ((id, metadata) ∷ rest) claimed = do
    draining ← Exec.gets (λ n. n.coordinator.draining)
    if draining
        then pure claimed
        else settle (claim_phone now fair_share (length claimed) id metadata)
            (λ res. scan now fair_share rest (add_result claimed res))

  unfoldable pub give_back : String → Exec r (Node H) (Unit {0})
  give_back id = ignore (release_held_lease env site id) >> announce id

  unfoldable pub give_back_all : List Claim → Exec r (Node H) (Unit {0})
  unfolding give_back
  give_back_all [] = pure tt
  give_back_all (claim ∷ claims) = give_back claim.id >> give_back_all claims

  -- The stored metadata has no `isReconnect` of its own.
  unfoldable pub reconnect : Claim → Exec r (Node H) (Unit {0})
  unfolding give_back
  reconnect claim = do
    draining ← Exec.gets (λ n. n.coordinator.draining)
    held ← Exec.gets (held_epoch claim.id)
    if draining
        then give_back claim.id
        else if not (is_epoch held claim.epoch)
        then pure tt
        else catch
            (do
              handler.connect claim.id (λ n.
                  some
                    (record claim.metadata { is_reconnect = true; lease_epoch = some claim.epoch }))
              pure tt)
            (λ e.
              ignore (abandon_explicit_lease env site claim.id claim.epoch) >> announce claim.id)

  -- The chunks, one connection after another.
  unfoldable pub reconnect_all : List Claim → Exec r (Node H) (Unit {0})
  unfolding reconnect
  reconnect_all [] = pure tt
  reconnect_all (claim ∷ claims) = reconnect claim >> reconnect_all claims

  unfoldable pub settle_claims : List Claim → Exec r (Node H) (Unit {0})
  unfolding give_back_all reconnect_all
  settle_claims [] = pure tt
  settle_claims (claim ∷ claims) = do
    draining ← Exec.gets (λ n. n.coordinator.draining)
    if draining then give_back_all (claim ∷ claims) else reconnect_all (claim ∷ claims)

  -- The removal of entries of `firstSeenUnleasedAt`.
  abbrev pub prune_seen : List String → Node H → Node H
  prune_seen ids n = record n {
    coordinator = record n.coordinator {
      first_seen_unleased_at = λ phone.
          if not (contains ids phone) || has_connection env site handler sessions phone n.handler
          then none
          else n.coordinator.first_seen_unleased_at phone;
    };
  }

  abbrev pub unconnected : List (String × Options) → Node H → List (String × Options)
  unconnected saved n =
      filter
        (λ (p : String × Options). not (has_connection env site handler sessions p.0 n.handler))
        saved

  unfoldable pub claim_among :
      List (String × Options) → List InstanceInfo → Exec r (Node H) (Unit {0})
  unfolding scan settle_claims
  claim_among saved instances = do
    now ← Exec.performance_now env
    candidates ← Exec.gets (unconnected saved)
    claimed ← scan now (ceil_div (length saved) (live_count instances)) (shuffle candidates) []
    settle_claims claimed

  abbrev pub is_paused : Node H → Bool
  is_paused n = n.coordinator.draining || n.coordinator.redis_degraded

  -- From a list of stored sessions that is not empty.
  unfoldable pub claim_saved : List (String × Options) → Exec r (Node H) (Unit {0})
  unfolding list_live claim_among
  claim_saved [] = pure tt
  claim_saved (first ∷ saved) =
      settle (list_live env site sessions) (λ res. elim res [
        | throw e ↦ pure tt
        | ok instances ↦ claim_among (first ∷ saved) instances
      ])

  unfoldable pub run_claim_cycle : Exec r (Node H) (Unit {0})
  unfolding claim_saved
  run_claim_cycle = do
    paused ← Exec.gets is_paused
    if paused then pure tt else (do
      saved ← sessions.saved_auth_state_ids
      Exec.modify (prune_seen (saved_ids saved))
      claim_saved saved)
