-- ===== src/Coordinator/Claim/Claimed.antt =====
-- src/cluster/coordinator.ts: what a background claim finds and leaves behind.
use baileys_api.Prelude.{
  ap, ℕ, String, ◌≡◌, Bool, true, false, Option, none, some, List, arith, refl, eq_refl,
  if◌then◌else◌, same_text, ◌∙◌,
}
use baileys_api.Redis.{Redis, IsRedis}
use baileys_api.Exec.{Env, Exec, State, ok, pure, arrive, ◌>>=◌, ◌>>◌}
use baileys_api.Exec.Steps.{>>=-post}
use baileys_api.Cluster.Keys
use baileys_api.Cluster.Site.{Site, IsSite, Lease}
use baileys_api.Cluster.LeaseStore.{
  acquire_lease, get_lease, get_handoff_target, is_on_own_release_cooldown,
}
use baileys_api.Cluster.LeaseStore.Ownership.{lease_in, owned}
use baileys_api.Cluster.LeaseStore.Claims.{counted, acquire_lease-acquired}
use baileys_api.Cluster.QuarantineStore.{is_quarantined}
use baileys_api.Coordinator.State.{Options, Node, Handler, Sessions}
use baileys_api.Coordinator.{held_epoch, edit}
use baileys_api.Coordinator.Claim.{
  Claim, keep_claim, claim_paired, claim_settled, claim_undirected, claim_directed, claim_unleased,
  claim_phone, unsee, directed_elsewhere,
}

module _ {r : Redis} {H : Type 0} (laws : IsRedis r) (env : Env r (Node H)) (site : Site)
    (sound : IsSite site) (handler : Handler r H) (sessions : Sessions r H)
    (shuffle : List (String × Options) → List (String × Options)) where
  -- After a claim: `begun` is the state in which acquireLease began, and its SET found no lease.
  pub record IsClaimed (id : String) (claim : Claim) (u : State r (Node H)) : Type 0 where
    pub named : claim.id ≡ id
    pub begun : State r (Node H)
    pub answered : (acquire_lease env site id begun).0 ≡ ok (some (owned site claim.epoch))
    pub unleased :
        r.get (arrive env (counted laws env site sound id begun)).db (Keys.lease id) ≡ none
    pub stored : u.db ≡ (acquire_lease env site id begun).1.db
    pub clocked : u.turn ≡ (acquire_lease env site id begun).1.turn
    pub leased : lease_in r site u.db id ≡ some (owned site claim.epoch)
    pub expiring : r.pttl u.db (Keys.lease id) ≡ some site.config.lease_ttl_ms
    pub held : held_epoch id u.local ≡ some claim.epoch

  keep_claim_lem :
      (id : String) (metadata : Options) (t : State r (Node H)) (acquired : Option Lease)
      {claim : Claim}
      → (acquire_lease env site id t).0 ≡ ok acquired
      → (keep_claim env site handler sessions shuffle id metadata acquired
          (acquire_lease env site id t).1).0
        ≡ ok (some claim)
      → IsClaimed id claim
          (keep_claim env site handler sessions shuffle id metadata acquired
            (acquire_lease env site id t).1).1
  keep_claim_lem id metadata t none acquired h = cc
  keep_claim_lem id metadata t (some lease) {claim} acquired h =
      let (is_owned, free, stands, expires) =
        acquire_lease-acquired laws env site sound id t {lease = lease} acquired in
      record {
        named = ground arith;
        begun = t;
        answered = acquired ∙ ap ok (ground arith);
        unleased = free;
        stored = refl;
        clocked = refl;
        leased = stands ∙ ground arith;
        expiring = expires;
        held = ground (arith, eq_refl id);
      }

  -- What returns a claim leaves the phone claimed.
  abbrev IsClaiming : String → Exec r (Node H) (Option Claim) → Type 0
  IsClaiming id m =
      (t : State r (Node H)) (claim : Claim)
      → (m t).0 ≡ ok (some claim)
      → IsClaimed id claim (m t).1

  none-IsClaiming : (id : String) → IsClaiming id (pure none)
  none-IsClaiming id t claim h = cc

  if-IsClaiming :
      {id : String} (b : Bool) {m k : Exec r (Node H) (Option Claim)}
      → IsClaiming id m
      → IsClaiming id k
      → IsClaiming id (if b then m else k)
  if-IsClaiming true first second = first
  if-IsClaiming false first second = second

  after-IsClaiming :
      {A : Type 0} {id : String} (m : Exec r (Node H) A) (f : A → Exec r (Node H) (Option Claim))
      → ((a : A) → IsClaiming id (f a))
      → IsClaiming id (m >>= f)
  after-IsClaiming {A} {id} m f rest t claim h =
      >>=-post m f t (IsClaimed id claim) h (λ a done k. rest a (m t).1 claim k)

  acquire_then_keep :
      (id : String) (metadata : Options)
      → IsClaiming id
          (acquire_lease env site id >>= keep_claim env site handler sessions shuffle id metadata)
  acquire_then_keep id metadata t claim h =
      >>=-post (acquire_lease env site id)
        (keep_claim env site handler sessions shuffle id metadata) t (IsClaimed id claim) h
        (λ acquired done k. keep_claim_lem id metadata t acquired done k)

  claim_paired-IsClaiming :
      (id : String) (metadata : Options)
      → IsClaiming id (claim_paired env site handler sessions shuffle id metadata)
  unfolding claim_paired
  claim_paired-IsClaiming id metadata =
      after-IsClaiming (sessions.is_paired id) _
        (λ paired. if-IsClaiming paired (acquire_then_keep id metadata) (none-IsClaiming id))

  claim_undirected-IsClaiming :
      (full : Bool) (id : String) (metadata : Options)
      → IsClaiming id (claim_undirected env site handler sessions shuffle full id metadata)
  unfolding claim_undirected claim_settled
  claim_undirected-IsClaiming full id metadata = if-IsClaiming full (none-IsClaiming id) (
      after-IsClaiming (is_on_own_release_cooldown env site id) _ (λ cooling.
        if-IsClaiming cooling (none-IsClaiming id) (
          after-IsClaiming (is_quarantined env site id) _ (λ quarantined.
            if-IsClaiming quarantined (none-IsClaiming id) (claim_paired-IsClaiming id metadata)))))

  claim_directed-IsClaiming :
      (target : Option String) (full : Bool) (id : String) (metadata : Options)
      → IsClaiming id (claim_directed env site handler sessions shuffle target full id metadata)
  claim_directed-IsClaiming target full id metadata =
      if-IsClaiming (directed_elsewhere target site.instance_id) (none-IsClaiming id) (
        if-IsClaiming (same_text target site.instance_id) (claim_paired-IsClaiming id metadata)
          (claim_undirected-IsClaiming full id metadata))

  claim_unleased-IsClaiming :
      (now fair_share claimed : ℕ) (id : String) (metadata : Options)
      → IsClaiming id
          (claim_unleased env site handler sessions shuffle now fair_share claimed id metadata)
  unfolding claim_unleased
  claim_unleased-IsClaiming now fair_share claimed id metadata t claim h =
      after-IsClaiming (get_handoff_target env site id) _
        (λ target u c k. claim_directed-IsClaiming target _ id metadata u c k) _ claim h

  -- A phone that the claim cycle has claimed was without a lease when the SET ran; the database then has
  -- this instance's lease under the epoch of the claim, for the configured time, and that
  -- epoch is the one in memory.
  pub claim_phone-IsClaimed :
      (now fair_share claimed : ℕ) (id : String) (metadata : Options) (s : State r (Node H))
      (claim : Claim)
      → (claim_phone env site handler sessions shuffle now fair_share claimed id metadata s).0
        ≡ ok (some claim)
      → IsClaimed id claim
          (claim_phone env site handler sessions shuffle now fair_share claimed id metadata s).1
  unfolding claim_phone
  claim_phone-IsClaimed now fair_share claimed id metadata s claim h =
      after-IsClaiming (get_lease env site id) _ (λ lease. read lease) s claim h
    where
      read :
          (lease : Option Lease)
          → IsClaiming id (elim lease [
            | some l ↦ edit (unsee id) >> pure none
            | none ↦
                claim_unleased env site handler sessions shuffle now fair_share claimed id metadata
          ])
      read none = claim_unleased-IsClaiming now fair_share claimed id metadata
      read (some lease) = λ t u k. cc
