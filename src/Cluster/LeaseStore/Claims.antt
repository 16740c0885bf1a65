-- ===== src/Cluster/LeaseStore/Claims.antt =====
-- src/cluster/leaseStore.ts: what a claim and a takeover leave behind, whatever runs before each of
-- their two commands.
use baileys_api.Prelude.{
  ap, sym, ◌∙◌, ℕ, suc, String, ◌≡◌, ◌≢◌, Bool, true, false, Option, none, some, eq_refl, arith,
  refl, if◌then◌else◌, Bool-cases, inl, inr,
}
use baileys_api.Redis.{Redis, IsRedis}
use baileys_api.Exec
use baileys_api.Exec.{Env, State, Exec, Result, ok, throw, call, arrive, absent, pure, ◌>>=◌, ◌>>◌}
use baileys_api.Exec.Steps.{>>=-ok}
use baileys_api.Cluster.Keys
use baileys_api.Cluster.Site.{Site, IsSite, Lease}
use baileys_api.Cluster.LeaseStore.{acquire_lease, force_acquire_lease}
use baileys_api.Cluster.LeaseStore.Ownership.{lease_in, owned}

module _ {r : Redis} {L : Type 0} (laws : IsRedis r) (env : Env r L) (k v : String) (px : ℕ)
    (s : State r L) where
  set_nx-true :
      (Exec.set_nx env k v px s).0 ≡ ok true
      → (r.get (arrive env s).db k ≡ none)
        × (r.get (Exec.set_nx env k v px s).1.db k ≡ some v)
        × (r.pttl (Exec.set_nx env k v px s).1.db k ≡ some px)
  unfolding Exec.set_nx call
  set_nx-true h = (
    ground arith,
    ground (arith, laws.get-set (arrive env s).db k k v (some px), eq_refl k),
    ground (arith, laws.pttl-set (arrive env s).db k k v (some px), eq_refl k),
  )

  set_nx-false :
      (Exec.set_nx env k v px s).0 ≡ ok false
      → (r.get (arrive env s).db k ≢ none) × ((Exec.set_nx env k v px s).1.db ≡ (arrive env s).db)
  unfolding Exec.set_nx call
  set_nx-false h = (ground arith, ground arith)

  set-ok :
      (Exec.set env k v px s).0 ≡ ok tt
      → (r.get (Exec.set env k v px s).1.db k ≡ some v)
        × (r.pttl (Exec.set env k v px s).1.db k ≡ some px)
  unfolding Exec.set call
  set-ok h = (
    ground (arith, laws.get-set (arrive env s).db k k v (some px), eq_refl k),
    ground (arith, laws.pttl-set (arrive env s).db k k v (some px), eq_refl k),
  )

module _ {r : Redis} {L : Type 0} (laws : IsRedis r) (env : Env r L) (site : Site)
    (sound : IsSite site) (phone : String) (s : State r L) where
  -- The state after the INCR of the phone's epoch counter.
  abbrev pub counted : State r L
  counted = (Exec.incr env (Keys.lease_epoch phone) s).1

  abbrev pub next_epoch : ℕ
  next_epoch = suc (r.count (arrive env s).db (Keys.lease_epoch phone))

  incr-ok : {e : ℕ} → (Exec.incr env (Keys.lease_epoch phone) s).0 ≡ ok e → e ≡ next_epoch
  unfolding Exec.incr call
  incr-ok {e} h = ground (
    arith,
    laws.count-incr (arrive env s).db (Keys.lease_epoch phone) (Keys.lease_epoch phone),
    eq_refl (Keys.lease_epoch phone),
  )

  abbrev claim : ℕ → Exec r L (Option Lease)
  claim e = do
    result ←
        Exec.set_nx env (Keys.lease phone) (site.lease_json.stringify (owned site e))
          site.config.lease_ttl_ms
    pure (if result then some (owned site e) else none)

  claim_won :
      (e : ℕ) (t : State r L) {lease : Lease}
      → (claim e t).0 ≡ ok (some lease)
      → (lease ≡ owned site e)
        × (r.get (arrive env t).db (Keys.lease phone) ≡ none)
        × (lease_in r site (claim e t).1.db phone ≡ some lease)
        × (r.pttl (claim e t).1.db (Keys.lease phone) ≡ some site.config.lease_ttl_ms)
  claim_won e t {lease} h =
      let text = site.lease_json.stringify (owned site e) in
      let (won, done, step) =
        >>=-ok (Exec.set_nx env (Keys.lease phone) text site.config.lease_ttl_ms)
          (λ (b : Bool). pure (if b then some (owned site e) else none)) t h in
      let set =
        λ (w : won ≡ true). set_nx-true laws env (Keys.lease phone) text _ t (rw w at done) in
      elim (Bool-cases won) [
        | inl yes_won ↦ (
          ground arith,
          (set yes_won).0,
          rw step (rw (set yes_won).1 (sound.lease_round (owned site e) ∙ ground arith)),
          rw step (set yes_won).2,
        )
        | inr not_won ↦ ground arith
      ]

  claim_lost :
      (e : ℕ) (t : State r L)
      → (claim e t).0 ≡ ok none
      → (r.get (arrive env t).db (Keys.lease phone) ≢ none) × ((claim e t).1.db ≡ (arrive env t).db)
  claim_lost e t h =
      let text = site.lease_json.stringify (owned site e) in
      let (won, done, step) =
        >>=-ok (Exec.set_nx env (Keys.lease phone) text site.config.lease_ttl_ms)
          (λ (b : Bool). pure (if b then some (owned site e) else none)) t h in
      elim (Bool-cases won) [
        | inl yes_won ↦ ground arith
        | inr not_won ↦ rw step (
            set_nx-false laws env (Keys.lease phone) text site.config.lease_ttl_ms t
              (rw not_won at done))
      ]

  -- `acquireLease` returns a lease only if the phone was unleased when its SET ran; the lease is its
  -- own, under the epoch after the last one counted, and is what the database then holds, for the
  -- configured time.
  pub acquire_lease-acquired :
      {lease : Lease}
      → (acquire_lease env site phone s).0 ≡ ok (some lease)
      → (lease ≡ owned site next_epoch)
        × (r.get (arrive env counted).db (Keys.lease phone) ≡ none)
        × (lease_in r site (acquire_lease env site phone s).1.db phone ≡ some lease)
        × (r.pttl (acquire_lease env site phone s).1.db (Keys.lease phone)
            ≡ some site.config.lease_ttl_ms)
  unfolding acquire_lease
  acquire_lease-acquired {lease} h =
      let (e, bumped, step) = >>=-ok (Exec.incr env (Keys.lease_epoch phone)) _ s h in
      let won =
        claim_won e counted (ap (λ (p : Result (Option Lease) × State r L). p.0) (sym step) ∙ h) in
      rw step (won.0 ∙ ap (owned site) (incr-ok bumped), won.1, won.2, won.3)

  -- `acquireLease` returns null only if the phone was leased when its SET ran, and then the SET has
  -- changed nothing: only an epoch is spent.
  pub acquire_lease-taken :
      (acquire_lease env site phone s).0 ≡ ok none
      → (r.get (arrive env counted).db (Keys.lease phone) ≢ none)
        × ((acquire_lease env site phone s).1.db ≡ (arrive env counted).db)
  unfolding acquire_lease
  acquire_lease-taken h =
      let (e, bumped, step) = >>=-ok (Exec.incr env (Keys.lease_epoch phone)) _ s h in
      rw step
        (claim_lost e counted (ap (λ (p : Result (Option Lease) × State r L). p.0) (sym step) ∙ h))

  take : ℕ → Exec r L Lease
  take e = do
    Exec.set env (Keys.lease phone) (site.lease_json.stringify (owned site e))
        site.config.lease_ttl_ms
    pure (owned site e)

  take_done :
      (e : ℕ) (t : State r L) {lease : Lease}
      → (take e t).0 ≡ ok lease
      → (lease ≡ owned site e)
        × (lease_in r site (take e t).1.db phone ≡ some lease)
        × (r.pttl (take e t).1.db (Keys.lease phone) ≡ some site.config.lease_ttl_ms)
  unfolding take
  take_done e t {lease} h =
      let text = site.lease_json.stringify (owned site e) in
      let (u, done, step) =
        >>=-ok (Exec.set env (Keys.lease phone) text site.config.lease_ttl_ms)
          (λ (u : Unit {0}). pure (owned site e)) t h in
      let set = set-ok laws env (Keys.lease phone) text _ t (done ∙ ap ok refl) in
      let same : lease ≡ owned site e = ground arith in
      (
        same,
        rw step (rw set.0 (sound.lease_round (owned site e) ∙ ap some (sym same))),
        rw step set.1,
      )

  -- `forceAcquireLease` that returns has its lease in the database, whoever owned the phone before,
  -- under the epoch after the last one counted and for the configured time.
  pub force_acquire_lease-taken :
      {lease : Lease}
      → (force_acquire_lease env site phone s).0 ≡ ok lease
      → (lease ≡ owned site next_epoch)
        × (lease_in r site (force_acquire_lease env site phone s).1.db phone ≡ some lease)
        × (r.pttl (force_acquire_lease env site phone s).1.db (Keys.lease phone)
            ≡ some site.config.lease_ttl_ms)
  unfolding force_acquire_lease take
  force_acquire_lease-taken {lease} h =
      let (e, bumped, step) = >>=-ok (Exec.incr env (Keys.lease_epoch phone)) _ s h in
      let won = take_done e counted (ap (λ (p : Result Lease × State r L). p.0) (sym step) ∙ h) in
      rw step (won.0 ∙ ap (owned site) (incr-ok bumped), won.1, won.2)
