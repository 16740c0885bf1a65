-- ===== src/Cluster/Epochs/Unique.antt =====
-- src/cluster/leaseStore.ts: the epochs under which leases of one phone are written.
use baileys_api.Prelude.{
  ℕ, ◌+◌, ◌<◌, ◌≤◌, String, ◌≡◌, List, [], ◌∷◌, arith, eqb, if◌then◌else◌, refl, eq_refl, some,
}
use baileys_api.Redis.{Redis, IsRedis}
use baileys_api.Cluster.Keys
use baileys_api.Cluster.Keys.Apart.{lease-lease_epoch}
use baileys_api.Cluster.LeaseStore.Ownership.{owned}
use baileys_api.Cluster.Epochs.{
  Cluster, Step, draw, grant, waste, other, Reach, here, next, occurrences, erase,
}

occurrences-erase :
    (n e : ℕ) (l : List ℕ)
    → 0 < occurrences e l
    → occurrences n (erase e l) + (if eqb n e then 1 else 0) ≡ occurrences n l
occurrences-erase n e [] h = absurd (omega arith)
occurrences-erase n e (m ∷ l) h = ground (arith, occurrences-erase n e l)

module _ {r : Redis} (laws : IsRedis r) (phone : String) where
  -- Every epoch in circulation was counted, and occurs once.
  record IsCounted (c : Cluster r) : Type 0 where
    counted :
        (n : ℕ)
        → r.count c.db (Keys.lease_epoch phone) < n
        → occurrences n c.drawn + occurrences n c.granted ≡ 0
    single : (n : ℕ) → occurrences n c.drawn + occurrences n c.granted ≤ 1

  Step-IsCounted : {c d : Cluster r} → Step phone c d → IsCounted c → IsCounted d
  Step-IsCounted {c} draw inv = record {
    counted = λ n h. ground (
      arith,
      laws.count-incr c.db (Keys.lease_epoch phone) (Keys.lease_epoch phone),
      eq_refl (Keys.lease_epoch phone),
      inv.counted n,
    );
    single = λ n. ground (
      arith,
      laws.count-incr c.db (Keys.lease_epoch phone) (Keys.lease_epoch phone),
      eq_refl (Keys.lease_epoch phone),
      inv.counted n,
      inv.single n,
    );
  }
  Step-IsCounted {c} (grant site e h) inv = record {
    counted = λ n k. ground (
      arith,
      occurrences-erase n e c.drawn h,
      inv.counted n,
      laws.count-set c.db (Keys.lease phone) (Keys.lease_epoch phone)
          (site.lease_json.stringify (owned site e)) (some site.config.lease_ttl_ms)
          (lease-lease_epoch phone phone),
    );
    single = λ n. ground (arith, occurrences-erase n e c.drawn h, inv.single n);
  }
  Step-IsCounted {c} (waste e h) inv = record {
    counted = λ n k. ground (arith, occurrences-erase n e c.drawn h, inv.counted n);
    single = λ n. ground (arith, occurrences-erase n e c.drawn h, inv.single n);
  }
  Step-IsCounted {c} (other d same) inv = record {
    counted = λ n k. inv.counted n (omega arith);
    single = inv.single;
  }

  Reach-IsCounted : {start : r.Db} {c : Cluster r} → Reach phone start c → IsCounted c
  Reach-IsCounted here = record { counted = λ n h. refl; single = λ n. omega arith }
  Reach-IsCounted (next reached step) = Step-IsCounted step (Reach-IsCounted reached)

  -- Whatever the instances do and in whatever order their commands reach the server, no two leases
  -- of a phone are ever written under one epoch.
  pub Reach-single :
      {start : r.Db} {c : Cluster r} → Reach phone start c → (n : ℕ) → occurrences n c.granted ≤ 1
  Reach-single reached n = omega (arith, (Reach-IsCounted reached).single n)

  -- Nor is a lease of the phone ever written under an epoch that its counter has not reached.
  pub Reach-counted :
      {start : r.Db} {c : Cluster r}
      → Reach phone start c
      → (n : ℕ) → r.count c.db (Keys.lease_epoch phone) < n
      → occurrences n c.granted ≡ 0
  Reach-counted reached n beyond = omega (arith, (Reach-IsCounted reached).counted n beyond)
