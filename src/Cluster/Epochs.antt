-- ===== src/Cluster/Epochs.antt =====
-- src/cluster/leaseStore.ts, all instances together: the commands that acquireLease and
-- forceAcquireLease send for one phone, in any interleaving, as a step relation.
pub mod Unique
pub mod Takeover
pub mod Overtaken
use baileys_api.Prelude.{
  ℕ, suc, ◌+◌, ◌-◌, ◌<◌, ◌≤◌, String, ◌≡◌, List, [], ◌∷◌, some, none, eqb, if◌then◌else◌,
}
use baileys_api.Redis.{Redis}
use baileys_api.Cluster.Keys
use baileys_api.Cluster.Site.{Site}
use baileys_api.Cluster.LeaseStore.Ownership.{owned}

-- How often a number stands in a list.
abbrev pub occurrences : ℕ → List ℕ → ℕ
occurrences n [] = 0
occurrences n (m ∷ l) = (if eqb n m then 1 else 0) + occurrences n l

abbrev pub erase : ℕ → List ℕ → List ℕ
erase n [] = []
erase n (m ∷ l) = if eqb n m then l else m ∷ erase n l

-- The database, the epochs that some instance has drawn by INCR and not yet used in a SET, and the
-- epochs under which a lease was written, newest first.
pub record Cluster (r : Redis) : Type 0 where
  pub db : r.Db
  pub drawn : List ℕ
  pub granted : List ℕ

module _ {r : Redis} (phone : String) where
  pub data Step (c : Cluster r) : Cluster r → Type 0 where
    -- the INCR of either operation
    draw : Step c (record {
      db = r.incr c.db (Keys.lease_epoch phone);
      drawn = r.count (r.incr c.db (Keys.lease_epoch phone)) (Keys.lease_epoch phone) ∷ c.drawn;
      granted = c.granted;
    })
    -- the SET of forceAcquireLease by any instance, and that of acquireLease where its NX holds
    grant :
        (site : Site) (e : ℕ)
        → 0 < occurrences e c.drawn
        → Step c (record {
          db =
              r.set c.db
                (Keys.lease phone)
                (site.lease_json.stringify (owned site e))
                (some site.config.lease_ttl_ms);
          drawn = erase e c.drawn;
          granted = e ∷ c.granted;
        })
    -- the SET of acquireLease where its NX does not hold, or the call of either that is lost
    waste :
        (e : ℕ)
        → 0 < occurrences e c.drawn
        → Step c (record { db = c.db; drawn = erase e c.drawn; granted = c.granted })
    -- anything else that the server does: renewals, releases, expirations, other keys
    other :
        (d : r.Db)
        → r.count d (Keys.lease_epoch phone) ≡ r.count c.db (Keys.lease_epoch phone)
        → Step c (record { db = d; drawn = c.drawn; granted = c.granted })

  pub data Reach (start : r.Db) : Cluster r → Type 0 where
    here : Reach start (record { db = start; drawn = []; granted = [] })
    next : {c d : Cluster r} → Reach start c → Step c d → Reach start d
