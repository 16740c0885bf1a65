-- ===== src/Redis.antt =====
-- The Redis server, which the program calls and does not implement: the commands that it sends, as
-- functions on an abstract database, and the documented behaviour that it relies on.
pub mod Hashes
pub mod Memory
use baileys_api.Prelude.{
  ℕ, suc, String, ◌≡◌, Bool, false, true, Option, none, some, ◌==◌, if◌then◌else◌,
}

-- Expirations are in milliseconds; `none` is a key without one. All of them are positive, as the
-- configuration's are.
pub record Redis : Type 1 where
  pub Db : Type 0
  pub get : Db → String → Option String
  pub pttl : Db → String → Option ℕ
  -- the number that INCR finds under a key, 0 where there is none
  pub count : Db → String → ℕ
  pub set : Db → String → String → Option ℕ → Db
  pub del : Db → String → Db
  pub incr : Db → String → Db
  pub pexpire : Db → String → ℕ → Db

-- What the commands do to each key.
pub record IsRedis (r : Redis) : Type 0 where
  pub get-set :
      (d : r.Db) (k j v : String) (px : Option ℕ)
      → r.get (r.set d k v px) j ≡ (if k == j then some v else r.get d j)
  pub pttl-set :
      (d : r.Db) (k j v : String) (px : Option ℕ)
      → r.pttl (r.set d k v px) j ≡ (if k == j then px else r.pttl d j)
  pub get-del :
      (d : r.Db) (k j : String) → r.get (r.del d k) j ≡ (if k == j then none else r.get d j)
  pub get-pexpire : (d : r.Db) (k j : String) (ms : ℕ) → r.get (r.pexpire d k ms) j ≡ r.get d j
  pub pttl-pexpire :
      (d : r.Db) (k v : String) (ms : ℕ)
      → r.get d k ≡ some v
      → r.pttl (r.pexpire d k ms) k ≡ some ms
  pub get-incr : (d : r.Db) (k j : String) → (k == j) ≡ false → r.get (r.incr d k) j ≡ r.get d j
  pub count-incr :
      (d : r.Db) (k j : String)
      → r.count (r.incr d k) j ≡ (if k == j then suc (r.count d j) else r.count d j)
  pub count-set :
      (d : r.Db) (k j v : String) (px : Option ℕ)
      → (k == j) ≡ false
      → r.count (r.set d k v px) j ≡ r.count d j
  pub count-del : (d : r.Db) (k j : String) → (k == j) ≡ false → r.count (r.del d k) j ≡ r.count d j
  pub count-pexpire :
      (d : r.Db) (k j : String) (ms : ℕ) → r.count (r.pexpire d k ms) j ≡ r.count d j
