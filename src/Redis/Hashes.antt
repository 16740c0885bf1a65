-- ===== src/Redis/Hashes.antt =====
-- Redis hashes, which the program calls and does not implement: the commands that it sends to them,
-- on the databases of Redis.antt, and the documented behaviour that it relies on.
use baileys_api.Prelude.{ℕ, String, ◌≡◌, ◌&&◌, Option, none, some, ◌==◌, if◌then◌else◌}
use baileys_api.Redis.{Redis}

-- HGET, HSET and HDEL of one field, and HLEN.
pub record Hashes (r : Redis) : Type 0 where
  pub hget : r.Db → String → String → Option String
  pub hset : r.Db → String → String → String → r.Db
  pub hdel : r.Db → String → String → r.Db
  pub hlen : r.Db → String → ℕ

-- A hash without fields is no key, and DEL removes all of one. No key is both a hash and a text.
pub record IsHashes (r : Redis) (h : Hashes r) : Type 0 where
  pub hget-hset :
      (d : r.Db) (k j f g v : String)
      → h.hget (h.hset d k f v) j g ≡ (if (k == j) && (f == g) then some v else h.hget d j g)
  pub hget-hdel :
      (d : r.Db) (k j f g : String)
      → h.hget (h.hdel d k f) j g ≡ (if (k == j) && (f == g) then none else h.hget d j g)
  pub hget-del : (d : r.Db) (k f : String) → h.hget (r.del d k) k f ≡ none
  pub hget-hlen : (d : r.Db) (k f : String) → h.hlen d k ≡ 0 → h.hget d k f ≡ none
