-- ===== src/Redis/Memory.antt =====
-- A database kept in memory, which meets what is asked of the server.
use baileys_api.Prelude.{
  ℕ, suc, String, ◌≡◌, Option, none, some, ◌==◌, eq_iff, arith, if◌then◌else◌, refl, List, [], ◌∷◌,
  length, ◌&&◌, eq_refl,
}
use baileys_api.Entries.{lookup, assign, remove, lookup-assign, lookup-remove}
use baileys_api.Redis.{Redis, IsRedis}
use baileys_api.Redis.Hashes.{Hashes, IsHashes}

pub record Memory : Type 0 where
  pub value : String → Option String
  pub expiry : String → Option ℕ
  pub counter : String → ℕ
  pub hash : String → List (String × String)

abbrev pub empty : Memory
empty = record { value = λ _. none; expiry = λ _. none; counter = λ _. 0; hash = λ _. [] }

abbrev update {ℓ} : {A : Type ℓ} → (String → A) → String → A → String → A
update f k a j = if k == j then a else f j

abbrev stamp : Option String → Option ℕ → ℕ → Option ℕ
stamp none old ms = old
stamp (some _) old ms = some ms

abbrev pub memory : Redis
memory = record {
  Db = Memory;
  get = λ m k. m.value k;
  pttl = λ m k. m.expiry k;
  count = λ m k. m.counter k;
  set = λ m k v px. record m { value = update m.value k (some v); expiry = update m.expiry k px };
  del = λ m k. record m {
    value = update m.value k none;
    expiry = update m.expiry k none;
    hash = update m.hash k [];
  };
  incr = λ m k. record m { counter = update m.counter k (suc (m.counter k)) };
  pexpire = λ m k ms. record m { expiry = update m.expiry k (stamp (m.value k) (m.expiry k) ms) };
}

memory-count-incr :
    (m : Memory) (k j : String)
    → update m.counter k (suc (m.counter k)) j ≡ (if k == j then suc (m.counter j) else m.counter j)
memory-count-incr m k j = ground (arith, eq_iff k j)

memory-pttl-pexpire :
    (m : Memory) (k v : String) (ms : ℕ)
    → m.value k ≡ some v
    → update m.expiry k (stamp (m.value k) (m.expiry k) ms) k ≡ some ms
memory-pttl-pexpire m k v ms h = ground (arith, eq_iff k k)

pub memory-IsRedis : IsRedis memory
memory-IsRedis = record {
  get-set = λ d k j v px. refl;
  pttl-set = λ d k j v px. refl;
  get-del = λ d k j. refl;
  get-pexpire = λ d k j ms. refl;
  pttl-pexpire = memory-pttl-pexpire;
  get-incr = λ d k j h. refl;
  count-incr = memory-count-incr;
  count-set = λ d k j v px h. refl;
  count-del = λ d k j h. refl;
  count-pexpire = λ d k j ms. refl;
}

abbrev pub memory_hashes : Hashes memory
memory_hashes = record {
  hget = λ m k f. lookup (m.hash k) f;
  hset = λ m k f v. record m { hash = update m.hash k (assign (m.hash k) f v) };
  hdel = λ m k f. record m { hash = update m.hash k (remove (m.hash k) f) };
  hlen = λ m k. length (m.hash k);
}

lookup_empty : (l : List (String × String)) (f : String) → length l ≡ 0 → lookup l f ≡ none
unfolding lookup
lookup_empty [] f h = refl
lookup_empty (e ∷ l) f h = absurd (omega arith)

memory-hget-hset :
    (m : Memory) (k j f g v : String)
    → lookup (update m.hash k (assign (m.hash k) f v) j) g
      ≡ (if (k == j) && (f == g) then some v else lookup (m.hash j) g)
memory-hget-hset m k j f g v = ground (arith, lookup-assign (m.hash k) f g v, eq_iff k j)

memory-hget-hdel :
    (m : Memory) (k j f g : String)
    → lookup (update m.hash k (remove (m.hash k) f) j) g
      ≡ (if (k == j) && (f == g) then none else lookup (m.hash j) g)
memory-hget-hdel m k j f g = ground (arith, lookup-remove (m.hash k) f g, eq_iff k j)

memory-hget-del : (m : Memory) (k f : String) → lookup (update m.hash k [] k) f ≡ none
unfolding lookup
memory-hget-del m k f = ground (arith, eq_refl k)

pub memory-IsHashes : IsHashes memory memory_hashes
memory-IsHashes = record {
  hget-hset = memory-hget-hset;
  hget-hdel = memory-hget-hdel;
  hget-del = memory-hget-del;
  hget-hlen = λ d k f h. lookup_empty (d.hash k) f h;
}
