-- ===== src/Idempotency/Tests.antt =====
-- The theorems on idempotent requests at concrete inputs: two instances, numbers as results, and
-- the key "send-1".
use baileys_api.Prelude.{ℕ, inr, arith, String, ◌≡◌, ◌≢◌, true, false, Option, none, some, refl}
use baileys_api.Text
use baileys_api.Text.{Lacks}
use baileys_api.Redis.Memory.{Memory, memory, memory-IsRedis, empty}
use baileys_api.Json.{Codec}
use baileys_api.Sample.{site, codec, number, texts_differ, not_none}
use baileys_api.Exec.{Env, Exec, State, ok, quiet, pure}
use baileys_api.Cluster.Keys
use baileys_api.Cluster.Site.{Site}
use baileys_api.Idempotency.{
  Attempts, IdempotencyOptions, processing_value, indeterminate_value, parse_holder,
  is_indeterminate_marker, executed, cached, processing, with_idempotency,
}
use baileys_api.Idempotency.Markers.{processing_value_apart}
use baileys_api.Idempotency.Fences.{Foreign}
use baileys_api.Idempotency.Retries.{IsPlain, with_idempotency-processing, with_idempotency-replays}

abbrev a : Site
a = site "a"

abbrev b : Site
b = site "b#2"

abbrev env : Env memory Attempts
env = quiet 1000

abbrev at : Memory → State memory Attempts
at m = record { db = m; local = record { attempt_counter = 0 }; turn = 0 }

abbrev to_base36 : ℕ → String
to_base36 n = (codec {A = ℕ} {B = ℕ} number (λ m. m) (λ m. m)).stringify n

abbrev json : Codec ℕ
json = codec {A = ℕ} {B = ℕ} number (λ n. n) (λ n. n)

abbrev options : IdempotencyOptions memory
options = record { is_indeterminate = λ e. false; on_indeterminate = λ marker. pure tt }

abbrev key : String
key = "send-1"

plain_id : Lacks b'#' "1"
plain_id = (omega arith, tt)

a_is_not_b : a.instance_id ≢ b.instance_id
a_is_not_b = texts_differ refl

b_is_not_a : b.instance_id ≢ a.instance_id
b_is_not_a = texts_differ refl

-- Instance "b#2" works under the key.
busy : Memory
busy = memory.set empty key (processing_value b) (some 600000)

foreign : Foreign a true (memory.get busy key)
unfolding busy
foreign = (processing_value b, refl, inr (processing_value_apart b a plain_id plain_id b_is_not_a))

foreign_lock : memory.get busy key ≢ some (processing_value a)
unfolding busy
foreign_lock e = processing_value_apart b a plain_id plain_id b_is_not_a (ground (arith, e))

there : memory.get busy key ≡ some (processing_value b)
unfolding busy
there = refl

work : Exec memory Attempts (Option ℕ)
work = pure (some 7)

other_work : Exec memory Attempts (Option ℕ)
other_work = pure (some 8)

-- An earlier attempt of "b#2" under the key has an unknown outcome.
unknown : Memory
unknown = memory.set empty key (indeterminate_value b to_base36 1) (some 86400000)

taken : memory.get unknown key ≢ none
unfolding unknown
taken = not_none

marked : memory.get unknown key ≡ some (indeterminate_value b to_base36 1)
unfolding unknown
marked = refl

is_marker : is_indeterminate_marker (indeterminate_value b to_base36 1) ≡ true
unfolding is_indeterminate_marker indeterminate_value Text.strip_prefix
is_marker = refl

-- Instance "b#2" works under the key and is registered as alive.
attended : Memory
attended = memory.set busy (Keys.instance_key "b#2") "{}" (some 15000)

attended_there : memory.get attended key ≡ some (processing_value b)
unfolding attended busy Keys.instance_key
attended_there = refl

attended_taken : memory.get attended key ≢ none
unfolding attended busy Keys.instance_key
attended_taken = not_none

attended_alive : memory.get attended (Keys.instance_key "b#2") ≢ none
unfolding attended Keys.instance_key
attended_alive = not_none

with_idempotency-processing_example :
    with_idempotency env a to_base36 json options work (some key) (at attended)
    ≡ (ok processing, record (at attended) { turn = 3 })
with_idempotency-processing_example =
    with_idempotency-processing env a to_base36 json options work key (at attended) b
      (texts_differ refl) (texts_differ refl) attended_taken attended_there b_is_not_a plain_id
      plain_id refl refl (λ answers. attended_alive)

abbrev begun : State memory Attempts
begun = record (at empty) { db = memory.set empty key (processing_value a) (some 600000); turn = 1 }

works : work begun ≡ (ok (some 7), begun)
unfolding work
works = refl

seven-IsPlain : IsPlain (json.stringify 7)
unfolding parse_holder is_indeterminate_marker Text.strip_prefix
seven-IsPlain = (refl, refl)

distinct : json.stringify 7 ≢ processing_value a
unfolding processing_value
distinct = texts_differ refl

with_idempotency-replays_example :
    ((with_idempotency env a to_base36 json options work (some key) (at empty)).0 ≡ ok (executed 7))
    × ((with_idempotency env a to_base36 json options other_work
          (some key)
          (with_idempotency env a to_base36 json options work (some key) (at empty)).1).0
        ≡ ok (cached 7))
    × ((with_idempotency env a to_base36 json options other_work
          (some key)
          (with_idempotency env a to_base36 json options work (some key) (at empty)).1).1.db
        ≡ (with_idempotency env a to_base36 json options work (some key) (at empty)).1.db)
with_idempotency-replays_example =
    with_idempotency-replays memory-IsRedis 1000 a to_base36 json options key (at empty) work
      other_work 7 begun (texts_differ refl) refl works refl refl seven-IsPlain distinct
