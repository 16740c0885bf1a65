-- ===== src/Idempotency/Retries.antt =====
-- src/helpers/withIdempotency.ts: what a request finds that repeats an earlier one.
use baileys_api.Prelude.{
  ◌∙◌, ℕ, suc, String, ◌≡◌, ◌≢◌, true, false, Option, none, some, eq_iff, eq_refl, eq-false, arith,
  refl,
}
use baileys_api.Redis.{Redis, IsRedis}
use baileys_api.Json.{Codec}
use baileys_api.Exec
use baileys_api.Exec.{Env, State, Exec, ok, throw, call, arrive, delivered, quiet, Result}
use baileys_api.Cluster.Keys
use baileys_api.Cluster.Site.{Site}
use baileys_api.Cluster.InstanceRegistry.{is_instance_alive}
use baileys_api.Idempotency.{
  Attempts, AcquireOutcome, Holder, proceed, IdempotencyOptions, IdempotencyResult,
  processing_value, parse_holder, is_indeterminate_marker, executed, cached, processing,
  indeterminate, with_idempotency, run_keyed, acquire_or_steal, acquire_lock, acquired, taken,
  inspect_taken, inspect, inspect_holder, idempotency_ttl, run_owned, finish, cache_result,
  write_if_ours,
}
use baileys_api.Text.{Lacks}
use baileys_api.Idempotency.Markers.{
  parse_holder-processing_value, processing_value-marker, processing_value_apart,
}

module _ {r : Redis} (env : Env r Attempts) (site : Site) (to_base36 : ℕ → String) {T : Type 0}
    (json : Codec T) (options : IdempotencyOptions r) (fn : Exec r Attempts (Option T))
    (key : String) (s : State r Attempts) where
  -- The state after the lock was refused, and that in which its holder is read.
  abbrev pub refused : State r Attempts
  refused = arrive env s

  abbrev pub read : State r Attempts
  read = arrive env refused

  taken_first :
      (r.get (arrive env s).db key ≢ none)
      → env.delivery s.turn ≡ delivered
      → acquire_lock env site to_base36 key s ≡ (ok taken, refused)
  unfolding acquire_lock Exec.set_nx call
  taken_first there arrives = ground arith

  abbrev attempt : State r Attempts → Result (IdempotencyResult T) × State r Attempts
  attempt = with_idempotency env site to_base36 json options fn (some key)

  -- A taken key is decided by what is read under it.
  taken_then :
      (current : String) (outcome : AcquireOutcome T) (after : State r Attempts)
      → key ≢ ""
      → r.get refused.db key ≢ none
      → r.get read.db key ≡ some current
      → env.delivery s.turn ≡ delivered
      → env.delivery (suc s.turn) ≡ delivered
      → inspect env site to_base36 json key (some current) read ≡ (ok outcome, after)
      → attempt s ≡ proceed env site to_base36 json options fn key outcome after
  unfolding with_idempotency acquire_or_steal inspect_taken Exec.get call
  taken_then current outcome after filled there holds first second decided =
      ground (arith, taken_first there first, eq-false filled)

  -- If a key, not empty, is taken, and the read of it arrives and finds the marker of an unknown
  -- outcome, the request is told so: the work is not run, whatever it is, and nothing is written.
  pub with_idempotency-indeterminate :
      (marker : String)
      → key ≢ ""
      → r.get refused.db key ≢ none
      → r.get read.db key ≡ some marker
      → is_indeterminate_marker marker ≡ true
      → env.delivery s.turn ≡ delivered
      → env.delivery (suc s.turn) ≡ delivered
      → with_idempotency env site to_base36 json options fn (some key) s ≡ (ok indeterminate, read)
  with_idempotency-indeterminate marker filled there holds is_marker first second =
      taken_then marker AcquireOutcome.indeterminate read filled there holds first second (
        unfold inspect in
        ground
          (arith, is_marker, eq_iff marker (processing_value site), processing_value-marker site))

  abbrev pub asked : State r Attempts
  asked = arrive env read

  abbrev pub holder_key : Site → String
  holder_key other = Keys.instance_key other.instance_id

  alive_lem :
      (other : Site)
      → (env.delivery (suc (suc s.turn)) ≡ delivered → r.get asked.db (holder_key other) ≢ none)
      → Exec.catch (is_instance_alive env site other.instance_id) (λ e. Exec.pure true) read
        ≡ (ok true, asked)
  unfolding is_instance_alive Exec.exists call
  alive_lem other alive = ground arith

  hold :
      (other : Site)
      → other.instance_id ≢ ""
      → other.instance_id ≢ site.instance_id
      → (env.delivery (suc (suc s.turn)) ≡ delivered → r.get asked.db (holder_key other) ≢ none)
      → inspect_holder env site to_base36 json key
          (processing_value other)
          (record { instance_id = other.instance_id; incarnation_id = some other.incarnation_id })
          read
        ≡ (ok AcquireOutcome.processing, asked)
  unfolding inspect_holder
  hold other named apart alive = rw (eq-false named, eq-false apart, alive_lem other alive)

  inspect_live :
      (other : Site)
      → other.instance_id ≢ ""
      → r.get read.db key ≡ some (processing_value other)
      → other.instance_id ≢ site.instance_id
      → Lacks b'#' site.incarnation_id
      → Lacks b'#' other.incarnation_id
      → (env.delivery (suc (suc s.turn)) ≡ delivered → r.get asked.db (holder_key other) ≢ none)
      → inspect env site to_base36 json key (some (processing_value other)) read
        ≡ (ok AcquireOutcome.processing, asked)
  unfolding inspect
  inspect_live other named holds apart mine lacks alive =
      let holder : Holder = record {
        instance_id = other.instance_id;
        incarnation_id = some other.incarnation_id;
      } in
      let read_back : parse_holder (processing_value other) ≡ some holder =
        parse_holder-processing_value other lacks in
      let not_mine : processing_value other ≢ processing_value site =
        λ e. processing_value_apart other site lacks mine apart e in
      rw (eq-false not_mine, processing_value-marker other, read_back)
        (hold other named apart alive)

  -- Suppose that a key, not empty, is taken, that the read of it arrives and finds the marker of
  -- another instance, and that this instance is registered as alive or the registry cannot be
  -- asked. Then the request is told that the work is in progress: the work is not run, and nothing
  -- is written. The other instance has a name, and incarnation ids have no "#".
  pub with_idempotency-processing :
      (other : Site)
      → other.instance_id ≢ ""
      → key ≢ ""
      → r.get refused.db key ≢ none
      → r.get read.db key ≡ some (processing_value other)
      → other.instance_id ≢ site.instance_id
      → Lacks b'#' site.incarnation_id
      → Lacks b'#' other.incarnation_id
      → env.delivery s.turn ≡ delivered
      → env.delivery (suc s.turn) ≡ delivered
      → (env.delivery (suc (suc s.turn)) ≡ delivered → r.get asked.db (holder_key other) ≢ none)
      → with_idempotency env site to_base36 json options fn (some key) s ≡ (ok processing, asked)
  with_idempotency-processing other named filled there holds apart mine lacks first second alive =
      taken_then (processing_value other) AcquireOutcome.processing asked filled there holds first
        second (inspect_live other named holds apart mine lacks alive)

-- A text that no marker is confused with: JSON begins with no letter "p" or "i".
abbrev pub IsPlain : String → Type 0
IsPlain text = (parse_holder text ≡ none) × (is_indeterminate_marker text ≡ false)

module _ {r : Redis} (laws : IsRedis r) (now : ℕ) (site : Site) (to_base36 : ℕ → String)
    {T : Type 0} (json : Codec T) (options : IdempotencyOptions r) (key : String)
    (s : State r Attempts) where
  -- The state in which the work starts: the key holds this process's marker.
  abbrev pub locked : State r Attempts
  locked = record s {
    db = r.set s.db key (processing_value site) (some idempotency_ttl);
    turn = suc s.turn;
  }

  -- What the first request leaves behind, from the state in which its work returned.
  abbrev stored : T → State r Attempts → State r Attempts
  stored value after = record after {
    db = r.set after.db key (json.stringify value) (some idempotency_ttl);
    turn = suc after.turn;
  }

  lock_free :
      r.get s.db key ≡ none → acquire_lock (quiet now) site to_base36 key s ≡ (ok acquired, locked)
  unfolding acquire_lock Exec.set_nx call
  lock_free free = ground (arith, free)

  store_result :
      (value : T) (after : State r Attempts)
      → r.get after.db key ≡ some (processing_value site)
      → finish (quiet now) site to_base36 json key true (some value) after
        ≡ (ok (executed value), stored value after)
  unfolding finish cache_result write_if_ours call
  store_result value after ours = ground (arith, ours, eq_refl (processing_value site))

  run_once :
      (fn : Exec r Attempts (Option T)) (value : T) (after : State r Attempts)
      → key ≢ ""
      → r.get s.db key ≡ none
      → fn locked ≡ (ok (some value), after)
      → r.get after.db key ≡ some (processing_value site)
      → with_idempotency (quiet now) site to_base36 json options fn (some key) s
        ≡ (ok (executed value), stored value after)
  unfolding with_idempotency run_keyed acquire_or_steal run_owned
  run_once fn value after filled free works ours =
      rw (eq-false filled, lock_free free, works, store_result value after ours)

  run_again :
      (again : Exec r Attempts (Option T)) (value : T) (t : State r Attempts)
      → key ≢ ""
      → r.get t.db key ≡ some (json.stringify value)
      → json.parse (json.stringify value) ≡ some value
      → IsPlain (json.stringify value)
      → json.stringify value ≢ processing_value site
      → with_idempotency (quiet now) site to_base36 json options again (some key) t
        ≡ (ok (cached value), record t { turn = suc (suc t.turn) })
  run_again again value t filled there round plain distinct =
      taken_then (quiet now) site to_base36 json options again key t (json.stringify value)
        (AcquireOutcome.cached value) (record t { turn = suc (suc t.turn) }) filled
        (ground (arith, there)) there refl refl
        (unfold inspect in rw (eq-false distinct, plain.1, plain.0, round))

  -- Undisturbed, a request under a free key, not empty, runs its work and caches the value, if the
  -- marker of this process is still under the key when the work ends; and a request that repeats
  -- it gets that value back and changes nothing, whatever its own work is. The text of the value
  -- reads back, and is no marker.
  pub with_idempotency-replays :
      (fn again : Exec r Attempts (Option T)) (value : T) (after : State r Attempts)
      → key ≢ ""
      → r.get s.db key ≡ none
      → fn locked ≡ (ok (some value), after)
      → r.get after.db key ≡ some (processing_value site)
      → json.parse (json.stringify value) ≡ some value
      → IsPlain (json.stringify value)
      → json.stringify value ≢ processing_value site
      → let run = λ (work : Exec r Attempts (Option T)).
        with_idempotency (quiet now) site to_base36 json options work (some key) in
        ((run fn s).0 ≡ ok (executed value))
        × ((run again (run fn s).1).0 ≡ ok (cached value))
        × ((run again (run fn s).1).1.db ≡ (run fn s).1.db)
  with_idempotency-replays fn again value after filled free works ours round plain distinct =
      let first = run_once fn value after filled free works ours in
      let kept =
        laws.get-set after.db key key (json.stringify value) (some idempotency_ttl) ∙ rw eq_refl in
      let second = run_again again value (stored value after) filled kept round plain distinct in
      rw first (refl, rw second, rw second)
