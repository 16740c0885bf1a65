-- ===== src/Idempotency.antt =====
-- src/helpers/withIdempotency.ts: withIdempotency, from the key that is found to the end of the
-- work.
pub mod Locks
pub mod Markers
pub mod Fences
pub mod Retries
pub mod Tests
use Prim.Native.String.{◌++◌}
use baileys_api.Prelude.{
  ℕ, suc, String, ◌≢◌, Bool, true, false, Option, none, some, ◌==◌, ◌&&◌, ◌||◌, not, same_text,
  if◌then◌else◌,
}
use baileys_api.Text.{strip_prefix, split_last}
use baileys_api.Redis.{Redis}
use baileys_api.Json.{Codec}
use baileys_api.Exec
use baileys_api.Exec.{
  Env, Exec, Error, Result, ok, throw, pure, raise, catch, call, absent, ◌>>=◌, ◌>>◌,
}
use baileys_api.Cluster.InstanceRegistry.{is_instance_alive}
use baileys_api.Cluster.Site.{Site}
unfoldable pub use Locks.*

module _ {r : Redis} (env : Env r Attempts) (site : Site) (to_base36 : ℕ → String) where
  module _ {T : Type 0} (json : Codec T) where
    -- `JSON.parse(current)`, whose failure reads as "processing"
    abbrev pub replay : Option T → AcquireOutcome T
    replay none = processing
    replay (some value) = cached value

    -- "Released in the gap": one more try.
    unfoldable pub second_try : String → Exec r Attempts (AcquireOutcome T)
    unfolding acquire_lock
    second_try key = do
      second ← acquire_lock env site to_base36 key
      pure (elim second [ taken ↦ processing | acquired ↦ owned true | failed_open ↦ owned false ])

    -- "Holder is gone: reclaim the orphaned lock atomically."
    unfoldable pub reclaim : String → String → Exec r Attempts (AcquireOutcome T)
    unfolding steal_lock
    reclaim key current = do
      stolen ← steal_lock env site to_base36 key current
      pure (if stolen then owned true else processing)

    unfoldable pub inspect_holder : String → String → Holder → Exec r Attempts (AcquireOutcome T)
    unfolding reclaim
    inspect_holder key current holder =
        if holder.instance_id == ""
        then pure processing
        else if is_own_dead_incarnation site holder
        then reclaim key current
        else do
          alive ← catch (is_instance_alive env site holder.instance_id) (λ e. pure true)
          if alive then pure processing else reclaim key current

    abbrev pub resume : String → String → Option Holder → Exec r Attempts (AcquireOutcome T)
    resume key current none = pure (replay (json.parse current))
    resume key current (some holder) = inspect_holder key current holder

    unfoldable pub inspect : String → Option String → Exec r Attempts (AcquireOutcome T)
    unfolding second_try inspect_holder
    inspect key none = second_try key
    inspect key (some current) =
        if current == processing_value site
        then pure processing
        else if is_indeterminate_marker current
        then pure indeterminate
        else resume key current (parse_holder current)

    -- The read of the holder, whose failure reads as "processing".
    unfoldable pub inspect_taken : String → Exec r Attempts (AcquireOutcome T)
    unfolding inspect
    inspect_taken key =
        Exec.settle (Exec.get env key)
          (λ res. elim res [ ok current ↦ inspect key current | throw e ↦ pure processing ])

    unfoldable pub acquire_or_steal : String → Exec r Attempts (AcquireOutcome T)
    unfolding acquire_lock inspect_taken
    acquire_or_steal key = do
      first ← acquire_lock env site to_base36 key
      elim first [
        | taken ↦ inspect_taken key
        | acquired ↦ pure (owned true)
        | failed_open ↦ pure (owned false)
      ]

    -- The `try` block of the owner.
    unfoldable pub finish : String → Bool → Option T → Exec r Attempts (IdempotencyResult T)
    unfolding cache_result release_lock
    finish key held none = do release_lock env site to_base36 key held; pure failed
    finish key held (some value) = do
      stored ← cache_result env site to_base36 json key value held
      if stored then pure tt else release_lock env site to_base36 key held
      pure (executed value)

    module _ (options : IdempotencyOptions r) (fn : Exec r Attempts (Option T)) where
      -- Its `catch` block.
      unfoldable pub give_up : String → Bool → Error → Exec r Attempts (IdempotencyResult T)
      unfolding mark_indeterminate release_lock
      give_up key held error =
          if options.is_indeterminate error
          then (do
            marker ← mark_indeterminate env site to_base36 key held
            options.on_indeterminate marker
            raise error)
          else (do release_lock env site to_base36 key held; raise error)

      unfoldable pub run_owned : String → Bool → Exec r Attempts (IdempotencyResult T)
      unfolding finish give_up
      run_owned key held = catch (do value ← fn; finish key held value) (give_up key held)

      abbrev pub proceed : String → AcquireOutcome T → Exec r Attempts (IdempotencyResult T)
      proceed key (owned held) = run_owned key held
      proceed key (cached value) = pure (cached value)
      proceed key processing = pure processing
      proceed key indeterminate = pure indeterminate

      abbrev pub unkeyed : Option T → IdempotencyResult T
      unkeyed none = failed
      unkeyed (some value) = executed value

      unfoldable pub run_keyed : String → Exec r Attempts (IdempotencyResult T)
      unfolding acquire_or_steal run_owned
      run_keyed key = do outcome ← acquire_or_steal key; proceed key outcome

      -- The empty key is falsy, as null is.
      unfoldable pub with_idempotency : Option String → Exec r Attempts (IdempotencyResult T)
      unfolding run_keyed
      with_idempotency none = do value ← fn; pure (unkeyed value)
      with_idempotency (some key) =
          if key == "" then (do value ← fn; pure (unkeyed value)) else run_keyed key
