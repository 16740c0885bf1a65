-- ===== src/Idempotency/Locks.antt =====
-- src/helpers/withIdempotency.ts: the values under a key, and the commands that write, take over
-- and delete them.
use Prim.Native.String.{◌++◌}
use baileys_api.Prelude.{
  ℕ, suc, String, Bool, true, false, Option, none, some, ◌==◌, ◌&&◌, ◌||◌, not, same_text,
  if◌then◌else◌,
}
use baileys_api.Text.{strip_prefix, split_last}
use baileys_api.Redis.{Redis}
use baileys_api.Json.{Codec}
use baileys_api.Exec
use baileys_api.Exec.{
  Env, Exec, Error, Result, ok, throw, pure, raise, catch, call, absent, ◌>>=◌, ◌>>◌,
}
use baileys_api.Cluster.Site.{Site}

-- The times to live, in milliseconds as everywhere in the model.
abbrev pub idempotency_ttl : ℕ
idempotency_ttl = 600000

abbrev pub indeterminate_ttl : ℕ
indeterminate_ttl = 86400000

-- The module's own state, `attemptCounter`.
pub record Attempts : Type 0 where
  pub attempt_counter : ℕ

pub data IdempotencyResult (T : Type 0) : Type 0 where
  executed : T → IdempotencyResult T
  cached : T → IdempotencyResult T
  processing : IdempotencyResult T
  indeterminate : IdempotencyResult T
  failed : IdempotencyResult T

pub data AcquireOutcome (T : Type 0) : Type 0 where
  owned : Bool → AcquireOutcome T
  cached : T → AcquireOutcome T
  processing : AcquireOutcome T
  indeterminate : AcquireOutcome T

pub data LockOutcome : Type 0 where
  acquired taken failed_open : LockOutcome

pub record Holder : Type 0 where
  pub instance_id : String
  pub incarnation_id : Option String

-- An absent option is `λ _. false`, and a callback that does nothing.
pub record IdempotencyOptions (r : Redis) : Type 0 where
  pub is_indeterminate : Error → Bool
  pub on_indeterminate : Option String → Exec r Attempts (Unit {0})

unfoldable pub processing_value : Site → String
processing_value site = "processing:" ++ (site.instance_id ++ ("#" ++ site.incarnation_id))

-- `to_base36` is Number.prototype.toString(36).
unfoldable pub indeterminate_value : Site → (ℕ → String) → ℕ → String
indeterminate_value site to_base36 attempt =
    "indeterminate:"
    ++ (site.instance_id ++ ("#" ++ (site.incarnation_id ++ ("#" ++ to_base36 attempt))))

-- `startsWith(INDETERMINATE_PREFIX)`
abbrev pub found : Option String → Bool
found none = false
found (some _) = true

unfoldable pub is_indeterminate_marker : String → Bool
is_indeterminate_marker value = found (strip_prefix "indeterminate:" value)

abbrev pub split_holder : String → Option (String × String) → Holder
split_holder rest none = record { instance_id = rest; incarnation_id = none }
split_holder rest (some (id, incarnation)) = record {
  instance_id = id;
  incarnation_id = some incarnation;
}

abbrev pub holder_of : Option String → Option Holder
holder_of none = none
holder_of (some rest) = some (split_holder rest (split_last b'#' rest))

unfoldable pub parse_holder : String → Option Holder
unfolding strip_prefix split_last
parse_holder value =
    if value == "processing"
    then some (record { instance_id = ""; incarnation_id = none })
    else holder_of (strip_prefix "processing:" value)

abbrev pub differs : Option String → String → Bool
differs none id = false
differs (some s) id = not (s == id)

abbrev pub is_own_dead_incarnation : Site → Holder → Bool
is_own_dead_incarnation site holder =
    holder.instance_id == site.instance_id && differs holder.incarnation_id site.incarnation_id

abbrev pub lock_outcome : Bool → LockOutcome
lock_outcome true = acquired
lock_outcome false = taken

-- The condition of WRITE_IF_OURS_SCRIPT.
abbrev pub write_holds : Bool → Option String → String → Bool
write_holds held raw ours = absent raw || (held && same_text raw ours)

module _ {r : Redis} (env : Env r Attempts) (site : Site) (to_base36 : ℕ → String) where
  unfoldable pub acquire_lock : String → Exec r Attempts LockOutcome
  acquire_lock key =
      catch
        (do
          result ← Exec.set_nx env key (processing_value site) idempotency_ttl
          pure (lock_outcome result))
        (λ e. pure failed_open)

  -- STEAL_SCRIPT
  unfoldable pub steal_lock : String → String → Exec r Attempts Bool
  steal_lock key expected =
      catch
        (call env (λ d. ok (same_text (r.get d key) expected))
          (λ d.
            if same_text (r.get d key) expected
            then r.set d key (processing_value site) (some idempotency_ttl)
            else d))
        (λ e. pure false)

  -- WRITE_IF_OURS_SCRIPT
  unfoldable pub write_if_ours : String → String → ℕ → Bool → Exec r Attempts Bool
  write_if_ours key value ttl held =
      call env (λ d. ok (write_holds held (r.get d key) (processing_value site)))
        (λ d.
          if write_holds held (r.get d key) (processing_value site)
          then r.set d key value (some ttl)
          else d)

  unfoldable pub mark_indeterminate : String → Bool → Exec r Attempts (Option String)
  unfolding write_if_ours
  mark_indeterminate key held = do
    Exec.modify (λ l. record l { attempt_counter = suc l.attempt_counter })
    attempt ← Exec.gets (λ l. l.attempt_counter)
    let marker = indeterminate_value site to_base36 attempt
    catch
        (do
          written ← write_if_ours key marker indeterminate_ttl held
          pure (if written then some marker else none))
        (λ e. pure none)

  -- RELEASE_IF_OURS_SCRIPT
  unfoldable pub release_lock : String → Bool → Exec r Attempts (Unit {0})
  release_lock key false = pure tt
  release_lock key true =
      catch
        (call env (λ d. ok tt)
          (λ d. if same_text (r.get d key) (processing_value site) then r.del d key else d))
        (λ e. pure tt)

  -- CLEAR_INDETERMINATE_SCRIPT
  unfoldable pub clear_indeterminate : String → String → Exec r Attempts Bool
  clear_indeterminate key marker =
      catch
        (call env (λ d. ok (same_text (r.get d key) marker))
          (λ d. if same_text (r.get d key) marker then r.del d key else d))
        (λ e. pure false)

  module _ {T : Type 0} (json : Codec T) where
    unfoldable pub cache_result : String → T → Bool → Exec r Attempts Bool
    unfolding write_if_ours
    cache_result key value held =
        catch (write_if_ours key (json.stringify value) idempotency_ttl held) (λ e. pure false)
