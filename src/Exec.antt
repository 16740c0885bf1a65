-- ===== src/Exec.antt =====
-- Asynchronous code of one process, as state passing: each call of the Redis server is a point
-- where everything else may run first, and where the call may fail.
pub mod Steps
use baileys_api.Prelude.{
  if◌then◌else◌, none, some, true, false, eqb, ◌==◌, ℕ, suc, String, ◌≡◌, Bool, Option,
}
use baileys_api.Redis.{Redis}

-- What a rejected promise carries.
pub data Error : Type 0 where
  -- the server cannot be reached, or answers with an error
  redis_error : Error
  -- `JSON.parse` of a malformed text
  syntax_error : Error
  -- BaileysConnectionOwnedElsewhereError
  owned_elsewhere : String → Error
  -- BaileysNotConnectedError
  not_connected : Error
  -- OperationTimeoutError
  operation_timeout : Error
  -- any other `new Error(…)`
  failure : String → Error

pub data Result {ℓ} (A : Type ℓ) : Type ℓ where
  ok : A → Result A
  throw : Error → Result A

-- `db` is the server's database; `local` is what the process itself keeps in memory; `turn` counts
-- the calls made so far, and is a clock for what the environment does at each.
pub record State (r : Redis) (L : Type 0) : Type 0 where
  pub db : r.Db
  pub local : L
  pub turn : ℕ

-- How a call of the server ends: it is carried out; it is not and the caller gets an error; it is,
-- and the reply is lost, so that the caller gets an error too.
pub data Delivery : Type 0 where
  delivered refused reply_lost : Delivery

-- What the process does not decide. Before the n-th call is carried out, other tasks of this
-- process and the other processes do `meanwhile n`.
pub record Env (r : Redis) (L : Type 0) : Type 0 where
  pub meanwhile : ℕ → State r L → State r L
  pub delivery : ℕ → Delivery
  -- `Date.now()` and `performance.now()` after n calls
  pub date_now : ℕ → ℕ
  pub performance_now : ℕ → ℕ

abbrev pub Exec : Redis → Type 0 → Type 0 → Type 0
Exec r L A = State r L → Result A × State r L

abbrev pub absent : Option String → Bool
absent none = true
absent (some _) = false

abbrev pub present : Option String → Bool
present none = false
present (some _) = true

module _ {r : Redis} {L : Type 0} where
  abbrev pub pure : {A : Type 0} → A → Exec r L A
  pure a s = (ok a, s)

  abbrev pub raise : {A : Type 0} → Error → Exec r L A
  raise e s = (throw e, s)

  abbrev pub continue : {A B : Type 0} → Result A → (A → Exec r L B) → Exec r L B
  continue (ok a) f s = f a s
  continue (throw e) f s = (throw e, s)

  infixl 5 ◌>>=◌ ◌>>◌
  abbrev pub ◌>>=◌ : {A B : Type 0} → Exec r L A → (A → Exec r L B) → Exec r L B
  ◌>>=◌ m f s = continue (m s).0 f (m s).1

  abbrev pub ◌>>◌ : {A B : Type 0} → Exec r L A → Exec r L B → Exec r L B
  m >> k = m >>= λ _. k

  abbrev pub recover : {A : Type 0} → Result A → (Error → Exec r L A) → Exec r L A
  recover (ok a) h s = (ok a, s)
  recover (throw e) h s = h e s

  -- `try { … } catch (error) { … }`
  abbrev pub catch : {A : Type 0} → Exec r L A → (Error → Exec r L A) → Exec r L A
  catch m h s = recover (m s).0 h (m s).1

  -- A `catch` whose block goes on after a success.
  abbrev pub settle : {A B : Type 0} → Exec r L A → (Result A → Exec r L B) → Exec r L B
  settle m k s = k (m s).0 (m s).1

  abbrev pub gets : {A : Type 0} → (L → A) → Exec r L A
  gets f s = (ok (f s.local), s)

  abbrev pub modify : (L → L) → Exec r L (Unit {0})
  modify f s = (ok tt, record s { local = f s.local })

  module _ (env : Env r L) where
    -- The state in which the next call is carried out.
    abbrev pub arrive : State r L → State r L
    arrive s = record (env.meanwhile s.turn s) { turn = suc s.turn }

    abbrev pub conclude :
        {A : Type 0} → Delivery → Result A → r.Db → State r L → Result A × State r L
    conclude delivered a d s = (a, record s { db = d })
    conclude refused a d s = (throw redis_error, s)
    conclude reply_lost a d s = (throw redis_error, record s { db = d })

    -- One command, or one script: atomic on the server.
    unfoldable pub call : {A : Type 0} → (r.Db → Result A) → (r.Db → r.Db) → Exec r L A
    call reply effect s =
        let s' = arrive s in conclude (env.delivery s.turn) (reply s'.db) (effect s'.db) s'

    -- `Date.now()` and `performance.now()`
    abbrev pub date_now : Exec r L ℕ
    date_now s = (ok (env.date_now s.turn), s)

    abbrev pub performance_now : Exec r L ℕ
    performance_now s = (ok (env.performance_now s.turn), s)

    unfoldable pub get : String → Exec r L (Option String)
    unfolding call
    get k = call (λ d. ok (r.get d k)) (λ d. d)

    -- SET … PX; an expiration of 0 is refused by the server ("invalid expire time").
    unfoldable pub set : String → String → ℕ → Exec r L (Unit {0})
    unfolding call
    set k v px =
        call (λ d. if eqb px 0 then throw redis_error else ok tt)
          (λ d. if eqb px 0 then d else r.set d k v (some px))

    -- SET … NX PX, the condition of which fails where the key is there; true for the reply "OK".
    unfoldable pub set_nx : String → String → ℕ → Exec r L Bool
    unfolding call
    set_nx k v px =
        call (λ d. if eqb px 0 then throw redis_error else ok (absent (r.get d k)))
          (λ d. if eqb px 0 then d else if absent (r.get d k) then r.set d k v (some px) else d)

    unfoldable pub del : String → Exec r L (Unit {0})
    unfolding call
    del k = call (λ d. ok tt) (λ d. r.del d k)

    unfoldable pub incr : String → Exec r L ℕ
    unfolding call
    incr k = call (λ d. ok (r.count (r.incr d k) k)) (λ d. r.incr d k)

    -- EXISTS
    unfoldable pub exists : String → Exec r L Bool
    unfolding call
    exists k = call (λ d. ok (present (r.get d k))) (λ d. d)

    unfoldable pub ping : Exec r L (Unit {0})
    unfolding call
    ping = call (λ d. ok tt) (λ d. d)

    -- PTTL: `none` for its replies -1 and -2
    unfoldable pub pttl : String → Exec r L (Option ℕ)
    unfolding call
    pttl k = call (λ d. ok (r.pttl d k)) (λ d. d)

-- Nothing else runs, every call arrives, and the clocks stand still.
abbrev pub quiet : {r : Redis} {L : Type 0} → ℕ → Env r L
quiet now = record {
  meanwhile = λ n t. t;
  delivery = λ n. delivered;
  date_now = λ n. now;
  performance_now = λ n. now;
}
