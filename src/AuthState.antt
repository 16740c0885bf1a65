-- ===== src/AuthState.antt =====
-- src/baileys/redisAuthState.ts: the session of each phone in a Redis hash, written under the fence of
-- the phone's lease.
pub mod Import
pub mod Fenced
pub mod Advance
pub mod Calls
mod Tests
use Prim.Native.String.{◌++◌}
use baileys_api.Prelude.{
  ℕ, zero, suc, ◌+◌, String, ◌≡◌, Bool, true, false, not, Option, none, some, List, [], ◌∷◌, ◌==◌,
  eqb, ltb, truthy, if◌then◌else◌,
}
use baileys_api.Redis.{Redis}
use baileys_api.Json.{Codec, decode}
use baileys_api.Exec.{
  Env, Exec, Result, ok, throw, redis_error, syntax_error, pure, raise, ◌>>=◌, ◌>>◌, call,
}
use baileys_api.Exec
use baileys_api.Cluster.Keys
use baileys_api.Cluster.Site.{Site, Lease}
use baileys_api.Redis.Hashes.{Hashes}

-- `${redisKeyPrefix}:${id}:authState`
unfoldable pub auth_key : String → String
auth_key id = "@baileys-api:connections:" ++ (id ++ ":authState")

abbrev pub delete_sentinel : String
delete_sentinel = "@@DEL@@"

abbrev pub import_candidates_field : String
import_candidates_field = "import-candidates"

-- A Noise key pair in base64.
pub record Candidate : Type 0 where
  pub private_key : String
  pub public_key : String

pub record ImportCandidateState : Type 0 where
  pub candidates : List Candidate
  pub index : ℕ

-- AuthenticationCreds of the Baileys library, of which this code only replaces the Noise key and
-- reads `me.id`, and the texts that BufferJSON and JSON make of the values stored here.
pub record AuthFormats : Type 1 where
  pub Creds : Type 0
  pub with_noise_key : Candidate → Creds → Creds
  pub creds_json : Codec Creds
  pub import_json : Codec ImportCandidateState
  -- `creds.me.id`, of creds read without the reviver
  pub me_id_json : Codec (Option String)

-- The fence at the head of each script: true where the lease is missing or this instance's.
unfoldable pub may_write : Site → Option String → Result Bool
may_write site none = ok true
may_write site (some raw) = elim (site.lease_json.parse raw) [
  | none ↦ throw redis_error
  | some lease ↦ ok (lease.owner == site.instance_id)
]

abbrev pub is_ok_true : Result Bool → Bool
is_ok_true (ok b) = b
is_ok_true (throw e) = false

module _ {r : Redis} (hashes : Hashes r) where
  -- The loop of WRITE_IF_OWNER_SCRIPT.
  unfoldable pub write_pairs : String → List (String × String) → r.Db → r.Db
  write_pairs key [] d = d
  write_pairs key ((field, value) ∷ pairs) d =
      write_pairs key pairs (
        if value == delete_sentinel then hashes.hdel d key field else hashes.hset d key field value)

module _ {r : Redis} (hashes : Hashes r) {L : Type 0} (env : Env r L) (site : Site)
    (id : String) where
  abbrev pub fence : r.Db → Result Bool
  fence d = may_write site (r.get d (Keys.lease id))

  -- WRITE_IF_OWNER_SCRIPT, true for its reply 1.
  unfoldable pub write_if_owner : List (String × String) → Exec r L Bool
  unfolding may_write write_pairs
  write_if_owner pairs =
      call env fence
        (λ d. if is_ok_true (fence d) then write_pairs hashes (auth_key id) pairs d else d)

  unfoldable pub fenced_auth_write : List (String × String) → Exec r L Bool
  unfolding write_if_owner
  fenced_auth_write [] = pure true
  fenced_auth_write (p ∷ pairs) = write_if_owner (p ∷ pairs)

  -- `metadata` is the text that JSON.stringify gives.
  unfoldable pub write_auth_metadata : String → Exec r L Bool
  unfolding fenced_auth_write
  write_auth_metadata metadata = fenced_auth_write (("metadata", metadata) ∷ [])

  -- The reply of CLEAR_IF_OWNER_SCRIPT: 0 where it is fenced off, or what DEL replies.
  abbrev clear_reply : r.Db → Result Bool → Result ℕ
  clear_reply d (throw e) = throw e
  clear_reply d (ok false) = ok 0
  clear_reply d (ok true) = ok (if eqb (hashes.hlen d (auth_key id)) 0 then 0 else 1)

  unfoldable pub clear_if_owner : Exec r L ℕ
  unfolding may_write
  clear_if_owner =
      call env (λ d. clear_reply d (fence d))
        (λ d. if is_ok_true (fence d) then r.del d (auth_key id) else d)

  -- EXISTS on the hash
  unfoldable pub hash_exists : Exec r L Bool
  hash_exists = call env (λ d. ok (ltb 0 (hashes.hlen d (auth_key id)))) (λ d. d)

  unfoldable pub hget : String → Exec r L (Option String)
  hget field = call env (λ d. ok (hashes.hget d (auth_key id) field)) (λ d. d)

  -- A 0 is ambiguous: fenced off, or nothing to delete.
  abbrev pub after_clear : ℕ → Exec r L Bool
  after_clear result =
      if not (eqb result 0) then pure true else (do there ← hash_exists; pure (not there))

  unfoldable pub clear_redis_auth_state : Exec r L Bool
  unfolding clear_if_owner hash_exists
  clear_redis_auth_state = do result ← clear_if_owner; after_clear result

  module _ (formats : AuthFormats) where
    -- saveCreds
    unfoldable pub save_creds : formats.Creds → Exec r L Bool
    unfolding fenced_auth_write
    save_creds creds = fenced_auth_write (("creds", formats.creds_json.stringify creds) ∷ [])

    -- readData of the creds
    unfoldable pub read_creds : Exec r L (Option formats.Creds)
    unfolding hget
    read_creds = do
      raw ← hget "creds"
      elim (truthy raw) [
        | none ↦ pure none
        | some text ↦ elim (formats.creds_json.parse text) [
          | none ↦ raise syntax_error
          | some creds ↦ pure (some creds)
        ]
      ]

    unfoldable pub is_redis_auth_state_paired : Exec r L Bool
    unfolding hget
    is_redis_auth_state_paired = do
      raw ← hget "creds"
      elim (truthy raw) [
        | none ↦ pure false
        | some text ↦ elim (formats.me_id_json.parse text) [
          | none ↦ pure false
          | some me ↦ pure (Exec.present (truthy me))
        ]
      ]

-- keys.set: the fields of what changed, a missing value being a deletion.
unfoldable pub key_pairs : List (String × String × Option String) → List (String × String)
key_pairs [] = []
key_pairs ((category, data_id, value) ∷ rest) =
    (category ++ ("-" ++ data_id), elim value [ none ↦ delete_sentinel | some text ↦ text ])
    ∷ key_pairs rest

module _ {r : Redis} (hashes : Hashes r) {L : Type 0} (env : Env r L) (site : Site)
    (id : String) where
  unfoldable pub set_keys : List (String × String × Option String) → Exec r L Bool
  unfolding fenced_auth_write key_pairs
  set_keys changed = fenced_auth_write hashes env site id (key_pairs changed)
