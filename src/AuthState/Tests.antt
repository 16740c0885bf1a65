-- ===== src/AuthState/Tests.antt =====
-- The theorems on stored sessions at concrete inputs: one phone and two instances.
use baileys_api.Prelude.{String, ◌≡◌, ◌≢◌, ◌⊎◌, refl, true, some, [], ◌∷◌, get_or}
use baileys_api.Entries.{lookup, assign}
use baileys_api.Redis.Memory.{Memory, memory, memory_hashes, memory-IsHashes, empty}
use baileys_api.Sample.{site, texts_differ, codec, codec-RoundTrips, text, number}
use baileys_api.Exec.{Env, State, ok, quiet, call}
use baileys_api.Cluster.Keys
use baileys_api.Cluster.LeaseStore.Ownership.{owned}
use baileys_api.AuthState.{
  auth_key, import_candidates_field, Candidate, ImportCandidateState, AuthFormats, may_write,
  write_if_owner, fenced_auth_write, hget, save_creds, read_creds, clear_if_owner,
  clear_redis_auth_state,
}
use baileys_api.AuthState.Import.{
  seed_imported_session, advance_candidate, commit_creds, commit_raw, try_candidate, try_state,
  try_raw, attempt_advance, advance_attempts, advance_import_candidate,
}
use baileys_api.AuthState.Fenced.{
  fenced_auth_write_fenced, read_creds-save_creds, seed_imported_session_whole,
}
use baileys_api.AuthState.Advance.{AdvancedIn, advance_import_candidate-Advanced}

abbrev phone : String
phone = "5511"

abbrev first_candidate : Candidate
first_candidate = record { private_key = "p0"; public_key = "q0" }

abbrev second_candidate : Candidate
second_candidate = record { private_key = "p1"; public_key = "q1" }

-- Creds that are a private Noise key.
abbrev formats : AuthFormats
formats = record {
  Creds = String;
  with_noise_key = λ next creds. next.private_key;
  creds_json = codec text (λ (c : String). c) (λ c. c);
  import_json =
      codec number (λ (s : ImportCandidateState). s.index)
        (λ n. record { candidates = first_candidate ∷ second_candidate ∷ []; index = n });
  me_id_json = codec text (λ o. get_or o "") (λ c. some c);
}

abbrev env : Env memory (Unit {0})
env = quiet 1000

abbrev at : Memory → State memory (Unit {0})
at m = record { db = m; local = tt; turn = 0 }

-- Instance "b" holds the phone.
abbrev leased : Memory
leased =
    memory.set empty (Keys.lease phone) ((site "b").lease_json.stringify (owned (site "b") 4))
      (some 30000)

-- Nobody holds it, and its session is seeded with two candidates.
abbrev seeded : Memory
seeded =
    memory_hashes.hset
      (memory_hashes.hset empty (auth_key phone) "creds" (formats.creds_json.stringify "p0"))
      (auth_key phone) import_candidates_field "."

fenced_auth_write_fenced_example :
    let t =
      fenced_auth_write memory_hashes env (site "a") phone (("creds", "x") ∷ []) (at leased) in
    (t.1.db ≡ leased) × (t.0 ≢ ok true)
unfolding Keys.lease
fenced_auth_write_fenced_example =
    fenced_auth_write_fenced memory_hashes env (site "a") phone "creds" "x" [] (at leased)
      (owned (site "b") 4) refl (texts_differ refl)

cleared : (clear_redis_auth_state memory_hashes env (site "a") phone (at seeded)).0 ≡ ok true
unfolding clear_redis_auth_state clear_if_owner may_write call assign auth_key Keys.lease
cleared = refl

saved : (save_creds memory_hashes env (site "a") phone formats "k" (at empty)).0 ≡ ok true
unfolding save_creds fenced_auth_write write_if_owner may_write call Keys.lease
saved = refl

read_creds-save_creds_example :
    (read_creds memory_hashes env
      (site "a")
      phone
      formats
      (save_creds memory_hashes env (site "a") phone formats "k" (at empty)).1).0
    ≡ ok (some "k")
read_creds-save_creds_example =
    read_creds-save_creds memory_hashes env (site "a") phone memory-IsHashes formats
      (codec-RoundTrips text (λ (c : String). c) (λ c. c) (λ c. refl)) "k" (at empty)
      (save_creds memory_hashes env (site "a") phone formats "k" (at empty)).1 (texts_differ refl)
      (texts_differ refl) saved refl refl

seed_imported_session_whole_example :
    let t =
      (seed_imported_session memory_hashes env
        (site "a")
        phone
        formats
        "p0"
        (first_candidate ∷ second_candidate ∷ [])
        0
        (at empty)).1 in
    (t.db ≡ empty)
    ⊎ ((lookup (t.db.hash (auth_key phone)) "creds" ≡ some (formats.creds_json.stringify "p0"))
        × (lookup (t.db.hash (auth_key phone)) import_candidates_field ≡ some "."))
seed_imported_session_whole_example =
    seed_imported_session_whole memory_hashes env (site "a") phone memory-IsHashes formats "p0"
      (first_candidate ∷ second_candidate ∷ []) 0 (at empty) (texts_differ refl) (texts_differ refl)

advanced :
    (advance_import_candidate memory_hashes env (site "a") phone formats (at seeded)).0 ≡ ok true
unfolding advance_import_candidate advance_attempts attempt_advance try_raw try_state try_candidate
    commit_raw commit_creds advance_candidate hget may_write call assign lookup auth_key Keys.lease
advanced = refl

advance_import_candidate-Advanced_example :
    AdvancedIn memory_hashes env
      (site "a")
      phone
      formats
      3
      (at seeded)
      (advance_import_candidate memory_hashes env (site "a") phone formats (at seeded)).1
advance_import_candidate-Advanced_example =
    advance_import_candidate-Advanced memory_hashes env (site "a") phone formats (at seeded)
      advanced
