-- ===== src/AuthState/Import.antt =====
-- src/baileys/redisAuthState.ts: the Noise candidates of an imported session.
use baileys_api.Prelude.{
  ℕ, zero, suc, ◌+◌, String, Bool, true, false, Option, none, some, List, [], ◌∷◌, ◌==◌, eqb,
  truthy, if◌then◌else◌,
}
use baileys_api.Redis.{Redis}
use baileys_api.Redis.Hashes.{Hashes}
use baileys_api.Exec.{Env, Exec, Result, ok, throw, syntax_error, pure, raise, ◌>>=◌, call}
use baileys_api.Cluster.Site.{Site}
use baileys_api.AuthState.{
  auth_key, delete_sentinel, import_candidates_field, Candidate, ImportCandidateState, AuthFormats,
  may_write, fence, fenced_auth_write, hget,
}

abbrev pub elements : {A : Type 0} → List A → ℕ → Option A
elements [] n = none
elements (a ∷ l) zero = some a
elements (a ∷ l) (suc n) = elements l n

-- The reply of ADVANCE_CANDIDATE_CAS_SCRIPT, by the fence and the creds that are stored: 0 fenced off,
-- 1 written, 2 the creds have changed.
abbrev pub advance_reply : String → Result Bool → Option String → Result ℕ
advance_reply expected (throw e) stored = throw e
advance_reply expected (ok false) stored = ok 0
advance_reply expected (ok true) none = ok 2
advance_reply expected (ok true) (some stored) = if stored == expected then ok 1 else ok 2

abbrev pub is_one : Result ℕ → Bool
is_one (ok n) = eqb n 1
is_one (throw e) = false

module _ {r : Redis} (hashes : Hashes r) {L : Type 0} (env : Env r L) (site : Site)
    (id : String) where
  unfoldable pub advance_candidate : String → String → String → Exec r L ℕ
  unfolding may_write
  advance_candidate expected creds cursor =
      call env
        (λ d.
          advance_reply expected (fence hashes env site id d) (hashes.hget d (auth_key id) "creds"))
        (λ d.
          if is_one (
            advance_reply expected (fence hashes env site id d)
              (hashes.hget d (auth_key id) "creds"))
          then hashes.hset (hashes.hset d (auth_key id) "creds" creds) (auth_key id)
              import_candidates_field cursor
          else d)

  module _ (formats : AuthFormats) where
    unfoldable pub seed_imported_session : formats.Creds → List Candidate → ℕ → Exec r L Bool
    unfolding fenced_auth_write
    seed_imported_session creds candidates index = fenced_auth_write hashes env site id (
        ("creds", formats.creds_json.stringify creds)
        ∷ (
          import_candidates_field,
          formats.import_json.stringify (record { candidates = candidates; index = index }),
        )
        ∷ [])

    -- What an attempt ends with: the loop is over as written or as given up, or `none` where the creds
    -- have changed.
    abbrev pub attempt_outcome : ℕ → Option Bool
    attempt_outcome result =
        if eqb result 1 then some true else if eqb result 0 then some false else none

    -- The creds that were read as `creds_raw`, with the next candidate, committed.
    unfoldable pub commit_creds :
        ImportCandidateState → Candidate → String → Option formats.Creds → Exec r L (Option Bool)
    unfolding advance_candidate
    commit_creds state next creds_raw none = raise syntax_error
    commit_creds state next creds_raw (some creds) = do
      result ←
          advance_candidate creds_raw
            (formats.creds_json.stringify (formats.with_noise_key next creds))
            (formats.import_json.stringify
              (record { candidates = state.candidates; index = state.index + 1 }))
      pure (attempt_outcome result)

    unfoldable pub commit_raw :
        ImportCandidateState → Candidate → Option String → Exec r L (Option Bool)
    unfolding commit_creds
    commit_raw state next none = pure (some false)
    commit_raw state next (some creds_raw) =
        commit_creds state next creds_raw (formats.creds_json.parse creds_raw)

    unfoldable pub try_candidate : ImportCandidateState → Option Candidate → Exec r L (Option Bool)
    unfolding commit_raw
    try_candidate state none = pure (some false)
    try_candidate state (some next) = do
      creds_raw ← hget hashes env site id "creds"
      commit_raw state next (truthy creds_raw)

    unfoldable pub try_state : Option ImportCandidateState → Exec r L (Option Bool)
    unfolding try_candidate
    try_state none = raise syntax_error
    try_state (some state) = try_candidate state (elements state.candidates (state.index + 1))

    unfoldable pub try_raw : Option String → Exec r L (Option Bool)
    unfolding try_state
    try_raw none = pure (some false)
    try_raw (some raw) = try_state (formats.import_json.parse raw)

    -- One round of the loop.
    unfoldable pub attempt_advance : Exec r L (Option Bool)
    unfolding try_raw
    attempt_advance = do raw ← hget hashes env site id import_candidates_field; try_raw (truthy raw)

    abbrev pub unless_over : Exec r L Bool → Option Bool → Exec r L Bool
    unless_over rest none = rest
    unless_over rest (some result) = pure result

    -- The loop, by the attempts left.
    unfoldable pub advance_attempts : ℕ → Exec r L Bool
    unfolding attempt_advance
    advance_attempts zero = pure false
    advance_attempts (suc left) = attempt_advance >>= unless_over (advance_attempts left)

    unfoldable pub advance_import_candidate : Exec r L Bool
    unfolding advance_attempts
    advance_import_candidate = advance_attempts 3

  unfoldable pub clear_import_candidates : Exec r L Bool
  unfolding fenced_auth_write
  clear_import_candidates =
      fenced_auth_write hashes env site id ((import_candidates_field, delete_sentinel) ∷ [])
