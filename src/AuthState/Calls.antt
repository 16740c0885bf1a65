-- ===== src/AuthState/Calls.antt =====
-- src/baileys/redisAuthState.ts: advanceImportCandidate, the number of commands that its loop sends.
use baileys_api.Prelude.{
  ℕ, zero, suc, ◌+◌, ◌*◌, ◌≤◌, String, inl, inr, Bool, Option, none, some, arith, truthy,
  Option-cases,
}
use baileys_api.Redis.{Redis}
use baileys_api.Redis.Hashes.{Hashes}
use baileys_api.Exec.{Env, Exec, State, Result, ok, throw, call, pure, continue, ◌>>=◌}
use baileys_api.Cluster.Site.{Site}
use baileys_api.AuthState.{
  import_candidates_field, Candidate, ImportCandidateState, AuthFormats, hget,
}
use baileys_api.AuthState.Import.{
  advance_candidate, commit_creds, commit_raw, try_candidate, try_state, try_raw, attempt_outcome,
  unless_over, attempt_advance, advance_attempts, advance_import_candidate,
}

module _ {r : Redis} {L : Type 0} where
  -- A block that makes at most `n` calls.
  abbrev MakesCalls : {A : Type 0} → ℕ → Exec r L A → Type 0
  MakesCalls n m = (s : State r L) → (m s).1.turn ≤ s.turn + n

  then-MakesCalls :
      {A B : Type 0} (a b : ℕ) (m : Exec r L A) (f : A → Exec r L B)
      → MakesCalls a m
      → ((x : A) → MakesCalls b (f x))
      → MakesCalls (a + b) (m >>= f)
  then-MakesCalls a b m f hm hf s = go (m s).0 (m s).1 (hm s)
    where
      go :
          (res : Result _) (t : State r L)
          → t.turn ≤ s.turn + a
          → (continue res f t).1.turn ≤ s.turn + (a + b)
      go (ok x) t h = omega (arith, hf x t)
      go (throw e) t h = omega arith

module _ {r : Redis} (hashes : Hashes r) {L : Type 0} (env : Env r L) (site : Site) (id : String)
    (formats : AuthFormats) where
  hget-MakesCalls : (field : String) → MakesCalls 1 (hget hashes env site id field)
  unfolding hget call
  hget-MakesCalls field s = ground arith

  advance_candidate-MakesCalls :
      (a b c : String) → MakesCalls 1 (advance_candidate hashes env site id a b c)
  unfolding advance_candidate call
  advance_candidate-MakesCalls a b c s = ground arith

  commit_creds-MakesCalls :
      (state : ImportCandidateState) (next : Candidate) (raw : String)
      (creds : Option formats.Creds)
      → MakesCalls 1 (commit_creds hashes env site id formats state next raw creds)
  unfolding commit_creds
  commit_creds-MakesCalls state next raw none = λ s. omega arith
  commit_creds-MakesCalls state next raw (some creds) =
      then-MakesCalls 1 0 (advance_candidate hashes env site id raw _ _)
        (λ n. pure (attempt_outcome hashes env site id formats n))
        (advance_candidate-MakesCalls raw _ _) (λ n s. omega arith)

  commit_raw-MakesCalls :
      (state : ImportCandidateState) (next : Candidate) (raw : Option String)
      → MakesCalls 1 (commit_raw hashes env site id formats state next raw)
  unfolding commit_raw
  commit_raw-MakesCalls state next none = λ s. omega arith
  commit_raw-MakesCalls state next (some raw) = commit_creds-MakesCalls state next raw _

  try_candidate-MakesCalls :
      (state : ImportCandidateState) (next : Option Candidate)
      → MakesCalls 2 (try_candidate hashes env site id formats state next)
  unfolding try_candidate
  try_candidate-MakesCalls state none = λ s. omega arith
  try_candidate-MakesCalls state (some next) =
      then-MakesCalls 1 1 (hget hashes env site id "creds")
        (λ raw. commit_raw hashes env site id formats state next (truthy raw))
        (hget-MakesCalls "creds") (λ raw. commit_raw-MakesCalls state next (truthy raw))

  try_raw-MakesCalls : (raw : Option String) → MakesCalls 2 (try_raw hashes env site id formats raw)
  unfolding try_raw try_state
  try_raw-MakesCalls none = λ s. omega arith
  try_raw-MakesCalls (some raw) = elim (Option-cases (formats.import_json.parse raw)) [
    | inl e ↦ rw (e, try_state) (λ s. omega arith)
    | inr (state, e) ↦ rw (e, try_state) (try_candidate-MakesCalls state _)
  ]

  attempt_advance-MakesCalls : MakesCalls 3 (attempt_advance hashes env site id formats)
  unfolding attempt_advance
  attempt_advance-MakesCalls =
      then-MakesCalls 1 2 (hget hashes env site id import_candidates_field)
        (λ raw. try_raw hashes env site id formats (truthy raw))
        (hget-MakesCalls import_candidates_field) (λ raw. try_raw-MakesCalls (truthy raw))

  unless_over-MakesCalls :
      (n : ℕ) (rest : Exec r L Bool) (outcome : Option Bool)
      → MakesCalls n rest
      → MakesCalls n (unless_over hashes env site id formats rest outcome)
  unless_over-MakesCalls n rest none h = h
  unless_over-MakesCalls n rest (some b) h = λ s. omega arith

  advance_attempts-MakesCalls :
      (n : ℕ) → MakesCalls (3 * n) (advance_attempts hashes env site id formats n)
  unfolding advance_attempts
  advance_attempts-MakesCalls zero = λ s. omega arith
  advance_attempts-MakesCalls (suc n) =
      let ih = advance_attempts-MakesCalls n in
      let rest = advance_attempts hashes env site id formats n in
      λ s. omega (
        arith,
        then-MakesCalls 3 (3 * n) (attempt_advance hashes env site id formats)
            (unless_over hashes env site id formats rest) attempt_advance-MakesCalls
            (λ outcome. unless_over-MakesCalls (3 * n) rest outcome ih) s,
      )

  -- advanceImportCandidate ends after at most nine commands, whatever they answer.
  pub advance_import_candidate_ends :
      (s : State r L) → (advance_import_candidate hashes env site id formats s).1.turn ≤ s.turn + 9
  unfolding advance_import_candidate
  advance_import_candidate_ends s = omega (arith, advance_attempts-MakesCalls 3 s)
