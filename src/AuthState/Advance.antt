-- ===== src/AuthState/Advance.antt =====
-- src/baileys/redisAuthState.ts: advanceImportCandidate, the compare-and-swap loop over the creds of an
-- imported session.
use baileys_api.Prelude.{
  ◌<◌, ◌∙◌, ap, ℕ, zero, suc, ◌+◌, String, ◌≡◌, refl, Bool, true, false, Option, none, some, eq_iff,
  arith, truthy,
}
use baileys_api.Redis.{Redis}
use baileys_api.Redis.Hashes.{Hashes}
use baileys_api.Exec.{Env, State, Result, ok, throw, call, arrive}
use baileys_api.Exec.Steps.{>>=-post}
use baileys_api.Cluster.Keys
use baileys_api.Cluster.Site.{Site}
use baileys_api.AuthState.{
  auth_key, import_candidates_field, Candidate, ImportCandidateState, AuthFormats, may_write, hget,
}
use baileys_api.AuthState.Import.{
  elements, advance_reply, advance_candidate, commit_creds, commit_raw, try_candidate, try_state,
  try_raw, unless_over, attempt_advance, advance_attempts, advance_import_candidate,
}

advance_reply-one :
    (expected : String) (fenced : Result Bool) (stored : Option String)
    → advance_reply expected fenced stored ≡ ok 1
    → (fenced ≡ ok true) × (stored ≡ some expected)
advance_reply-one expected (throw e) stored h = cc
advance_reply-one expected (ok false) stored h = ground arith
advance_reply-one expected (ok true) none h = ground arith
advance_reply-one expected (ok true) (some stored) h = ground (arith, eq_iff stored expected)

module _ {r : Redis} (hashes : Hashes r) {L : Type 0} (env : Env r L) (site : Site) (id : String)
    (formats : AuthFormats) where
  -- The state after this many rounds of the loop.
  abbrev pub rounds : ℕ → State r L → State r L
  rounds zero s = s
  rounds (suc n) s = rounds n (attempt_advance hashes env site id formats s).1

  -- One round of the loop, from its start to its end: the cursor that it read, the candidate after
  -- that one, the creds that it read next, and the commit, which found those creds still there under
  -- an open fence, and wrote them back under the candidate's Noise key, and the cursor moved on by one.
  pub record Advanced (start end : State r L) : Type 0 where
    pub cursor : String
    pub state : ImportCandidateState
    pub next : Candidate
    pub raw : String
    pub creds : formats.Creds
    pub cursor_read : State r L
    pub creds_read : State r L
    pub reads_cursor :
        hget hashes env site id import_candidates_field start ≡ (ok (some cursor), cursor_read)
    pub parsed_cursor : formats.import_json.parse cursor ≡ some state
    pub chosen : elements state.candidates (state.index + 1) ≡ some next
    pub reads_creds : hget hashes env site id "creds" cursor_read ≡ (ok (some raw), creds_read)
    pub parsed_creds : formats.creds_json.parse raw ≡ some creds
    pub open_fence : may_write site (r.get (arrive env creds_read).db (Keys.lease id)) ≡ ok true
    pub unchanged : hashes.hget (arrive env creds_read).db (auth_key id) "creds" ≡ some raw
    pub written :
        end.db
        ≡ hashes.hset
            (hashes.hset
              (arrive env creds_read).db
              (auth_key id)
              "creds"
              (formats.creds_json.stringify (formats.with_noise_key next creds)))
            (auth_key id)
            import_candidates_field
            (formats.import_json.stringify
              (record { candidates = state.candidates; index = state.index + 1 }))

  advance_candidate-one :
      (expected creds cursor : String) (s : State r L)
      → (advance_candidate hashes env site id expected creds cursor s).0 ≡ ok 1
      → let d = (arrive env s).db in
        (may_write site (r.get d (Keys.lease id)) ≡ ok true)
        × (hashes.hget d (auth_key id) "creds" ≡ some expected)
        × ((advance_candidate hashes env site id expected creds cursor s).1.db
            ≡ hashes.hset
                (hashes.hset d (auth_key id) "creds" creds)
                (auth_key id)
                import_candidates_field
                cursor)
  unfolding advance_candidate call
  advance_candidate-one expected creds cursor s e =
      let d = (arrive env s).db in
      ground (
        arith,
        advance_reply-one expected (may_write site (r.get d (Keys.lease id)))
            (hashes.hget d (auth_key id) "creds"),
      )

  -- What is known once the cursor is read.
  record Seen (start at : State r L) (state : ImportCandidateState) : Type 0 where
    pub cursor : String
    pub reads : hget hashes env site id import_candidates_field start ≡ (ok (some cursor), at)
    pub parsed : formats.import_json.parse cursor ≡ some state

  commit_creds-Advanced :
      {start at : State r L} {state : ImportCandidateState} (seen : Seen start at state)
      (next : Candidate) (raw : String) (creds : Option formats.Creds) (s : State r L)
      → elements state.candidates (state.index + 1) ≡ some next
      → formats.creds_json.parse raw ≡ creds
      → hget hashes env site id "creds" at ≡ (ok (some raw), s)
      → (commit_creds hashes env site id formats state next raw creds s).0 ≡ ok (some true)
      → Advanced start (commit_creds hashes env site id formats state next raw creds s).1
  unfolding commit_creds
  commit_creds-Advanced seen next raw none s c p g e = cc
  commit_creds-Advanced {start} {at} {state} seen next raw (some creds) s c p g e =
      >>=-post (advance_candidate hashes env site id raw text cursor) _ s (λ t. Advanced start t) e
        (λ n a b.
          let (f, u, w) = advance_candidate-one raw text cursor s (ground arith) in
          record {
            cursor = seen.cursor;
            state = state;
            next = next;
            raw = raw;
            creds = creds;
            cursor_read = at;
            creds_read = s;
            reads_cursor = seen.reads;
            parsed_cursor = seen.parsed;
            chosen = c;
            reads_creds = g;
            parsed_creds = p;
            open_fence = f;
            unchanged = u;
            written = w;
          })
    where
      text : String
      text = formats.creds_json.stringify (formats.with_noise_key next creds)

      cursor : String
      cursor =
          formats.import_json.stringify
            (record { candidates = state.candidates; index = state.index + 1 })

  truthy-some : (o : Option String) (s : String) → truthy o ≡ some s → o ≡ some s
  truthy-some none s h = cc
  truthy-some (some t) s h = ground arith

  commit_raw-Advanced :
      {start at : State r L} {state : ImportCandidateState} (seen : Seen start at state)
      (next : Candidate) (found : Option String) (raw : Option String) (s : State r L)
      → truthy found ≡ raw
      → elements state.candidates (state.index + 1) ≡ some next
      → hget hashes env site id "creds" at ≡ (ok found, s)
      → (commit_raw hashes env site id formats state next raw s).0 ≡ ok (some true)
      → Advanced start (commit_raw hashes env site id formats state next raw s).1
  unfolding commit_raw
  commit_raw-Advanced seen next found none s t c g e = cc
  commit_raw-Advanced seen next found (some raw) s t c g e =
      let here : found ≡ some raw = truthy-some found raw t in
      commit_creds-Advanced seen next raw (formats.creds_json.parse raw) s c refl
        (g ∙ ap (λ (o : Option String). (ok o, s)) here) e

  try_candidate-Advanced :
      {start at : State r L} {state : ImportCandidateState} (seen : Seen start at state)
      (next : Option Candidate)
      → elements state.candidates (state.index + 1) ≡ next
      → (try_candidate hashes env site id formats state next at).0 ≡ ok (some true)
      → Advanced start (try_candidate hashes env site id formats state next at).1
  unfolding try_candidate
  try_candidate-Advanced seen none c e = cc
  try_candidate-Advanced {start} {at} {state} seen (some next) c e =
      >>=-post (hget hashes env site id "creds") _ at (λ t. Advanced start t) e
        (λ found a b.
          commit_raw-Advanced seen next found (truthy found) (hget hashes env site id "creds" at).1
            refl c (ap (λ x. (x, (hget hashes env site id "creds" at).1)) a) b)

  try_state-Advanced :
      {start at : State r L} (cursor : String) (state : Option ImportCandidateState)
      → formats.import_json.parse cursor ≡ state
      → hget hashes env site id import_candidates_field start ≡ (ok (some cursor), at)
      → (try_state hashes env site id formats state at).0 ≡ ok (some true)
      → Advanced start (try_state hashes env site id formats state at).1
  unfolding try_state
  try_state-Advanced cursor none p g e = cc
  try_state-Advanced cursor (some state) p g e =
      try_candidate-Advanced (record { cursor = cursor; reads = g; parsed = p })
        (elements state.candidates (state.index + 1)) refl e

  try_raw-Advanced :
      {start at : State r L} (found raw : Option String)
      → truthy found ≡ raw
      → hget hashes env site id import_candidates_field start ≡ (ok found, at)
      → (try_raw hashes env site id formats raw at).0 ≡ ok (some true)
      → Advanced start (try_raw hashes env site id formats raw at).1
  unfolding try_raw
  try_raw-Advanced found none t g e = cc
  try_raw-Advanced {start} {at} found (some raw) t g e =
      try_state-Advanced raw (formats.import_json.parse raw) refl
        (g ∙ ap (λ (o : Option String). (ok o, at)) (truthy-some found raw t)) e

  attempt_advance-Advanced :
      (s : State r L)
      → (attempt_advance hashes env site id formats s).0 ≡ ok (some true)
      → Advanced s (attempt_advance hashes env site id formats s).1
  unfolding attempt_advance
  attempt_advance-Advanced s e =
      let read = hget hashes env site id import_candidates_field in
      >>=-post read _ s (λ t. Advanced s t) e
        (λ found a b. try_raw-Advanced found (truthy found) refl (ap (λ x. (x, (read s).1)) a) b)

  abbrev pub AdvancedIn : ℕ → State r L → State r L → Type 0
  AdvancedIn n s t = (before : ℕ) × (before < n) × Advanced (rounds before s) t

  advance_attempts-Advanced :
      (n : ℕ) (s : State r L)
      → (advance_attempts hashes env site id formats n s).0 ≡ ok true
      → AdvancedIn n s (advance_attempts hashes env site id formats n s).1
  unfolding advance_attempts
  advance_attempts-Advanced zero s e = cc
  advance_attempts-Advanced (suc n) s e =
      let ih = advance_attempts-Advanced n in
      let rest = advance_attempts hashes env site id formats n in
      >>=-post (attempt_advance hashes env site id formats)
        (unless_over hashes env site id formats rest) s (λ t. AdvancedIn (suc n) s t) e
        λ outcome a b. over outcome a b ih
    where
      over :
          (outcome : Option Bool)
          → (attempt_advance hashes env site id formats s).0 ≡ ok outcome
          → let t = (attempt_advance hashes env site id formats s).1 in
            let rest = advance_attempts hashes env site id formats n in
            (unless_over hashes env site id formats rest outcome t).0 ≡ ok true
            → ((u : State r L) → (rest u).0 ≡ ok true → AdvancedIn n u (rest u).1)
            → AdvancedIn (suc n) s (unless_over hashes env site id formats rest outcome t).1
      over none a b ih =
          let (before, less, advanced) = ih _ b in (suc before, omega (arith, less), advanced)
      over (some true) a b ih = (0, omega arith, attempt_advance-Advanced s a)
      over (some false) a b ih = cc

  -- Where advanceImportCandidate returns true, one of its three rounds, its last, moved the session
  -- on to the candidate after the one of the cursor that it read: the creds that it read were in the
  -- hash at its commit, which replaced them, under an open fence, by the same creds with the Noise
  -- key of that candidate, in one step with the cursor, and wrote nothing else.
  pub advance_import_candidate-Advanced :
      (s : State r L)
      → (advance_import_candidate hashes env site id formats s).0 ≡ ok true
      → AdvancedIn 3 s (advance_import_candidate hashes env site id formats s).1
  unfolding advance_import_candidate
  advance_import_candidate-Advanced s e = advance_attempts-Advanced 3 s e
