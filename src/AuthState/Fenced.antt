-- ===== src/AuthState/Fenced.antt =====
-- src/baileys/redisAuthState.ts: what the fenced writes leave in the hash, and what is read back.
use baileys_api.Prelude.{
  ℕ, String, ◌≡◌, ◌≢◌, ◌⊎◌, inl, inr, true, false, Option, none, some, List, [], ◌∷◌, eq_iff,
  eq_refl, eq-false, arith, Bool-cases, eqb, not,
}
use baileys_api.Redis.{Redis}
use baileys_api.Redis.Hashes.{Hashes, IsHashes}
use baileys_api.Json.{RoundTrips, decode}
use baileys_api.Exec.{Env, State, delivered, ok, call, arrive, pure, ◌>>=◌}
use baileys_api.Exec.Steps.{>>=-post}
use baileys_api.Cluster.Keys
use baileys_api.Cluster.Site.{Site, Lease}
use baileys_api.Cluster.LeaseStore.Ownership.{lease_in}
use baileys_api.AuthState.{
  auth_key, delete_sentinel, import_candidates_field, Candidate, AuthFormats, may_write,
  write_pairs, write_if_owner, fenced_auth_write, hget, save_creds, read_creds, clear_if_owner,
  hash_exists, after_clear, clear_redis_auth_state,
}
use baileys_api.AuthState.Import.{seed_imported_session}

-- The lease of another instance closes the fence.
may_write-other :
    (site : Site) (raw : Option String) (lease : Lease)
    → decode site.lease_json raw ≡ some lease
    → lease.owner ≢ site.instance_id
    → may_write site raw ≡ ok false
unfolding may_write
may_write-other site none lease e h = cc
may_write-other site (some raw) lease e h = ground (arith, eq_iff lease.owner site.instance_id)

module _ {r : Redis} (hashes : Hashes r) {L : Type 0} (env : Env r L) (site : Site)
    (id : String) where
  -- A fenced write that reaches the server while another instance holds the phone's lease changes
  -- nothing there, and does not report success.
  pub fenced_auth_write_fenced :
      (field value : String) (pairs : List (String × String)) (s : State r L) (lease : Lease)
      → lease_in r site (arrive env s).db id ≡ some lease
      → lease.owner ≢ site.instance_id
      → let t = fenced_auth_write hashes env site id ((field, value) ∷ pairs) s in
        (t.1.db ≡ (arrive env s).db) × (t.0 ≢ ok true)
  unfolding fenced_auth_write write_if_owner call
  fenced_auth_write_fenced field value pairs s lease e h =
      let closed = may_write-other site (r.get (arrive env s).db (Keys.lease id)) lease e h in
      (ground (arith, closed), λ f. ground (arith, closed))

  -- A fenced write that reports success has written all its pairs.
  write_if_owner-written :
      (pairs : List (String × String)) (s : State r L)
      → (write_if_owner hashes env site id pairs s).0 ≡ ok true
      → (write_if_owner hashes env site id pairs s).1.db
        ≡ write_pairs hashes (auth_key id) pairs (arrive env s).db
  unfolding write_if_owner call
  write_if_owner-written pairs s e = ground arith

  -- However it ends, it has written all of them or nothing.
  write_if_owner_whole :
      (pairs : List (String × String)) (s : State r L)
      → ((write_if_owner hashes env site id pairs s).1.db ≡ (arrive env s).db)
        ⊎ ((write_if_owner hashes env site id pairs s).1.db
            ≡ write_pairs hashes (auth_key id) pairs (arrive env s).db)
  unfolding write_if_owner call
  write_if_owner_whole pairs s = ground arith

  cleared :
      IsHashes r hashes
      → (s : State r L) (n : ℕ) (field : String) → (clear_if_owner hashes env site id s).0 ≡ ok n
      → eqb n 0 ≡ false
      → hashes.hget (clear_if_owner hashes env site id s).1.db (auth_key id) field ≡ none
  unfolding clear_if_owner call
  cleared laws s n field e f = ground (arith, laws.hget-del (arrive env s).db (auth_key id) field)

  absent_after :
      IsHashes r hashes
      → (s : State r L) (field : String) → (hash_exists hashes env site id s).0 ≡ ok false
      → hashes.hget (hash_exists hashes env site id s).1.db (auth_key id) field ≡ none
  unfolding hash_exists call
  absent_after laws s field e = ground (arith, laws.hget-hlen (arrive env s).db (auth_key id) field)

  absent_at_last :
      IsHashes r hashes
      → (s : State r L) (field : String)
      → let m = hash_exists hashes env site id >>= λ there. pure (not there) in
        (m s).0 ≡ ok true → hashes.hget (m s).1.db (auth_key id) field ≡ none
  absent_at_last laws s field e =
      >>=-post (hash_exists hashes env site id) (λ there. pure (not there)) s
        (λ t. hashes.hget t.db (auth_key id) field ≡ none) e
        λ there a b. absent_after laws s field (ground arith)

  -- A clear that reports success leaves no field of the session.
  pub clear_redis_auth_state-cleared :
      IsHashes r hashes
      → (s : State r L) → (clear_redis_auth_state hashes env site id s).0 ≡ ok true
      → (field : String)
      → hashes.hget (clear_redis_auth_state hashes env site id s).1.db (auth_key id) field ≡ none
  unfolding clear_redis_auth_state
  clear_redis_auth_state-cleared laws s e field =
      >>=-post (clear_if_owner hashes env site id) _ s
        (λ t. hashes.hget t.db (auth_key id) field ≡ none) e λ n a b. last n a b
    where
      last :
          (n : ℕ)
          → (clear_if_owner hashes env site id s).0 ≡ ok n
          → (after_clear hashes env site id n (clear_if_owner hashes env site id s).1).0 ≡ ok true
          → hashes.hget
              (after_clear hashes env site id n (clear_if_owner hashes env site id s).1).1.db
              (auth_key id)
              field
            ≡ none
      last n a = elim (Bool-cases (eqb n 0)) [
        | inl z ↦ rw z (λ b. absent_at_last laws (clear_if_owner hashes env site id s).1 field b)
        | inr z ↦ rw z (λ b. cleared laws s n field a z)
      ]

  -- Creds that were saved are the creds that are read, as long as the field stays as it was written.
  pub read_creds-save_creds :
      IsHashes r hashes
      → (formats : AuthFormats) → RoundTrips formats.creds_json
      → (creds : formats.Creds) (s t : State r L) → formats.creds_json.stringify creds ≢ ""
      → formats.creds_json.stringify creds ≢ delete_sentinel
      → (save_creds hashes env site id formats creds s).0 ≡ ok true
      → hashes.hget (arrive env t).db (auth_key id) "creds"
        ≡ hashes.hget (save_creds hashes env site id formats creds s).1.db (auth_key id) "creds"
      → env.delivery t.turn ≡ delivered
      → (read_creds hashes env site id formats t).0 ≡ ok (some creds)
  unfolding read_creds save_creds fenced_auth_write write_pairs hget call
  read_creds-save_creds laws formats rt creds s t full real e f d =
      let text = formats.creds_json.stringify creds in
      let stored : hashes.hget (arrive env t).db (auth_key id) "creds" ≡ some text = ground (
        arith,
        f,
        write_if_owner-written (("creds", text) ∷ []) s e,
        laws.hget-hset (arrive env s).db (auth_key id) (auth_key id) "creds" "creds" text,
        eq_refl (auth_key id),
        eq-false real,
      ) in
      ground (arith, stored, d, rt creds, eq-false full)

  -- A seeded session is in the hash with its creds and its candidates, or nothing has changed there,
  -- however the call ends.
  pub seed_imported_session_whole :
      IsHashes r hashes
      → (formats : AuthFormats) (creds : formats.Creds) (candidates : List Candidate) (index : ℕ)
        (s : State r L)
      → formats.creds_json.stringify creds ≢ delete_sentinel
      → formats.import_json.stringify (record { candidates = candidates; index = index })
        ≢ delete_sentinel
      → let t = (seed_imported_session hashes env site id formats creds candidates index s).1 in
        (t.db ≡ (arrive env s).db)
        ⊎ ((hashes.hget t.db (auth_key id) "creds" ≡ some (formats.creds_json.stringify creds))
            × (hashes.hget t.db (auth_key id) import_candidates_field
                ≡ some (
                    formats.import_json.stringify
                      (record { candidates = candidates; index = index }))))
  unfolding seed_imported_session fenced_auth_write write_pairs
  seed_imported_session_whole laws formats creds candidates index s a b =
      let text = formats.creds_json.stringify creds in
      let cursor =
        formats.import_json.stringify (record { candidates = candidates; index = index }) in
      let k = auth_key id in
      let d = (arrive env s).db in
      ground (
        arith,
        write_if_owner_whole (("creds", text) ∷ (import_candidates_field, cursor) ∷ []) s,
        laws.hget-hset d k k "creds" "creds" text,
        laws.hget-hset (hashes.hset d k "creds" text) k k import_candidates_field "creds" cursor,
        laws.hget-hset (hashes.hset d k "creds" text) k k import_candidates_field
            import_candidates_field cursor,
        eq_refl k,
        eq-false a,
        eq-false b,
      )
