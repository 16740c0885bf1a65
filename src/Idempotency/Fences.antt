-- ===== src/Idempotency/Fences.antt =====
-- src/helpers/withIdempotency.ts: the commands of one process on a key, against what stands under
-- it.
use baileys_api.Prelude.{
  suc, ℕ, String, ◌≡◌, ◌≢◌, Bool, true, false, Option, none, some, eq_iff, arith, refl, same_text,
  ap, inl, ◌⊎◌,
}
use baileys_api.Redis.{Redis}
use baileys_api.Json.{Codec}
use baileys_api.Exec.{Env, State, ok, call, arrive}
use baileys_api.Cluster.Site.{Site}
use baileys_api.Idempotency.{
  Attempts, processing_value, write_holds, write_if_ours, mark_indeterminate, release_lock,
  clear_indeterminate, cache_result, finish, executed, failed,
}

-- A value that stands in the way: it is there, and it is not ours or we hold no lock.
abbrev pub Foreign : Site → Bool → Option String → Type 0
Foreign site held raw =
    (text : String) × (raw ≡ some text) × ((held ≡ false) ⊎ (text ≢ processing_value site))

Foreign-write_holds :
    (site : Site) (held : Bool) (raw : Option String)
    → Foreign site held raw
    → write_holds held raw (processing_value site) ≡ false
Foreign-write_holds site held raw (text, there, why) =
    ground (arith, eq_iff text (processing_value site))

module _ {r : Redis} (env : Env r Attempts) (site : Site) (to_base36 : ℕ → String) (key : String)
    (s : State r Attempts) where
  write_if_ours_fenced :
      (value : String) (ttl : ℕ) (held : Bool)
      → Foreign site held (r.get (arrive env s).db key)
      → ((write_if_ours env site to_base36 key value ttl held s).1.db ≡ (arrive env s).db)
        × ((write_if_ours env site to_base36 key value ttl held s).0 ≢ ok true)
  unfolding write_if_ours call
  write_if_ours_fenced value ttl held foreign =
      let closed = Foreign-write_holds site held (r.get (arrive env s).db key) foreign in
      (ground (arith, closed), ground (arith, closed))

  -- The state in which an attempt is numbered.
  abbrev pub numbered : State r Attempts
  numbered = record s { local = record { attempt_counter = suc s.local.attempt_counter } }

  -- Where the key holds a value when the script runs, and this process holds no lock or the value
  -- is not its own marker, recording an unknown outcome changes nothing and reports no marker.
  pub mark_indeterminate_fenced :
      (held : Bool)
      → Foreign site held (r.get (arrive env numbered).db key)
      → ((mark_indeterminate env site to_base36 key held s).1.db ≡ (arrive env numbered).db)
        × ((mark_indeterminate env site to_base36 key held s).0 ≡ ok none)
  unfolding mark_indeterminate write_if_ours call
  mark_indeterminate_fenced held foreign =
      let closed = Foreign-write_holds site held (r.get (arrive env numbered).db key) foreign in
      (ground (arith, closed), ground (arith, closed))

  -- Where the key holds a value when the script runs, and this process holds no lock or the value
  -- is not its own marker, caching a result changes nothing and reports false.
  pub cache_result_fenced :
      {T : Type 0} (json : Codec T) (value : T) (held : Bool)
      → Foreign site held (r.get (arrive env s).db key)
      → ((cache_result env site to_base36 json key value held s).1.db ≡ (arrive env s).db)
        × ((cache_result env site to_base36 json key value held s).0 ≡ ok false)
  unfolding cache_result write_if_ours call
  cache_result_fenced json value held foreign =
      let closed = Foreign-write_holds site held (r.get (arrive env s).db key) foreign in
      (ground (arith, closed), ground (arith, closed))

  other_text : (raw : Option String) (text : String) → raw ≢ some text → same_text raw text ≡ false
  other_text none text moved = refl
  other_text (some old) text moved =
      let other : old ≢ text = λ (e : old ≡ text). moved (ap some e) in
      ground (arith, eq_iff old text)

  -- A release without a lock does not even ask the server. With one it changes nothing where the
  -- key does not hold this process's own marker when the script runs.
  pub release_lock_fenced :
      r.get (arrive env s).db key ≢ some (processing_value site)
      → (release_lock env site to_base36 key false s ≡ (ok tt, s))
        × ((release_lock env site to_base36 key true s).0 ≡ ok tt)
        × ((release_lock env site to_base36 key true s).1.db ≡ (arrive env s).db)
  unfolding release_lock call
  release_lock_fenced moved =
      let closed = other_text (r.get (arrive env s).db key) (processing_value site) moved in
      (refl, ground (arith, closed), ground (arith, closed))

  -- A late retraction changes nothing, and reports so, where the key does not hold the very marker
  -- that it was given.
  pub clear_indeterminate_fenced :
      (marker : String)
      → r.get (arrive env s).db key ≢ some marker
      → ((clear_indeterminate env site to_base36 key marker s).1.db ≡ (arrive env s).db)
        × ((clear_indeterminate env site to_base36 key marker s).0 ≡ ok false)
  unfolding clear_indeterminate call
  clear_indeterminate_fenced marker moved =
      let closed = other_text (r.get (arrive env s).db key) marker moved in
      (ground (arith, closed), ground (arith, closed))

  -- Work that ran with no lock behind it ends without touching a value that stands under the key
  -- when its write arrives, whether it returned null, and then asks nothing of the server, or a
  -- value, which is its answer all the same.
  pub finish_fail_open :
      {T : Type 0} (json : Codec T) (value : T) {text : String}
      → r.get (arrive env s).db key ≡ some text
      → (finish env site to_base36 json key false none s ≡ (ok failed, s))
        × ((finish env site to_base36 json key false (some value) s).1.db ≡ (arrive env s).db)
        × ((finish env site to_base36 json key false (some value) s).0 ≡ ok (executed value))
  unfolding finish release_lock cache_result write_if_ours call
  finish_fail_open json value {text} there =
      let closed =
        Foreign-write_holds site false (r.get (arrive env s).db key) (text, there, inl refl) in
      (refl, ground (arith, closed), ground (arith, closed))
