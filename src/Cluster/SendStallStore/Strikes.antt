-- ===== src/Cluster/SendStallStore/Strikes.antt =====
-- src/cluster/sendStallStore.ts: recordRestart under contention.
use baileys_api.Prelude.{
  subst, ℕ, zero, suc, ◌+◌, ◌<◌, String, ◌≡◌, Bool, true, false, Option, none, some, if◌then◌else◌,
  arith, refl, eq_iff, eq_refl, get_or, ◌∙◌, sym, ap,
}
use baileys_api.Redis.{Redis, IsRedis}
use baileys_api.Json.{Codec, decode_or_none}
use baileys_api.Exec
use baileys_api.Exec.{Env, Exec, State, Result, ok, call, arrive, pure, ◌>>=◌}
use baileys_api.Exec.Steps.{>>=-post, >>=-inv}
use baileys_api.Cluster.Keys
use baileys_api.Cluster.Site.{Site, IsSite, SendStallState}
use baileys_api.Cluster.Backoff.{send_stall_backoff_ms}
use baileys_api.Cluster.SendStallStore.{
  Recorded, send_stall_ttl_ms, cas_attempts, next_restarts, cas_holds, cas, read_previous_ttl,
  attempt_restart, retry, attempts, record_restart,
}

-- The compare-and-set passes only over an entry that reads like the one it was given.
cas_holds-decode :
    {A : Type 0} (c : Codec A) (before now : Option String)
    → cas_holds now (get_or before "") ≡ true
    → decode_or_none c now ≡ decode_or_none c before
cas_holds-decode c none none h = refl
cas_holds-decode c none (some raw) h = ground arith
cas_holds-decode c (some raw) none h = ground arith
cas_holds-decode c (some raw) (some other) h = ground (arith, eq_iff other raw)

-- The entry under a key as the database holds it.
abbrev pub entry : (r : Redis) → Site → String → r.Db → Option SendStallState
entry r site key d = decode_or_none site.send_stall_json (r.get d key)

module _ {r : Redis} {L : Type 0} (env : Env r L) (site : Site) (key : String) where
  -- A strike was written by the call sent at `t`: over the very entry that it counted on, and is there afterwards.
  pub record IsWritten (rec : Recorded) (t : State r L) (after : r.Db) : Type 0 where
    pub based : entry r site key (arrive env t).db ≡ rec.previous
    pub counted : rec.state.restarts ≡ next_restarts rec.previous
    pub written : after ≡ r.set (arrive env t).db key rec.wrote (some send_stall_ttl_ms)
    pub text : rec.wrote ≡ site.send_stall_json.stringify rec.state
    pub readable : entry r site key after ≡ some rec.state

  -- The state in which an attempt that began at `s` sends its compare-and-set.
  abbrev pub at_write : Recorded → State r L → State r L
  at_write rec s = (read_previous_ttl env site key rec.previous (Exec.get env key s).1).1

  -- The state in which the attempt begins that n others came before.
  abbrev pub attempt_at : ℕ → State r L → State r L
  attempt_at zero s = s
  attempt_at (suc n) s = attempt_at n (attempt_restart env site key s).1

  -- One of the attempts wrote the strike.
  abbrev pub IsStruck : ℕ → Recorded → State r L → State r L → Type 0
  IsStruck limit rec s u =
      (n : ℕ) × (n < limit) × IsWritten rec (at_write rec (attempt_at n s)) u.db

module _ {r : Redis} {L : Type 0} (laws : IsRedis r) (env : Env r L) (site : Site)
    (sound : IsSite site) (key : String) where
  cas-true :
      (expected value : String) (ttl : ℕ) (t : State r L)
      → (cas env site key expected value ttl t).0 ≡ ok true
      → (cas_holds (r.get (arrive env t).db key) expected ≡ true)
        × ((cas env site key expected value ttl t).1.db
            ≡ r.set (arrive env t).db key value (some ttl))
  unfolding cas call
  cas-true expected value ttl t h = ground arith

  entry-set :
      (d : r.Db) (state : SendStallState) (ttl : ℕ)
      → entry r site key (r.set d key (site.send_stall_json.stringify state) (some ttl))
        ≡ some state
  entry-set d state ttl =
      let text = site.send_stall_json.stringify state in
      ground (
        arith,
        laws.get-set d key key text (some ttl),
        eq_refl key,
        sound.send_stall_round state,
        sound.send_stall_text state,
        eq_iff text "",
      )

  -- What `attemptRestart` goes on with after its reads.
  abbrev strike : Option String → ℕ → SendStallState
  strike raw now =
      let restarts = next_restarts (decode_or_none site.send_stall_json raw) in
      record { restarts = restarts; next_restart_allowed_at = now + send_stall_backoff_ms restarts }

  abbrev outcome : Option String → Option ℕ → ℕ → Bool → Option Recorded
  outcome raw ttl now applied =
      if applied
      then some (record {
        state = strike raw now;
        previous = decode_or_none site.send_stall_json raw;
        previous_ttl_ms = ttl;
        wrote = site.send_stall_json.stringify (strike raw now);
      })
      else none

  abbrev store : Option String → ℕ → Exec r L Bool
  store raw now =
      cas env site key (get_or raw "") (site.send_stall_json.stringify (strike raw now))
        send_stall_ttl_ms

  abbrev write : Option String → Option ℕ → ℕ → Exec r L (Option Recorded)
  write raw ttl now = store raw now >>= λ applied. pure (outcome raw ttl now applied)

  write_lem :
      (raw : Option String) (ttl : Option ℕ) (now : ℕ) (t : State r L) {rec : Recorded}
      → (write raw ttl now t).0 ≡ ok (some rec)
      → IsWritten env site key rec t (write raw ttl now t).1.db
  write_lem raw ttl now t {rec} h =
      >>=-post (store raw now) (λ applied. pure (outcome raw ttl now applied)) t
        (λ u. IsWritten env site key rec t u.db) h (λ applied done same. stored applied done same)
    where
      stored :
          (applied : Bool)
          → (store raw now t).0 ≡ ok applied
          → ◌≡◌ {A = Result (Option Recorded)} (ok (outcome raw ttl now applied)) (ok (some rec))
          → IsWritten env site key rec t (store raw now t).1.db
      stored false done same = cc
      stored true done same =
          let text = site.send_stall_json.stringify (strike raw now) in
          let (held, wrote) = cas-true (get_or raw "") text send_stall_ttl_ms t done in
          let mine : rec.state ≡ strike raw now = ground arith in
          record {
            based = cas_holds-decode site.send_stall_json raw _ held ∙ ground arith;
            counted = ground arith;
            written = wrote ∙ ground arith;
            text = ground arith;
            readable =
                ap (entry r site key) wrote
                ∙ entry-set (arrive env t).db (strike raw now) send_stall_ttl_ms
                ∙ ap some (sym mine);
          }

  outcome-previous :
      (raw : Option String) (ttl : Option ℕ) (now : ℕ) (applied : Bool) {rec : Recorded}
      → ◌≡◌ {A = Result (Option Recorded)} (ok (outcome raw ttl now applied)) (ok (some rec))
      → decode_or_none site.send_stall_json raw ≡ rec.previous
  outcome-previous raw ttl now false h = cc
  outcome-previous raw ttl now true h = ground arith

  write-previous :
      (raw : Option String) (ttl : Option ℕ) (now : ℕ) (t : State r L) {rec : Recorded}
      → (write raw ttl now t).0 ≡ ok (some rec)
      → decode_or_none site.send_stall_json raw ≡ rec.previous
  write-previous raw ttl now t h =
      let (applied, done, same, step) =
        >>=-inv (store raw now) (λ applied. pure (outcome raw ttl now applied)) t h in
      outcome-previous raw ttl now applied same

  attempt_restart_lem :
      (s : State r L) {rec : Recorded}
      → (attempt_restart env site key s).0 ≡ ok (some rec)
      → IsWritten env site key rec
          (at_write env site key rec s)
          (attempt_restart env site key s).1.db
  unfolding attempt_restart
  attempt_restart_lem s {rec} h =
      >>=-post (Exec.get env key) _ s
        (λ u. IsWritten env site key rec (at_write env site key rec s) u.db) h
        λ raw read h₁.
          >>=-post (read_previous_ttl env site key (decode_or_none site.send_stall_json raw)) _
            (Exec.get env key s).1
            (λ u. IsWritten env site key rec (at_write env site key rec s) u.db) h₁
            λ ttl timed h₂.
              let t =
                (read_previous_ttl env site key (decode_or_none site.send_stall_json raw)
                  (Exec.get env key s).1).1 in
              let now = env.date_now t.turn in
              subst
                (λ p.
                  IsWritten env site key rec
                    (read_previous_ttl env site key p (Exec.get env key s).1).1
                    (write raw ttl now t).1.db)
                (write-previous raw ttl now t h₂) (write_lem raw ttl now t h₂)

  retry_lem :
      (P : Recorded → State r L → Type 0) (again : Exec r L Recorded) (o : Option Recorded)
      (u : State r L) {rec : Recorded}
      → ((again u).0 ≡ ok rec → P rec (again u).1)
      → ((found : Recorded) → o ≡ some found → P found u)
      → (retry again o u).0 ≡ ok rec
      → P rec (retry again o u).1
  retry_lem P again none u later here h = later h
  retry_lem P again (some found) u {rec} later here h =
      let same : found ≡ rec = ground arith in subst (λ x. P x u) same (here found refl)

  attempts_lem :
      (n : ℕ) (phone : String) (s : State r L) {rec : Recorded}
      → (attempts env site n key phone s).0 ≡ ok rec
      → IsStruck env site key n rec s (attempts env site n key phone s).1
  unfolding attempts
  attempts_lem zero phone s h = cc
  attempts_lem (suc n) phone s {rec} h =
      >>=-post (attempt_restart env site key) _ s (IsStruck env site key (suc n) rec s) h
        λ o done rest.
          retry_lem (λ x u. IsStruck env site key (suc n) x s u) (attempts env site n key phone) o
            (attempt_restart env site key s).1
            (λ k.
              let (m, few, struck) = attempts_lem n phone (attempt_restart env site key s).1 k in
              (suc m, omega arith, struck))
            (λ found e. (zero, omega arith, attempt_restart_lem s (done ∙ ap ok e))) rest

module _ {r : Redis} {L : Type 0} (laws : IsRedis r) (env : Env r L) (site : Site)
    (sound : IsSite site) (phone : String) (s : State r L) where
  -- Whatever other writers do between its commands, `recordRestart` that returns wrote its strike in
  -- one of its three attempts, over an entry that read, when the write was carried out, as the one
  -- that the strike was counted on (`based`): no strike is lost. The new entry has one restart
  -- more, is stored under a day's expiry, and reads back.
  pub record_restart-IsWritten :
      {rec : Recorded}
      → (record_restart env site phone s).0 ≡ ok rec
      → IsStruck env site
          (Keys.send_stall phone)
          cas_attempts
          rec
          s
          (record_restart env site phone s).1
  unfolding record_restart
  record_restart-IsWritten h =
      attempts_lem laws env site sound (Keys.send_stall phone) cas_attempts phone s h
