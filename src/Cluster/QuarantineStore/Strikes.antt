-- ===== src/Cluster/QuarantineStore/Strikes.antt =====
-- src/cluster/quarantineStore.ts: what a strike leaves behind, and when a phone is quarantined.
use baileys_api.Prelude.{
  ap, ◌∙◌, suc, ◌+◌, String, ◌≡◌, true, false, Option, some, ltb, arith, eq_iff, eq_refl,
}
use baileys_api.Redis.{Redis, IsRedis}
use baileys_api.Json.{decode_or_none}
use baileys_api.Exec
use baileys_api.Exec.{Env, Exec, State, ok, call, arrive, delivered, ◌>>=◌, ◌>>◌}
use baileys_api.Cluster.Keys
use baileys_api.Cluster.Site.{Site, IsSite, QuarantineState}
use baileys_api.Cluster.Backoff.{quarantine_backoff_ms}
use baileys_api.Cluster.QuarantineStore.{
  quarantine_ttl_ms, next_strikes, record_strike, is_quarantined, clear_quarantine, is_pending,
}

-- The entry of a phone as the database holds it.
abbrev pub quarantine_in : (r : Redis) → Site → r.Db → String → Option QuarantineState
quarantine_in r site d phone = decode_or_none site.quarantine_json (r.get d (Keys.quarantine phone))

module _ {r : Redis} {L : Type 0} (laws : IsRedis r) (env : Env r L) (site : Site)
    (sound : IsSite site) (phone : String) (s : State r L) where
  -- A strike that is recorded counts one more than the entry that was read, and is what the
  -- database then holds, for a week: the phone is to be left alone for the backoff of that count.
  pub record_strike_lem :
      {state : QuarantineState}
      → (record_strike env site phone s).0 ≡ ok (some state)
      → (state.strikes ≡ next_strikes (quarantine_in r site (arrive env s).db phone))
        × (state.next_retry_at
            ≡ env.date_now (suc s.turn) + quarantine_backoff_ms site.config state.strikes)
        × (quarantine_in r site (record_strike env site phone s).1.db phone ≡ some state)
        × (r.pttl (record_strike env site phone s).1.db (Keys.quarantine phone)
            ≡ some quarantine_ttl_ms)
  unfolding record_strike Exec.get Exec.set call
  record_strike_lem {state} h =
      let k = Keys.quarantine phone in
      let text = site.quarantine_json.stringify state in
      let d = (arrive env (arrive env s)).db in
      ground (
        arith,
        laws.get-set d k k text (some quarantine_ttl_ms),
        laws.pttl-set d k k text (some quarantine_ttl_ms),
        eq_refl k,
        sound.quarantine_round state,
        sound.quarantine_text state,
        eq_iff text "",
      )

  is_quarantined_lem :
      site.config.quarantine_enabled ≡ true
      → env.delivery s.turn ≡ delivered
      → (is_quarantined env site phone s).0
        ≡ ok (is_pending (quarantine_in r site (arrive env s).db phone) (env.date_now (suc s.turn)))
  unfolding is_quarantined Exec.get call
  is_quarantined_lem enabled arrives = ground arith

  record_strike-enabled :
      {state : QuarantineState}
      → (record_strike env site phone s).0 ≡ ok (some state)
      → site.config.quarantine_enabled ≡ true
  unfolding record_strike
  record_strike-enabled h = ground arith

module _ {r : Redis} {L : Type 0} (laws : IsRedis r) (env : Env r L) (site : Site)
    (sound : IsSite site) (phone : String) (s : State r L) where
  -- Once a strike is recorded, nobody touches the entry before the next read and that read
  -- arrives, the phone is quarantined exactly if the clock has not reached the time that the
  -- strike gave.
  pub quarantined_after_strike :
      {state : QuarantineState}
      → (record_strike env site phone s).0 ≡ ok (some state)
      → r.get (arrive env (record_strike env site phone s).1).db (Keys.quarantine phone)
        ≡ r.get (record_strike env site phone s).1.db (Keys.quarantine phone)
      → env.delivery (record_strike env site phone s).1.turn ≡ delivered
      → (is_quarantined env site phone (record_strike env site phone s).1).0
        ≡ ok (ltb (env.date_now (suc (record_strike env site phone s).1.turn)) state.next_retry_at)
  quarantined_after_strike {state} h untouched arrives =
      let s' = (record_strike env site phone s).1 in
      let kept = (record_strike_lem laws env site sound phone s h).2 in
      let enabled = record_strike-enabled laws env site sound phone s h in
      is_quarantined_lem laws env site sound phone s' enabled arrives
      ∙ ap (λ (o : Option QuarantineState). ok (is_pending o (env.date_now (suc s'.turn))))
          (ap (decode_or_none site.quarantine_json) untouched ∙ kept)

  -- Once the entry is cleared and nobody has written it before the next read arrives, the phone is
  -- not quarantined.
  pub not_quarantined_after_clear :
      (clear_quarantine env site phone s).0 ≡ ok tt
      → r.get (arrive env (clear_quarantine env site phone s).1).db (Keys.quarantine phone)
        ≡ r.get (clear_quarantine env site phone s).1.db (Keys.quarantine phone)
      → env.delivery (clear_quarantine env site phone s).1.turn ≡ delivered
      → (is_quarantined env site phone (clear_quarantine env site phone s).1).0 ≡ ok false
  unfolding clear_quarantine is_quarantined Exec.get Exec.del call
  not_quarantined_after_clear h untouched arrives =
      let k = Keys.quarantine phone in ground (arith, laws.get-del (arrive env s).db k k, eq_refl k)
