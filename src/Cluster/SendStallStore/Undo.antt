-- ===== src/Cluster/SendStallStore/Undo.antt =====
-- src/cluster/sendStallStore.ts: restoreState, which undoes a strike of recordRestart.
use baileys_api.Prelude.{
  ℕ, String, ◌≡◌, ◌≢◌, false, Option, none, some, arith, refl, ◌==◌, eq_iff, eq_refl, same_text,
  get_or, ap,
}
use baileys_api.Redis.{Redis, IsRedis}
use baileys_api.Exec.{Env, State, call, arrive, delivered}
use baileys_api.Cluster.Keys
use baileys_api.Cluster.Site.{Site, IsSite, SendStallState}
use baileys_api.Cluster.SendStallStore.{send_stall_ttl_ms, cas_holds, restore_state}
use baileys_api.Cluster.SendStallStore.Strikes.{entry}

other_text :
    (raw : Option String) (expected : String)
    → expected ≢ ""
    → raw ≢ some expected
    → (same_text raw expected ≡ false) × (cas_holds raw expected ≡ false)
other_text none expected filled moved = (refl, ground (arith, eq_iff expected ""))
other_text (some text) expected filled moved =
    let other : text ≢ expected = λ (e : text ≡ expected). moved (ap some e) in
    (ground (arith, eq_iff text expected), ground (arith, eq_iff text expected))

module _ {r : Redis} {L : Type 0} (laws : IsRedis r) (env : Env r L) (site : Site)
    (sound : IsSite site) (phone : String) (s : State r L) where
  moved_on :
      (expected : String)
      → expected ≢ ""
      → r.get (arrive env s).db (Keys.send_stall phone) ≢ some expected
      → (same_text (r.get (arrive env s).db (Keys.send_stall phone)) expected ≡ false)
        × (cas_holds (r.get (arrive env s).db (Keys.send_stall phone)) expected ≡ false)
  moved_on expected filled moved =
      other_text (r.get (arrive env s).db (Keys.send_stall phone)) expected filled moved

  -- Where the entry is no longer the text, not empty, that the strike wrote, the undo changes
  -- nothing, however its call ends.
  pub restore_state_fenced :
      (previous : Option SendStallState) (ttl_ms : Option ℕ) (expected : String)
      → expected ≢ ""
      → r.get (arrive env s).db (Keys.send_stall phone) ≢ some expected
      → (restore_state env site phone previous ttl_ms expected s).1.db ≡ (arrive env s).db
  unfolding restore_state call
  restore_state_fenced none ttl_ms expected filled moved =
      ground (arith, (moved_on expected filled moved).0)
  restore_state_fenced (some previous) ttl_ms expected filled moved =
      ground (arith, (moved_on expected filled moved).1)

  -- Where the entry still is the text that the strike wrote and the call arrives, the undo puts
  -- back the entry that it is given, none if there was none, and touches no other key.
  pub restore_state_undoes :
      (previous : Option SendStallState) (ttl_ms : Option ℕ) (expected : String)
      → env.delivery s.turn ≡ delivered
      → r.get (arrive env s).db (Keys.send_stall phone) ≡ some expected
      → let d' = (restore_state env site phone previous ttl_ms expected s).1.db in
        (entry r site (Keys.send_stall phone) d' ≡ previous)
        × ((j : String)
            → (Keys.send_stall phone == j) ≡ false
            → r.get d' j ≡ r.get (arrive env s).db j)
  unfolding restore_state call
  restore_state_undoes none ttl_ms expected arrives there =
      let k = Keys.send_stall phone in
      let d = (arrive env s).db in
      (
        ground (arith, laws.get-del d k k, eq_refl k, eq_refl expected),
        λ j other. ground (arith, laws.get-del d k j, eq_refl expected),
      )
  restore_state_undoes (some previous) ttl_ms expected arrives there =
      let k = Keys.send_stall phone in
      let d = (arrive env s).db in
      let text = site.send_stall_json.stringify previous in
      let px = some (get_or ttl_ms send_stall_ttl_ms) in
      (
        ground (
          arith,
          laws.get-set d k k text px,
          eq_refl k,
          eq_refl expected,
          sound.send_stall_round previous,
          sound.send_stall_text previous,
          eq_iff text "",
        ),
        λ j other. ground (arith, laws.get-set d k j text px, eq_refl expected),
      )
