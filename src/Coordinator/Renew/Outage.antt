-- ===== src/Coordinator/Renew/Outage.antt =====
-- src/cluster/coordinator.ts: the background work while Redis cannot be reached.
use baileys_api.Prelude.{String, ◌≡◌, ◌≢◌, true, false, some, List, [], ◌∷◌, arith, refl}
use baileys_api.Redis.{Redis}
use baileys_api.Exec
use baileys_api.Exec.{Env, Exec, State, Result, ok, throw, refused, delivered, call, arrive}
use baileys_api.Cluster.Site.{Site, Lease}
use baileys_api.Cluster.LeaseStore.{renew_lease}
use baileys_api.Cluster.Keys
use baileys_api.Cluster.LeaseStore.Ownership.{lease_in, renew_reply-other}
use baileys_api.Coordinator.State.{Node, Handler}
use baileys_api.Coordinator.{ignore, forget}
use baileys_api.Coordinator.Renew.{
  renew_phone, renew_phones, probe, run_renew_cycle, run_heartbeat, hand_off, hand_off_all,
  shutdown, set_degraded, yield_phone, renew_or_probe, leave, sort, by_traffic,
}

module _ {r : Redis} {H : Type 0} (env : Env r (Node H)) (site : Site) (handler : Handler r H) where
  -- If the first renewal of a cycle is refused, the cycle ends there with claims paused, and this
  -- process closes no socket, forgets no epoch and writes nothing.
  pub run_renew_cycle-refused :
      (s : State r (Node H)) {phone : String} {phones : List String}
      → handler.active_phone_numbers s.local.handler ≡ phone ∷ phones
      → env.delivery s.turn ≡ refused
      → run_renew_cycle env site handler s ≡ (
        ok tt,
        record (arrive env s) {
          local = record (arrive env s).local {
            coordinator = set_degraded true (arrive env s).local.coordinator;
          };
        },
      )
  unfolding run_renew_cycle renew_lease call
  run_renew_cycle-refused s active down = ground arith

  renew_phones-ok :
      (phones : List String) (s : State r (Node H))
      → (renew_phones env site handler phones s).0 ≡ ok tt
  unfolding renew_phones
  renew_phones-ok [] s = refl
  renew_phones-ok (phone ∷ phones) s =
      ground (arith, renew_phones-ok phones (renew_phone env site handler phone s).1)

  probe-ok : (s : State r (Node H)) → (probe env site handler s).0 ≡ ok tt
  unfolding probe Exec.ping call
  probe-ok s = ground arith

  hand_off_all-ok :
      (phones : List String) (s : State r (Node H))
      → (hand_off_all env site handler phones s).0 ≡ ok tt
  unfolding hand_off_all
  hand_off_all-ok [] s = refl
  hand_off_all-ok (phone ∷ phones) s =
      ground (arith, hand_off_all-ok phones (ignore (hand_off env site handler phone) s).1)

  renew_or_probe-ok :
      (phones : List String) (s : State r (Node H))
      → (renew_or_probe env site handler phones s).0 ≡ ok tt
  unfolding renew_or_probe
  renew_or_probe-ok [] s = probe-ok s
  renew_or_probe-ok (phone ∷ phones) s = renew_phones-ok (phone ∷ phones) s

  run_heartbeat-ok : (s : State r (Node H)) → (run_heartbeat env site handler s).0 ≡ ok tt
  unfolding run_heartbeat
  run_heartbeat-ok s = ground arith

  hand_off_list : Node H → List String
  hand_off_list n =
      sort (by_traffic env site handler n.handler) (handler.active_phone_numbers n.handler)

  leave-ok : (s : State r (Node H)) → (leave env site handler s).0 ≡ ok tt
  unfolding leave hand_off_list
  leave-ok s =
      let t : State r (Node H) = record s {
        local = record s.local {
          coordinator = record s.local.coordinator { draining = true; running = false };
        };
      } in
      let u = (run_heartbeat env site handler t).1 in
      rw (run_heartbeat-ok t, hand_off_all-ok (hand_off_list u.local) u) (ground arith)

  -- However the calls end and whatever runs before them, the renew cycle, the heartbeat and the
  -- shutdown raise no error.
  pub background_total :
      (s : State r (Node H))
      → ((run_renew_cycle env site handler s).0 ≡ ok tt)
        × ((run_heartbeat env site handler s).0 ≡ ok tt)
        × ((shutdown env site handler s).0 ≡ ok tt)
  unfolding run_renew_cycle shutdown
  background_total s = (
    renew_or_probe-ok (handler.active_phone_numbers s.local.handler) s,
    run_heartbeat-ok s,
    ground (arith, leave-ok s),
  )

  -- A renewal that arrives and finds the lease with another owner closes the socket: the epoch and
  -- the claim are forgotten, and then the connection is discarded, whatever comes of that.
  pub renew_phone-lost :
      (s : State r (Node H)) (phone : String) {lease : Lease}
      → env.delivery s.turn ≡ delivered
      → lease_in r site (arrive env s).db phone ≡ some lease
      → lease.owner ≢ site.instance_id
      → renew_phone env site handler phone s
        ≡ ignore (handler.discard_connection phone) (record (arrive env s) {
          local = record (arrive env s).local {
            coordinator = forget phone (arrive env s).local.coordinator;
          };
        })
  unfolding renew_phone yield_phone renew_lease call
  renew_phone-lost s phone {lease} arrives held other = ground (
    arith,
    arrives,
    renew_reply-other site (r.get (arrive env s).db (Keys.lease phone)) lease held other,
  )
