-- ===== src/Cluster/InstanceRegistry/Routing.antt =====
-- src/cluster/workerRouting.ts: when a worker turns a request away, and to whom.
use baileys_api.Prelude.{
  String, ◌≡◌, ◌≢◌, Option, none, some, eq_iff, arith, refl, Option-cases, inl, inr,
}
use baileys_api.Redis.{Redis}
use baileys_api.Exec
use baileys_api.Exec.{
  Env, Exec, State, ok, throw, call, arrive, delivered, present, Result, pure, ◌>>=◌,
}
use baileys_api.Exec.Steps.{>>=-inv}
use baileys_api.Cluster.Keys
use baileys_api.Cluster.Site.{Site, Lease}
use baileys_api.Cluster.LeaseStore.{get_lease}
use baileys_api.Cluster.LeaseStore.Ownership.{lease_in}
use baileys_api.Cluster.InstanceRegistry.{
  resolve_misdirected_request, live_owner_elsewhere, is_instance_alive,
}

module _ {r : Redis} {L : Type 0} (env : Env r L) (site : Site) (phone : String)
    (s : State r L) where
  pub get_lease-some :
      {lease : Lease}
      → (get_lease env site phone s).0 ≡ ok (some lease)
      → (lease_in r site (arrive env s).db phone ≡ some lease)
        × ((get_lease env site phone s).1 ≡ arrive env s)
  unfolding get_lease Exec.get call
  get_lease-some {lease} h = elim (Option-cases (r.get (arrive env s).db (Keys.lease phone))) [
    | inl gone ↦ ground (arith, gone)
    | inr (raw, there) ↦ (ground (arith, there), ground (arith, there))
  ]

module _ {r : Redis} {L : Type 0} (env : Env r L) (site : Site) (t : State r L) where
  pub live_owner_elsewhere-some :
      (o : Option Lease) (owner : String)
      → (live_owner_elsewhere env site o t).0 ≡ ok (some owner)
      → (lease : Lease) × (o ≡ some lease)
        × (lease.owner ≡ owner)
        × (owner ≢ site.instance_id)
        × (r.get (arrive env t).db (Keys.instance_key owner) ≢ none)
  unfolding live_owner_elsewhere is_instance_alive Exec.exists call
  live_owner_elsewhere-some none owner h = cc
  live_owner_elsewhere-some (some lease) owner h =
      (lease, refl, ground arith, ground (arith, eq_iff lease.owner site.instance_id), ground arith)

module _ {r : Redis} {L : Type 0} (env : Env r L) (site : Site) (phone : String)
    (s : State r L) where
  elsewhere :
      (owner : String) (o : Option Lease)
      → (get_lease env site phone s).0 ≡ ok o
      → (live_owner_elsewhere env site o (get_lease env site phone s).1).0 ≡ ok (some owner)
      → (owner ≢ site.instance_id)
        × ((lease : Lease) × (lease_in r site (arrive env s).db phone ≡ some lease)
            × (lease.owner ≡ owner))
        × (r.get (arrive env (arrive env s)).db (Keys.instance_key owner) ≢ none)
  elsewhere owner o read asked =
      let (lease, is_lease, owned, other, alive) =
        live_owner_elsewhere-some env site (get_lease env site phone s).1 o owner asked in
      let (held, same) = get_lease-some env site phone s {lease = lease} (rw is_lease at read) in
      (other, (lease, held, owned), rw same at alive)

  -- A worker turns a request away only in favour of another instance that held the phone's lease
  -- when the lease was read and was registered as alive when that was asked after.
  pub resolve_misdirected_request-elsewhere :
      (owner : String)
      → (resolve_misdirected_request env site phone s).0 ≡ ok (some owner)
      → (owner ≢ site.instance_id)
        × ((lease : Lease) × (lease_in r site (arrive env s).db phone ≡ some lease)
            × (lease.owner ≡ owner))
        × (r.get (arrive env (arrive env s)).db (Keys.instance_key owner) ≢ none)
  unfolding resolve_misdirected_request
  resolve_misdirected_request-elsewhere owner h =
      let lookup : Exec r L (Option String) =
        get_lease env site phone >>= live_owner_elsewhere env site in
      let found : (lookup s).0 ≡ ok (some owner) = ground arith in
      let (o, read, asked, step) =
        >>=-inv (get_lease env site phone) (live_owner_elsewhere env site) s found in
      elsewhere owner o read asked
