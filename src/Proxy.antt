-- ===== src/Proxy.antt =====
-- src/proxy/router.ts, src/proxy/routeCache.ts: how a proxy finds the worker of a phone, and sends a
-- request on.
pub mod Misdirected
pub mod Tests
use Prim.Native.String.{◌++◌}
use baileys_api.Prelude.{
  ℕ, String, Bool, true, false, Option, none, some, List, [], ◌∷◌, ◌==◌, ◌&&◌, ◌||◌, not, ltb, leb,
  eqb, if◌then◌else◌, truthy,
}
use baileys_api.Redis.{Redis}
use baileys_api.Exec
use baileys_api.Exec.{Env, Exec, pure, catch, ◌>>=◌, ◌>>◌}
use baileys_api.Cluster.Site.{Site, Lease, InstanceInfo}
use baileys_api.Cluster.LeaseStore.{get_lease}
use baileys_api.Cluster.InstanceRegistry.{get_instance, list_live_instances}
use baileys_api.Coordinator.State.{update}
use baileys_api.Coordinator.Claim.{filter}
use baileys_api.Coordinator.Rebalance.{least_loaded}

pub record RouteTarget : Type 0 where
  pub instance_id : String
  pub base_url : String

-- The LRU cache, as a map: what it drops on its own goes by in the environment.
pub record Routes : Type 0 where
  pub cache : String → Option RouteTarget

pub data PhoneResolution : Type 0 where
  owned : RouteTarget → PhoneResolution
  owner_dead : String → PhoneResolution
  unowned : PhoneResolution

-- `owner` is the header x-baileys-owner, `retry_after` the header of that name.
pub record Response : Type 0 where
  pub status : ℕ
  pub owner : Option String
  pub retry_after : Option String
  pub body : String

-- `path` is the decoded path of the URL.
pub record Request : Type 0 where
  pub verb : String
  pub path : String

abbrev pub service_unavailable : Response
service_unavailable = record {
  status = 503;
  owner = none;
  retry_after = some "5";
  body = "Connection owner is down, failover in progress";
}

abbrev pub no_workers : Response
no_workers = record {
  status = 503;
  owner = none;
  retry_after = some "5";
  body = "No live workers available";
}

abbrev pub gateway_timeout : Response
gateway_timeout = record {
  status = 504;
  owner = none;
  retry_after = none;
  body = "Connection owner did not respond";
}

abbrev pub not_found : Response
not_found = record {
  status = 404;
  owner = none;
  retry_after = none;
  body = "Phone number not connected";
}

-- The three PLACEMENT_SUFFIXES.
abbrev pub is_connect_post : String → Request → Bool
is_connect_post phone_number request =
    request.verb == "POST"
    && (request.path == ("/connections/" ++ phone_number)
        || (request.path == ("/connections/" ++ (phone_number ++ "/import-session"))
            || request.path == ("/connections/" ++ (phone_number ++ "/restart"))))

abbrev pub is_misdirected : ℕ → Bool
is_misdirected status = eqb status 421 || eqb status 409

-- `response.ok`
abbrev pub is_ok : ℕ → Bool
is_ok status = leb 200 status && ltb status 300

-- `fetch_worker` is forwardRequest, and `to_forwardable` buffers a request; `instance_keys` is the
-- scan of the registry.
module _ {r : Redis} (env : Env r Routes) (site : Site) {F : Type 0}
    (to_forwardable : Request → Exec r Routes F)
    (fetch_worker : String → F → Exec r Routes Response)
    (instance_keys : Exec r Routes (List String)) where
  abbrev pub set_cached_target : String → RouteTarget → Exec r Routes (Unit {0})
  set_cached_target phone target =
      Exec.modify (λ l. record l { cache = update l.cache phone (some target) })

  abbrev pub invalidate_target : String → Exec r Routes (Unit {0})
  invalidate_target phone = Exec.modify (λ l. record l { cache = update l.cache phone none })

  abbrev pub resolved : String → Lease → Option InstanceInfo → Exec r Routes PhoneResolution
  resolved phone_number lease none = pure (owner_dead lease.owner)
  resolved phone_number lease (some found) =
      let target : RouteTarget = record { instance_id = lease.owner; base_url = found.base_url } in
      set_cached_target phone_number target >> pure (owned target)

  abbrev pub resolve_lease : String → Option Lease → Exec r Routes PhoneResolution
  resolve_lease phone_number none = pure unowned
  resolve_lease phone_number (some lease) =
      get_instance env site lease.owner >>= resolved phone_number lease

  abbrev pub resolve_cached : String → Option RouteTarget → Exec r Routes PhoneResolution
  resolve_cached phone_number (some target) = pure (owned target)
  resolve_cached phone_number none = get_lease env site phone_number >>= resolve_lease phone_number

  unfoldable pub resolve_phone_target : String → Exec r Routes PhoneResolution
  resolve_phone_target phone_number = do
    found ← Exec.gets (λ l. l.cache phone_number)
    resolve_cached phone_number found

  abbrev pub least_of : List InstanceInfo → Option RouteTarget
  least_of [] = none
  least_of (i ∷ eligible) =
      let least = least_loaded i eligible in
      some (record { instance_id = least.instance_id; base_url = least.base_url })

  unfoldable pub pick_least_loaded_worker : Exec r Routes (Option RouteTarget)
  pick_least_loaded_worker = do
    keys ← instance_keys
    instances ← list_live_instances env site keys
    pure (least_of (filter (λ (i : InstanceInfo). not i.draining) instances))

  abbrev pub unanswered : Option InstanceInfo → Response
  unanswered none = service_unavailable
  unanswered (some i) = gateway_timeout

  unfoldable pub send_to_target : RouteTarget → F → String → Exec r Routes Response
  send_to_target target request phone_number =
      catch (fetch_worker target.base_url request) (λ error. do
        if phone_number == "" then pure tt else invalidate_target phone_number
        still_registered ← catch (get_instance env site target.instance_id) (λ e. pure none)
        pure (unanswered still_registered))

  -- From the second response on.
  abbrev pub settle_retry : String → RouteTarget → Response → Exec r Routes Response
  settle_retry phone_number target retried =
      if is_misdirected retried.status then pure service_unavailable else do
        if is_ok retried.status then set_cached_target phone_number target else pure tt
        pure retried

  abbrev pub retry_at : String → F → String → Option InstanceInfo → Exec r Routes Response
  retry_at phone_number request owner none = pure service_unavailable
  retry_at phone_number request owner (some found) =
      let target : RouteTarget = record { instance_id = owner; base_url = found.base_url } in
      send_to_target target request phone_number >>= settle_retry phone_number target

  abbrev pub follow_owner : String → F → Response → Option String → Exec r Routes Response
  follow_owner phone_number request response none = pure response
  follow_owner phone_number request response (some owner) = do
    found ← catch (get_instance env site owner) (λ e. pure none)
    retry_at phone_number request owner found

  -- From the first response on.
  abbrev pub settle_first : String → F → Response → Exec r Routes Response
  settle_first phone_number request response =
      if is_misdirected response.status
      then invalidate_target phone_number
        >> follow_owner phone_number request response (truthy response.owner)
      else pure response

  unfoldable pub send_first : String → Request → RouteTarget → Exec r Routes Response
  unfolding send_to_target
  send_first phone_number raw_request target = do
    request ← to_forwardable raw_request
    response ← send_to_target target request phone_number
    settle_first phone_number request response

  abbrev pub place_at : String → Request → Option RouteTarget → Exec r Routes Response
  place_at phone_number raw_request none = pure no_workers
  place_at phone_number raw_request (some target) = send_first phone_number raw_request target

  unfoldable pub place : String → Request → Exec r Routes Response
  unfolding pick_least_loaded_worker send_first
  place phone_number raw_request = do
    target ← pick_least_loaded_worker
    place_at phone_number raw_request target

  abbrev pub route : String → Request → PhoneResolution → Exec r Routes Response
  route phone_number raw_request (owned target) = send_first phone_number raw_request target
  route phone_number raw_request (owner_dead id) =
      invalidate_target phone_number
      >> (if is_connect_post phone_number raw_request
          then place phone_number raw_request
          else pure service_unavailable)
  route phone_number raw_request unowned =
      if is_connect_post phone_number raw_request
      then place phone_number raw_request
      else pure not_found

  unfoldable pub forward_by_phone : String → Request → Exec r Routes Response
  unfolding resolve_phone_target place
  forward_by_phone phone_number raw_request = do
    resolution ← resolve_phone_target phone_number
    route phone_number raw_request resolution
