-- ===== src/Proxy/Misdirected.antt =====
-- src/proxy/router.ts: what a client sees of the misdirection of its request.
use baileys_api.Prelude.{
  String, ◌≡◌, Bool, true, false, Option, none, some, List, arith, refl, if◌then◌else◌, truthy, ap,
  ◌∙◌, sym, Bool-cases, inl, inr,
}
use baileys_api.Redis.{Redis}
use baileys_api.Exec.{Env, Exec, State, ok, pure, catch, ◌>>=◌}
use baileys_api.Exec.Steps.{>>=-inv}
use baileys_api.Cluster.Site.{Site, InstanceInfo}
use baileys_api.Cluster.InstanceRegistry.{get_instance}
use baileys_api.Proxy.{
  RouteTarget, Routes, PhoneResolution, owned, owner_dead, unowned, Response, Request,
  is_misdirected, is_connect_post, settle_retry, retry_at, follow_owner, settle_first,
  send_to_target, send_first, place, place_at, route, forward_by_phone, resolve_phone_target,
  pick_least_loaded_worker, service_unavailable, not_found, is_ok,
}
use baileys_api.Coordinator.State.{update}

-- A response that points at no owner, if it says that the request was misdirected.
abbrev pub IsFinal : Response → Type 0
IsFinal response = is_misdirected response.status ≡ true → truthy response.owner ≡ none

module _ {r : Redis} where
  abbrev IsAnswering : Exec r Routes Response → Type 0
  IsAnswering m =
      (t : State r Routes) (response : Response) → (m t).0 ≡ ok response → IsFinal response

  answer-IsAnswering : (a : Response) → IsFinal a → IsAnswering (pure a)
  answer-IsAnswering a final t response h misdirected =
      let same : a ≡ response = ground arith in
      ap (λ (x : Response). truthy x.owner) (sym same)
      ∙ final (ap (λ (x : Response). is_misdirected x.status) same ∙ misdirected)

  after-IsAnswering :
      {A : Type 0} (m : Exec r Routes A) (f : A → Exec r Routes Response)
      → ((a : A) → IsAnswering (f a))
      → IsAnswering (m >>= f)
  after-IsAnswering m f rest t response h =
      let (a, done, k, step) = >>=-inv m f t h in rest a (m t).1 response k

  if-IsAnswering :
      (b : Bool) (m k : Exec r Routes Response)
      → (b ≡ true → IsAnswering m)
      → (b ≡ false → IsAnswering k)
      → IsAnswering (if b then m else k)
  if-IsAnswering true m k first second = first refl
  if-IsAnswering false m k first second = second refl

  plain-IsAnswering : (a : Response) → is_misdirected a.status ≡ false → IsAnswering (pure a)
  plain-IsAnswering a plain = answer-IsAnswering a (λ misdirected. ground (arith, plain))

module _ {r : Redis} (env : Env r Routes) (site : Site) {F : Type 0}
    (to_forwardable : Request → Exec r Routes F)
    (fetch_worker : String → F → Exec r Routes Response)
    (instance_keys : Exec r Routes (List String)) (phone_number : String) where
  settle_retry-IsAnswering :
      (target : RouteTarget) (retried : Response)
      → IsAnswering (
          settle_retry env site to_forwardable fetch_worker instance_keys phone_number target
            retried)
  settle_retry-IsAnswering target retried =
      if-IsAnswering (is_misdirected retried.status) _ _ (λ misdirected. plain-IsAnswering _ refl)
        (λ plain. after-IsAnswering _ _ (λ u. plain-IsAnswering retried plain))

  retry_at-IsAnswering :
      (request : F) (owner : String) (found : Option InstanceInfo)
      → IsAnswering (
          retry_at env site to_forwardable fetch_worker instance_keys phone_number request owner
            found)
  retry_at-IsAnswering request owner none = plain-IsAnswering _ refl
  retry_at-IsAnswering request owner (some found) =
      let target : RouteTarget = record { instance_id = owner; base_url = found.base_url } in
      after-IsAnswering
        (send_to_target env site to_forwardable fetch_worker instance_keys target request
          phone_number)
        (settle_retry env site to_forwardable fetch_worker instance_keys phone_number target)
        (settle_retry-IsAnswering target)

  follow_owner-IsAnswering :
      (request : F) (response : Response) (owner : Option String)
      → truthy response.owner ≡ owner
      → IsAnswering (
          follow_owner env site to_forwardable fetch_worker instance_keys phone_number request
            response owner)
  follow_owner-IsAnswering request response none e = answer-IsAnswering response (λ misdirected. e)
  follow_owner-IsAnswering request response (some owner) e =
      after-IsAnswering (catch (get_instance env site owner) (λ e. pure none)) _
        (λ found. retry_at-IsAnswering request owner found)

  settle_first-IsAnswering :
      (request : F) (response : Response)
      → IsAnswering (
          settle_first env site to_forwardable fetch_worker instance_keys phone_number request
            response)
  settle_first-IsAnswering request response =
      if-IsAnswering (is_misdirected response.status) _ _
        (λ misdirected t answer h.
          follow_owner-IsAnswering request response (truthy response.owner) refl _ answer h)
        (λ plain. plain-IsAnswering response plain)

  send_first-IsAnswering :
      (raw_request : Request) (target : RouteTarget)
      → IsAnswering (
          send_first env site to_forwardable fetch_worker instance_keys phone_number raw_request
            target)
  unfolding send_first
  send_first-IsAnswering raw_request target =
      after-IsAnswering (to_forwardable raw_request) _ (λ request.
        after-IsAnswering
          (send_to_target env site to_forwardable fetch_worker instance_keys target request
            phone_number)
          _ (λ response. settle_first-IsAnswering request response))

  place_at-IsAnswering :
      (raw_request : Request) (target : Option RouteTarget)
      → IsAnswering (
          place_at env site to_forwardable fetch_worker instance_keys phone_number raw_request
            target)
  place_at-IsAnswering raw_request none = plain-IsAnswering _ refl
  place_at-IsAnswering raw_request (some target) = send_first-IsAnswering raw_request target

  place-IsAnswering :
      (raw_request : Request)
      → IsAnswering
          (place env site to_forwardable fetch_worker instance_keys phone_number raw_request)
  unfolding place
  place-IsAnswering raw_request =
      after-IsAnswering
        (pick_least_loaded_worker env site to_forwardable fetch_worker instance_keys) _
        (λ target. place_at-IsAnswering raw_request target)

  route-IsAnswering :
      (raw_request : Request) (resolution : PhoneResolution)
      → IsAnswering (
          route env site to_forwardable fetch_worker instance_keys phone_number raw_request
            resolution)
  route-IsAnswering raw_request (owned target) t answer h =
      send_first-IsAnswering raw_request target t answer h
  route-IsAnswering raw_request (owner_dead id) t answer h =
      if-IsAnswering (is_connect_post phone_number raw_request) _ _
        (λ post. place-IsAnswering raw_request)
        (λ other. plain-IsAnswering service_unavailable refl) _ answer h
  route-IsAnswering raw_request unowned t answer h =
      if-IsAnswering (is_connect_post phone_number raw_request) _ _
        (λ post. place-IsAnswering raw_request) (λ other. plain-IsAnswering not_found refl) t answer
        h

  -- Whatever the workers answer and however the calls end, a client that gets an answer of 421 or 409
  -- gets one that names no owner.
  pub forward_by_phone-IsFinal :
      (raw_request : Request) (s : State r Routes) (response : Response)
      → (forward_by_phone env site to_forwardable fetch_worker instance_keys phone_number
          raw_request s).0
        ≡ ok response
      → is_misdirected response.status ≡ true
      → truthy response.owner ≡ none
  unfolding forward_by_phone
  forward_by_phone-IsFinal raw_request s response h misdirected =
      after-IsAnswering
        (resolve_phone_target env site to_forwardable fetch_worker instance_keys phone_number) _
        (λ resolution. route-IsAnswering raw_request resolution) s response h misdirected

  abbrev pub with_route : Option RouteTarget → State r Routes → State r Routes
  with_route target s = record s {
    local = record s.local { cache = update s.local.cache phone_number target };
  }

  -- A request for a phone whose route is cached, which the worker of that route answers with 421 or
  -- 409 and the name of an owner that is registered, and which that owner answers too: the same
  -- request goes to the owner, and nowhere else, after the cached route is dropped. A second 421 or
  -- 409 becomes the 503 that asks for a retry; any other answer is the client's, and one that is ok
  -- caches the owner as the route.
  pub forward_by_phone-follows :
      (raw_request : Request) (request : F) (target : RouteTarget) (owner : String)
      (found : InstanceInfo) (response retried : Response) (s s1 s2 s3 s4 : State r Routes)
      → s.local.cache phone_number ≡ some target
      → to_forwardable raw_request s ≡ (ok request, s1)
      → fetch_worker target.base_url request s1 ≡ (ok response, s2)
      → is_misdirected response.status ≡ true
      → truthy response.owner ≡ some owner
      → get_instance env site owner (with_route none s2) ≡ (ok (some found), s3)
      → fetch_worker found.base_url request s3 ≡ (ok retried, s4)
      → forward_by_phone env site to_forwardable fetch_worker instance_keys phone_number raw_request
          s
        ≡ (if is_misdirected retried.status then (ok service_unavailable, s4) else (
          ok retried,
          if is_ok retried.status
              then with_route (some (record { instance_id = owner; base_url = found.base_url })) s4
              else s4,
        ))
  unfolding forward_by_phone resolve_phone_target send_first send_to_target
  forward_by_phone-follows raw_request request target owner found response retried s s1 s2 s3 s4
        cached buffered first misdirected named registered second =
      elim (Bool-cases (is_misdirected retried.status)) [
        | inl m ↦ rw (cached, buffered, first, misdirected, named, registered, second, m) refl
        | inr m ↦ elim (Bool-cases (is_ok retried.status)) [
          | inl k ↦ rw (cached, buffered, first, misdirected, named, registered, second, m, k) refl
          | inr k ↦ rw (cached, buffered, first, misdirected, named, registered, second, m, k) refl
        ]
      ]
