-- ===== src/Proxy/Tests.antt =====
-- Proxied requests at concrete inputs: a phone whose cached route is out of date, and an unowned phone
-- whose only worker says that the request was misdirected and names no owner.
use baileys_api.Prelude.{String, ◌≡◌, false, none, some, List, [], ◌∷◌, refl, if◌then◌else◌, ◌==◌}
use baileys_api.Redis.Memory.{Memory, memory, empty}
use baileys_api.Sample.{site}
use baileys_api.Exec
use baileys_api.Exec.{Env, Exec, State, ok, quiet, call, pure}
use baileys_api.Cluster.Keys
use baileys_api.Cluster.LeaseStore.{get_lease}
use baileys_api.Cluster.InstanceRegistry.{get_instance, list_live_instances}
use baileys_api.Proxy.{Routes, Response, Request, forward_by_phone, resolve_phone_target}
use baileys_api.Proxy.Misdirected.{forward_by_phone-follows}
use baileys_api.Coordinator.State.{update}

abbrev phone : String
phone = "5511"

abbrev env : Env memory Routes
env = quiet 1000

-- "a" is registered.
abbrev staffed : Memory
staffed =
    memory.set empty (Keys.instance_key "a")
      ((site "a").instance_json.stringify (record {
        instance_id = "a";
        base_url = "http://a";
        connection_count = 0;
        draining = false;
        started_at = 0;
      }))
      (some 15000)

abbrev conflict : Response
conflict = record { status = 409; owner = none; retry_after = none; body = "taken" }

abbrev to_forwardable : Request → Exec memory Routes Request
to_forwardable request = pure request

abbrev fetch_worker : String → Request → Exec memory Routes Response
fetch_worker base_url request = pure conflict

abbrev instance_keys : Exec memory Routes (List String)
instance_keys = pure (Keys.instance_key "a" ∷ [])

abbrev request : Request
request = record { verb = "POST"; path = "/connections/5511" }

abbrev start : State memory Routes
start = record { db = staffed; local = record { cache = λ p. none }; turn = 0 }

answered :
    (forward_by_phone env
      (site "p")
      to_forwardable
      fetch_worker
      instance_keys
      phone
      request
      start).0
    ≡ ok conflict
unfolding forward_by_phone resolve_phone_target get_lease get_instance list_live_instances Exec.get
    call Keys.lease Keys.instance_key
answered = refl

-- The route of the phone is cached, and its worker names "a", which is the owner.
abbrev cached : State memory Routes
cached = record start {
  local = record {
    cache = update (λ p. none) phone (some (record { instance_id = "b"; base_url = "http://b" }));
  };
}

abbrev misdirected : Response
misdirected = record { status = 421; owner = some "a"; retry_after = none; body = "" }

abbrev accepted : Response
accepted = record { status = 200; owner = none; retry_after = none; body = "sent" }

abbrev answer : String → Request → Exec memory Routes Response
answer base_url sent = pure (if base_url == "http://a" then accepted else misdirected)

abbrev dropped : State memory Routes
dropped = record cached { local = record { cache = update cached.local.cache phone none } }

registered : get_instance env (site "p") "a" dropped ≡ (
  ok (
      some (record {
        instance_id = "a";
        base_url = "http://a";
        connection_count = 0;
        draining = false;
        started_at = 0;
      })),
  record dropped { turn = 1 },
)
unfolding get_instance Exec.get call Keys.instance_key
registered = refl

forward_by_phone-follows_example :
    forward_by_phone env (site "p") to_forwardable answer instance_keys phone request cached ≡ (
      ok accepted,
      record dropped {
        turn = 1;
        local = record {
          cache =
              update dropped.local.cache phone
                (some (record { instance_id = "a"; base_url = "http://a" }));
        };
      },
    )
forward_by_phone-follows_example =
    forward_by_phone-follows env (site "p") to_forwardable answer instance_keys phone request
      request (record { instance_id = "b"; base_url = "http://b" }) "a"
      (record {
        instance_id = "a";
        base_url = "http://a";
        connection_count = 0;
        draining = false;
        started_at = 0;
      })
      misdirected accepted cached cached cached (record dropped { turn = 1 })
      (record dropped { turn = 1 }) refl refl refl refl refl registered refl
