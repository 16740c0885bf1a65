-- ===== src/Sample.antt =====
-- Formats that meet what is asked of JSON, and the site of an instance that uses them, for the
-- concrete inputs at which the theorems are applied: numbers in binary, texts character by character.
use Prim.Native.Nat.{compare, Ordering}
use Prim.Native.Char.{Char, code}
use baileys_api.Prelude.{
  ℕ, zero, suc, ◌+◌, ◌*◌, ◌-◌, ◌/◌, ◌%◌, ◌≤◌, String, ◌≡◌, ◌≢◌, ◌==◌, eq_iff, Bool, true, false,
  Option, none, some, eqb, if◌then◌else◌, refl, arith, ◌∙◌, sym, ap,
}
use baileys_api.Json.{Codec, RoundTrips}
use baileys_api.Cluster.Site.{
  worker, ClusterConfig, Lease, QuarantineState, SendStallState, InstanceInfo, Site, IsSite,
}

-- A value in front of a text, and what is read back with the rest.
pub record Format (A : Type 0) : Type 0 where
  pub put : A → String → String
  pub read : String → Option (A × String)
  pub round : (a : A) (t : String) → read (put a t) ≡ some (a, t)
  pub filled : read "" ≡ none

-- The binary digits of a number, the lowest first, by the digits that may follow.
abbrev pub put_digits : ℕ → ℕ → String → String
put_digits zero n t = String.◌∷◌ "." t
put_digits (suc fuel) n t = elim (compare n 0) [
  | Ordering.eq ↦ String.◌∷◌ "." t
  | _ ↦
      let rest = put_digits fuel (n / 2) t in
      if eqb (n % 2) 0 then String.◌∷◌ "0" rest else String.◌∷◌ "1" rest
]

abbrev pub put_number : ℕ → String → String
put_number n t = put_digits n n t

abbrev pub add_digit : ℕ → Option (ℕ × String) → Option (ℕ × String)
add_digit d none = none
add_digit d (some (n, t)) = some (2 * n + d, t)

abbrev pub read_number : String → Option (ℕ × String)
read_number String.[] = none
read_number (String.◌∷◌ c s) =
    if eqb (code c) b'.' then some (0, s) else add_digit (code c - b'0') (read_number s)

digits_round :
    (fuel n : ℕ) (t : String) → n ≤ fuel → read_number (put_digits fuel n t) ≡ some (n, t)
digits_round zero n t h = ground arith
digits_round (suc fuel) n t h = ground (arith, digits_round fuel (n / 2) t (omega arith))

pub number_round : (n : ℕ) (t : String) → read_number (put_number n t) ≡ some (n, t)
number_round n t = digits_round n n t (omega arith)

abbrev pub put_text : String → String → String
put_text String.[] t = String.◌∷◌ "." t
put_text (String.◌∷◌ c s) t = String.◌∷◌ "x" (String.◌∷◌ c (put_text s t))

abbrev pub one_longer : Char → Option (String × String) → Option (String × String)
one_longer c none = none
one_longer c (some (s, t)) = some (String.◌∷◌ c s, t)

abbrev pub read_text : String → Option (String × String)
read_text String.[] = none
read_text (String.◌∷◌ d String.[]) = if eqb (code d) b'x' then none else some (String.[], String.[])
read_text (String.◌∷◌ d (String.◌∷◌ c s)) =
    if eqb (code d) b'x' then one_longer c (read_text s) else some (String.[], String.◌∷◌ c s)

pub text_round : (s t : String) → read_text (put_text s t) ≡ some (s, t)
text_round String.[] String.[] = refl
text_round String.[] (String.◌∷◌ c t) = refl
text_round (String.◌∷◌ c s) t = ground (arith, text_round s t)

abbrev pub number : Format ℕ
number = record { put = put_number; read = read_number; round = number_round; filled = refl }

abbrev pub text : Format String
text = record { put = put_text; read = read_text; round = text_round; filled = refl }

-- One value after another.
abbrev pub and_then : {A B : Type 0} → A → Option (B × String) → Option ((A × B) × String)
and_then x none = none
and_then x (some (y, u)) = some ((x, y), u)

abbrev pub then_read : {A B : Type 0} → Format B → Option (A × String) → Option ((A × B) × String)
then_read b none = none
then_read b (some (x, t)) = and_then x (b.read t)

abbrev pub both : {A B : Type 0} → Format A → Format B → Format (A × B)
both a b = record {
  put = λ p t. a.put p.0 (b.put p.1 t);
  read = λ t. then_read b (a.read t);
  round = λ p t. rw (a.round p.0 (b.put p.1 t)) (ap (and_then p.0) (b.round p.1 t));
  filled = rw a.filled refl;
}

abbrev pub parsed : {A B : Type 0} → (A → B) → Option (A × String) → Option B
parsed f none = none
parsed f (some (a, t)) = some (f a)

-- A type whose values are those of a format.
abbrev pub codec : {A B : Type 0} → Format A → (B → A) → (A → B) → Codec B
codec format from to = record {
  stringify = λ b. format.put (from b) "";
  parse = λ t. parsed to (format.read t);
}

pub codec-RoundTrips :
    {A B : Type 0} (format : Format A) (from : B → A) (to : A → B)
    → ((b : B) → to (from b) ≡ b)
    → RoundTrips (codec format from to)
codec-RoundTrips format from to same b = rw (format.round (from b) "") (ap some (same b))

codec-filled :
    {A B : Type 0} (format : Format A) (from : B → A) (to : A → B) (b : B)
    → (codec format from to).stringify b ≢ ""
codec-filled format from to b empty =
    let impossible : none ≡ some (from b, "") =
      sym format.filled ∙ ap format.read (sym empty) ∙ format.round (from b) "" in
    ground (arith, impossible)

abbrev pub flag : ℕ → Bool
flag zero = false
flag (suc n) = true

abbrev pub unflag : Bool → ℕ
unflag false = 0
unflag true = 1

flag-unflag : (b : Bool) → flag (unflag b) ≡ b
flag-unflag false = refl
flag-unflag true = refl

abbrev pub of_lease : Lease → ℕ × String
of_lease lease = (lease.epoch, lease.owner)

abbrev pub to_lease : ℕ × String → Lease
to_lease (epoch, owner) = record { owner = owner; epoch = epoch }

abbrev pub of_quarantine : QuarantineState → ℕ × ℕ
of_quarantine state = (state.strikes, state.next_retry_at)

abbrev pub to_quarantine : ℕ × ℕ → QuarantineState
to_quarantine (strikes, at) = record { strikes = strikes; next_retry_at = at }

abbrev pub of_stall : SendStallState → ℕ × ℕ
of_stall state = (state.restarts, state.next_restart_allowed_at)

abbrev pub to_stall : ℕ × ℕ → SendStallState
to_stall (restarts, at) = record { restarts = restarts; next_restart_allowed_at = at }

abbrev pub of_instance : InstanceInfo → (ℕ × ℕ) × (ℕ × (String × String))
of_instance i =
    ((i.connection_count, i.started_at), (unflag i.draining, (i.instance_id, i.base_url)))

abbrev pub to_instance : (ℕ × ℕ) × (ℕ × (String × String)) → InstanceInfo
to_instance ((count, at), (draining, (id, url))) = record {
  instance_id = id;
  base_url = url;
  connection_count = count;
  draining = flag draining;
  started_at = at;
}

to_instance-of_instance : (i : InstanceInfo) → to_instance (of_instance i) ≡ i
to_instance-of_instance i = ap (λ (b : Bool). record i { draining = b }) (flag-unflag i.draining)

abbrev pub config : ClusterConfig
config = record {
  role = worker;
  lease_ttl_ms = 30000;
  lease_renew_interval_ms = 10000;
  claim_interval_ms = 5000;
  claim_jitter_ms = 2000;
  reconnect_concurrency = 5;
  unclaimed_grace_ms = 60000;
  release_cooldown_ms = 60000;
  rebalance_enabled = true;
  rebalance_release_interval_ms = 10000;
  rebalance_tolerance = 1;
  rebalance_idle_threshold_ms = 60000;
  heartbeat_interval_ms = 5000;
  instance_ttl_ms = 15000;
  shutdown_timeout_ms = 20000;
  quarantine_enabled = true;
  quarantine_base_ms = 60000;
  quarantine_max_ms = 3600000;
}

-- An instance of that name.
abbrev pub site : String → Site
site id = record {
  instance_id = id;
  incarnation_id = "1";
  worker_base_url = "http://worker";
  started_at = 0;
  config = config;
  lease_json = codec (both number text) of_lease to_lease;
  quarantine_json = codec (both number number) of_quarantine to_quarantine;
  send_stall_json = codec (both number number) of_stall to_stall;
  instance_json =
      codec (both (both number number) (both number (both text text))) of_instance to_instance;
}

pub site-IsSite : (id : String) → IsSite (site id)
site-IsSite id = record {
  lease_round = codec-RoundTrips (both number text) of_lease to_lease (λ b. refl);
  quarantine_round = codec-RoundTrips (both number number) of_quarantine to_quarantine (λ b. refl);
  send_stall_round = codec-RoundTrips (both number number) of_stall to_stall (λ b. refl);
  instance_round =
      codec-RoundTrips (both (both number number) (both number (both text text))) of_instance
        to_instance to_instance-of_instance;
  lease_text = codec-filled (both number text) of_lease to_lease;
  quarantine_text = codec-filled (both number number) of_quarantine to_quarantine;
  send_stall_text = codec-filled (both number number) of_stall to_stall;
  instance_text =
      codec-filled (both (both number number) (both number (both text text))) of_instance
        to_instance;
}

pub texts_differ : {s t : String} → (s == t) ≡ false → s ≢ t
texts_differ {s} {t} h e = ground (arith, eq_iff s t)

pub not_none : {A : Type 0} {a : A} → some a ≢ none
not_none e = cc
