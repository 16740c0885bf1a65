-- ===== src/Webhooks/Schedule.antt =====
-- src/baileys/connection.ts (deliverToWebhook): how often a delivery posts, and how long it waits.
use baileys_api.Prelude.{
  ℕ, zero, suc, ◌+◌, ◌*◌, ◌≤◌, ◌≡◌, refl, true, false, arith, if◌then◌else◌, if_cases,
}
use baileys_api.Webhooks.{
  RetryPolicy, World, Outcome, delivered, abandoned, failed, Delivery, add_post, attempts,
  deliver_to_webhook,
}

-- The waits after the attempts from this one on: the delay is multiplied each time, and each wait
-- has its own jitter.
unfoldable pub waits : RetryPolicy → World → ℕ → ℕ → ℕ → ℕ
waits policy w zero attempt delay = 0
waits policy w (suc left) attempt delay =
    delay + w.jitter attempt + waits policy w left (attempt + 1) (delay * policy.backoff_factor)

-- What is said of a delivery whose outcome is this.
abbrev pub Ends : RetryPolicy → World → ℕ → ℕ → ℕ → Outcome → Delivery → Type 0
Ends policy w left attempt delay delivered d =
    (n : ℕ) × (d.posts ≡ n + 1)
    × (n ≤ left)
    × (w.is_ok (attempt + n) ≡ true)
    × (w.still_wanted (attempt + n) ≡ true)
    × (d.slept ≡ waits policy w n attempt delay)
Ends policy w left attempt delay abandoned d =
    (d.posts ≤ left)
    × (w.still_wanted (attempt + d.posts) ≡ false)
    × (d.slept ≡ waits policy w d.posts attempt delay)
Ends policy w left attempt delay failed d =
    (d.posts ≡ left + 1)
    × (d.slept ≡ waits policy w left attempt delay)
    × ((n : ℕ) → n ≤ left → w.is_ok (attempt + n) ≡ false)

module _ (policy : RetryPolicy) (w : World) where
  -- One attempt that is not ok, in front of the rest of a delivery.
  add_post-Ends :
      (left attempt delay : ℕ) (o : Outcome) (d : Delivery)
      → w.is_ok attempt ≡ false
      → Ends policy w left (attempt + 1) (delay * policy.backoff_factor) o d
      → Ends policy w (suc left) attempt delay o (add_post (delay + w.jitter attempt) d)
  unfolding waits
  add_post-Ends left attempt delay delivered d bad (n, p, b, ok, wanted, s) =
      let next : attempt + suc n ≡ attempt + 1 + n = omega arith in
      (suc n, omega (arith, p), omega (arith, b), rw next ok, rw next wanted, omega (arith, s))
  add_post-Ends left attempt delay abandoned d bad (b, stopped, s) =
      let next : attempt + suc d.posts ≡ attempt + 1 + d.posts = omega arith in
      (omega (arith, b), rw next stopped, omega (arith, s))
  add_post-Ends left attempt delay failed d bad (p, s, all) =
      (omega (arith, p), omega (arith, s), none_ok)
    where
      none_ok : (n : ℕ) → n ≤ suc left → w.is_ok (attempt + n) ≡ false
      none_ok zero h = let same : attempt + 0 ≡ attempt = omega arith in rw same bad
      none_ok (suc n) h =
          let next : attempt + suc n ≡ attempt + 1 + n = omega arith in
          rw next (all n (omega (arith, h)))

  attempts-Ends :
      (left attempt delay : ℕ)
      → Ends policy w left attempt delay
          (attempts policy w left attempt delay).outcome
          (attempts policy w left attempt delay)
  unfolding attempts waits
  attempts-Ends zero attempt delay =
      let P = λ (d : Delivery). Ends policy w 0 attempt delay d.outcome d in
      let first : attempt + 0 ≡ attempt = omega arith in
      let last : Delivery = record {
        outcome = if w.is_ok attempt then delivered else failed;
        posts = 1;
        slept = 0;
      } in
      if_cases P (w.still_wanted attempt) {x = last}
        {y = record { outcome = abandoned; posts = 0; slept = 0 }}
        (λ wanted.
          if_cases (λ (o : Outcome). Ends policy w 0 attempt delay o (record last { outcome = o }))
            (w.is_ok attempt) {x = delivered} {y = failed}
            (λ ok. (0, refl, omega arith, rw first ok, rw first wanted, refl))
            (λ bad. (refl, refl, λ n h. single n h bad)))
        (λ stopped. (omega arith, rw first stopped, refl))
    where
      single : (n : ℕ) → n ≤ 0 → w.is_ok attempt ≡ false → w.is_ok (attempt + n) ≡ false
      single n h bad = let same : attempt + n ≡ attempt = omega (arith, h) in rw same bad
  attempts-Ends (suc left) attempt delay =
      let P = λ (d : Delivery). Ends policy w (suc left) attempt delay d.outcome d in
      let first : attempt + 0 ≡ attempt = omega arith in
      let rest = attempts policy w left (attempt + 1) (delay * policy.backoff_factor) in
      let again = add_post (delay + w.jitter attempt) rest in
      let done : Delivery = record { outcome = delivered; posts = 1; slept = 0 } in
      if_cases P (w.still_wanted attempt) {x = if w.is_ok attempt then done else again}
        {y = record { outcome = abandoned; posts = 0; slept = 0 }}
        (λ wanted.
          if_cases P (w.is_ok attempt) {x = done} {y = again}
            (λ ok. (0, refl, omega arith, rw first ok, rw first wanted, refl))
            (λ bad.
              add_post-Ends left attempt delay rest.outcome rest bad
                (attempts-Ends left (attempt + 1) (delay * policy.backoff_factor))))
        (λ stopped. (omega arith, rw first stopped, refl))

  -- How every delivery ends. One that is delivered posted at most once more than there are retries,
  -- and its last attempt was wanted and was answered with success; one that is abandoned stopped at an
  -- attempt that was not wanted any more; and one that failed posted once more than there are retries,
  -- each time without success. In each case it slept after every post but the last, or after every
  -- post where it was abandoned, and each sleep is the delay, multiplied by the factor from one to
  -- the next, with its jitter.
  pub deliver_to_webhook-Ends :
      Ends policy w policy.max_retries 0 policy.retry_interval
        (deliver_to_webhook policy w).outcome
        (deliver_to_webhook policy w)
  unfolding deliver_to_webhook
  deliver_to_webhook-Ends = attempts-Ends policy.max_retries 0 policy.retry_interval
