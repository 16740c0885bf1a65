-- ===== src/Webhooks.antt =====
-- src/baileys/connection.ts (sendToWebhook, deliverToWebhook, sendPayloadToWebhook): one delivery to the
-- webhook, with its retries.
pub mod Schedule
mod Tests
use baileys_api.Prelude.{
  ℕ, zero, suc, ◌+◌, ◌*◌, String, Bool, true, false, Option, none, some, ◌==◌, if◌then◌else◌,
}

-- config.webhook.retryPolicy
pub record RetryPolicy : Type 0 where
  pub max_retries : ℕ
  pub retry_interval : ℕ
  pub backoff_factor : ℕ

-- What an attempt finds, by its number: `stillWanted`, whether the response is there and is ok, and
-- the jitter of the wait after it.
pub record World : Type 0 where
  pub still_wanted : ℕ → Bool
  pub is_ok : ℕ → Bool
  pub jitter : ℕ → ℕ

pub data Outcome : Type 0 where
  delivered abandoned failed : Outcome

-- How a delivery ends, what it posted, and how long it slept.
pub record Delivery : Type 0 where
  pub outcome : Outcome
  pub posts : ℕ
  pub slept : ℕ

abbrev pub add_post : ℕ → Delivery → Delivery
add_post wait d = record d { posts = suc d.posts; slept = d.slept + wait }

-- The loop from an attempt on, by the number of retries that are left.
unfoldable pub attempts : RetryPolicy → World → ℕ → ℕ → ℕ → Delivery
attempts policy w zero attempt delay =
    if w.still_wanted attempt
    then record { outcome = if w.is_ok attempt then delivered else failed; posts = 1; slept = 0 }
    else record { outcome = abandoned; posts = 0; slept = 0 }
attempts policy w (suc left) attempt delay =
    let rest = attempts policy w left (attempt + 1) (delay * policy.backoff_factor) in
    if w.still_wanted attempt
    then (if w.is_ok attempt
        then record { outcome = delivered; posts = 1; slept = 0 }
        else add_post (delay + w.jitter attempt) rest)
    else record { outcome = abandoned; posts = 0; slept = 0 }

unfoldable pub deliver_to_webhook : RetryPolicy → World → Delivery
unfolding attempts
deliver_to_webhook policy w = attempts policy w policy.max_retries 0 policy.retry_interval

-- A payload as far as sendToWebhook looks at it: its event, and the epoch that it carries.
pub record Payload : Type 0 where
  pub event : String
  pub epoch : Option ℕ

unfoldable pub enrich : Option ℕ → Payload → Payload
enrich none payload = payload
enrich (some lease_epoch) payload =
    if payload.event == "connection.update"
    then record payload { epoch = some lease_epoch }
    else payload
