-- ===== src/Webhooks/Tests.antt =====
-- The theorem on deliveries for a webhook that answers the third attempt.
use baileys_api.Prelude.{true, eqb}
use baileys_api.Webhooks.{RetryPolicy, World, deliver_to_webhook}
use baileys_api.Webhooks.Schedule.{Ends, deliver_to_webhook-Ends}

abbrev policy : RetryPolicy
policy = record { max_retries = 3; retry_interval = 5000; backoff_factor = 3 }

abbrev third : World
third = record { still_wanted = λ n. true; is_ok = λ n. eqb n 2; jitter = λ n. 10 }

deliver_to_webhook-Ends_example :
    Ends policy third 3 0 5000
      (deliver_to_webhook policy third).outcome
      (deliver_to_webhook policy third)
deliver_to_webhook-Ends_example = deliver_to_webhook-Ends policy third
