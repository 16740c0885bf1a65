-- ===== src/Watchdog/Stall/Tests.antt =====
-- The theorems on handleSendStall for a stalled connection, while the server refuses every command.
use baileys_api.Prelude.{◌≡◌, List, true, none, some}
use baileys_api.Redis.Memory.{memory, empty}
use baileys_api.Sample.{site}
use baileys_api.Exec.{Env, State, ok, refused}
use baileys_api.Watchdog.Relay.{created}
use baileys_api.Watchdog.Stall.{Notice, Local, handle_send_stall}
use baileys_api.Watchdog.Stall.Verdict.{IsVerdict, handle_send_stall-returns}

abbrev down : Env memory Local
down = record {
  meanwhile = λ n s. s;
  delivery = λ n. refused;
  date_now = λ n. 100000;
  performance_now = λ n. 100000;
}

abbrev stalled : State memory Local
stalled = record {
  db = empty;
  local = record {
    watchdog = record (created 1000).watchdog {
      socket_generation = 1;
      has_socket = true;
      is_connected = true;
      consecutive_send_timeouts = 3;
      send_stall_streak_started_at = some 1000;
    };
    last_stall_restart_at = none;
  };
  turn = 0;
}

handle_send_stall-returns_example :
    (notices : List Notice) × ((handle_send_stall down (site "a") "5511" true 99000 stalled).0
      ≡ ok notices)
    × IsVerdict down
        (site "a")
        "5511"
        1
        99000
        notices
        (handle_send_stall down (site "a") "5511" true 99000 stalled).1
handle_send_stall-returns_example =
    handle_send_stall-returns down (site "a") "5511" true 99000 stalled
