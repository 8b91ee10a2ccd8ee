-- ===== src/Examples/Running.antt =====
-- The consumer's loop, the connection and the shutdown: internal/transport/kafka/consumer.go,
-- internal/app/helpers.go and internal/app/runner.go.
use service_courier_platform.Prelude.{
  ◌≡◌, refl, pos, String, eqb, List, [], ◌∷◌, none, some, if◌then◌else◌,
}
use service_courier_platform.Errors.{ok, err, text, sentinel, canceled}
use service_courier_platform.Kafka.Consumer.{Round, run, stopped, Ended, run-Ended}
use service_courier_platform.App.{Attempts, connect_db_with_retry}
use service_courier_platform.App.Connecting.{Run, connect_db_with_retry-Run}

-- A broken connection, a quiet round, and the end.
abbrev rounds : List Round
rounds =
    record { before = none; consumed = some (text "broken pipe"); after = none; pause = none }
    ∷ record { before = none; consumed = none; after = none; pause = none }
    ∷ record { before = some (sentinel canceled); consumed = none; after = none; pause = none }
    ∷ []

is_stopped : run rounds ≡ stopped (sentinel canceled)
unfolding run service_courier_platform.Kafka.Consumer.consume_once
is_stopped = refl

run-Ended_example : Ended rounds (sentinel canceled)
run-Ended_example = run-Ended rounds is_stopped

-- The database is there at the third attempt.
abbrev late_database : Attempts String
late_database = record {
  open_pool = λ attempt. if eqb attempt 3 then ok "pool" else err (text "connection refused");
  interrupted = λ attempt. none;
}

connect_db_with_retry-Run_example :
    Run 10 late_database 1 (connect_db_with_retry (pos 10) late_database)
connect_db_with_retry-Run_example = connect_db_with_retry-Run 10 late_database
