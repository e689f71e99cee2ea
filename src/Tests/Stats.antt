-- ===== src/Tests/Stats.antt =====
-- Concrete runs of the statistics of the services, in whole numbers.
use fiberproxy.Prelude.{
  ℕ, ◌+◌, ◌/◌, ◌≤◌, List, [], ◌∷◌, map, none, some, codes, ◌≡◌, refl, arith, length, true, false,
  lookup, insert, bytes_eq,
}
use fiberproxy.Logger.{LogData, RequestData, new_logger}
use fiberproxy.Logger.Stats.{
  new_stats, push_stat, count_request, clear_all, log_request, log_service, log_services,
  log_records, get_recent_service_stats,
}
use fiberproxy.Logger.Stats.Runs.{of_name, service_requests, record_requests, all_requests, runs}
use fiberproxy.Logger.Stats.Counted.{count_all, whole, summary}
use fiberproxy.Logger.Stats.Pushed.{push_counted, log_records-runs}
use fiberproxy.Logger.Stats.Kept.{kept_of}
use fiberproxy.Logger.Round.{LogSender, Writers, Happens, report_service_stats}
use fiberproxy.Logger.Reported.{AllRuns}
use fiberproxy.Logger.Rounds.{
  Rounds, start, round, new_sender, round_end, Rounds-reported, Rounds-bounded,
}
use fiberproxy.Logger.Growing.{Grows, Rounds-Grows}
use fiberproxy.Session.{fine, failed, other}
use fiberproxy.Http.{cleared}
use fiberproxy.Http.Client.{other_error}

abbrev answered : ℕ → ℕ → RequestData
answered start_time end_time = record {
  start_time = start_time;
  end_time = end_time;
  host_port = codes "10.0.0.1:80";
  failed_msg = [];
}

abbrev users_call : ℕ → ℕ → ℕ → LogData
users_call id start_time end_time = record {
  wait_send = true;
  id = id;
  start_time = start_time;
  end_time = end_time;
  service_send_reply_times = (codes "users", answered start_time end_time ∷ []) ∷ [];
}

abbrev users_calls : List LogData
users_calls =
    users_call 1 1000000 1000010
    ∷ users_call 2 1200000 1200030
    ∷ users_call 3 2000000 2000050
    ∷ users_call 4 13000000 13000005
    ∷ users_call 5 14000000 14000005
    ∷ []

-- Two requests of one second, and the others of one each: the fourth second is more than ten behind
-- the first.
users_reported :
    report_service_stats (log_records 0 ◌+◌ ◌/◌ users_calls new_stats)
    ≡ some (
        record { name = codes "users"; latency = 20; request_per_sec = 2; timestamp = 1 }
        ∷ record { name = codes "users"; latency = 50; request_per_sec = 1; timestamp = 2 }
        ∷ record { name = codes "users"; latency = 5; request_per_sec = 1; timestamp = 13 }
        ∷ [])
unfolding log_records log_services log_service log_request count_request push_stat clear_all
    report_service_stats lookup insert bytes_eq
users_reported = refl

log_records-runs_example :
    let counted = count_all 0 ◌+◌ ◌/◌ (all_requests users_calls) [] in
    (log_records 0 ◌+◌ ◌/◌ users_calls new_stats ≡ push_counted 0 ◌+◌ ◌/◌ counted new_stats)
    × (whole 0 ◌+◌ ◌/◌ (codes "users") counted
        ≡ map (summary 0 ◌+◌ ◌/◌) (runs (of_name (codes "users") (all_requests users_calls))))
log_records-runs_example = log_records-runs 0 ◌+◌ ◌/◌ users_calls (codes "users")

abbrev test_writers : Writers
test_writers = record { text = λ n. n ∷ []; json = λ api services. codes "[]" }

-- The first send fails, and the service is not found.
abbrev refused_round : Happens
refused_round = record {
  ends = record { conn = failed other; opened = false; wrote = fine; throws = false };
  parsed = record { ret = false; rsp = cleared; ec = other_error; throws = false };
  mgr = none;
}

abbrev first_sender : LogSender ℕ
first_sender = new_sender new_logger (codes "10.0.0.9") (codes "8086")

abbrev users_sender : LogSender ℕ
users_sender = round_end 0 ◌+◌ ◌/◌ test_writers (codes "log") refused_round users_calls first_sender

users_round : Rounds 0 ◌+◌ ◌/◌ test_writers (codes "log") 1 users_calls users_sender
users_round =
    round new_logger refused_round users_calls (start new_logger (codes "10.0.0.9") (codes "8086"))

Rounds-reported_example : AllRuns 0 ◌+◌ ◌/◌ users_calls (report_service_stats users_sender.stats)
Rounds-reported_example =
    Rounds-reported 0 ◌+◌ ◌/◌ test_writers (codes "log") 1 users_calls users_sender users_round

Rounds-Grows_example : Grows 0 ◌+◌ ◌/◌ test_writers (codes "log") 1 users_sender
Rounds-Grows_example =
    Rounds-Grows 0 ◌+◌ ◌/◌ test_writers (codes "log") 1 users_calls users_sender users_round

Rounds-bounded_example :
    (length (kept_of (codes "users") users_sender.stats.service_stats) ≤ 11)
    × (length (kept_of (codes "users") (get_recent_service_stats users_sender.stats)) ≤ 12)
unfolding all_requests record_requests service_requests
Rounds-bounded_example =
    Rounds-bounded 0 ◌+◌ ◌/◌ test_writers (codes "log") 1 users_calls users_sender (codes "users")
      users_round
      (
        (λ _. omega arith, (λ _. omega arith, (λ _. omega arith, (λ _. omega arith, tt)))),
        (
          (λ _. omega arith, (λ _. omega arith, (λ _. omega arith, tt))),
          ((λ _. omega arith, (λ _. omega arith, tt)), ((λ _. omega arith, tt), (tt, tt))),
        ),
      )
      (omega arith, (omega arith, (omega arith, (omega arith, (omega arith, tt)))))
