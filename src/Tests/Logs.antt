-- ===== src/Tests/Logs.antt =====
-- Concrete runs of the call log.
use fiberproxy.Prelude.{suc, true, List, [], ◌∷◌, some, ◌≡◌, refl, arith, inr}
use fiberproxy.Logger.{
  Logger, LogData, new_logger, max_log_num, start_service_call, end_service_call, modify, send_one,
  send_loop,
}
use fiberproxy.Logger.Spec.{
  Op, start, change, send, finish, Answer, given, done, sent, run, Run, here, next, Trace, book,
}
use fiberproxy.Logger.Ring.{IsValid}
use fiberproxy.Logger.Refine.{Logger-refines}
use fiberproxy.Logger.Sender.{send_loop-ends, Stopped}

abbrev one_call : LogData
one_call = record {
  wait_send = true;
  id = 1;
  start_time = 5;
  end_time = 9;
  service_send_reply_times = [];
}

abbrev call_ops : List (Op × Answer)
call_ops = (start 5, given 1) ∷ (change 1 (finish 9), done) ∷ (send, sent (some one_call)) ∷ []

abbrev after_call : Logger
unfolding run start_service_call end_service_call modify send_one
after_call = (run send (run (change 1 (finish 9)) (run (start 5) new_logger).0).0).0

call_run : Run new_logger call_ops after_call
unfolding run start_service_call end_service_call modify send_one
call_run =
    next (start 5) tt (next (change 1 (finish 9)) (inr (omega arith, refl)) (next send refl here))

Logger-refines_example : Trace (book new_logger) call_ops (book after_call) × IsValid after_call
Logger-refines_example = Logger-refines call_run

send_loop-ends_example :
    (d : Logger) × (points : List LogData) × (send_loop (suc max_log_num) 0 after_call []
      ≡ some (d, points))
    × Stopped d points
send_loop-ends_example = send_loop-ends after_call
