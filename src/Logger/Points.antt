-- ===== src/Logger/Points.antt =====
-- source/core/log-manager/FibpLogger.cpp, sendLogToDB: the points that are made of a record. Times are
-- 64-bit numbers, whose difference wraps around.
use fiberproxy.Prelude.{
  ℕ, ◌+◌, ◌-◌, ◌%◌, ◌^◌, ◌<◌, Bool, true, not, List, [], ◌∷◌, ◌++◌, Bytes, codes, is_empty, ◌≡◌,
  refl, arith, ap, ◌∙◌, insert, lookup, lookup_or, bytes_key, bytes_eq_refl,
}
use fiberproxy.Logger.{LogData, RequestData, empty_log, end_log, send_log, failed_log, change_back}

abbrev pub latency : ℕ → ℕ → ℕ
latency start_time end_time = (end_time + 2 ^ 64 - start_time) % 2 ^ 64

-- a row of fibp_api_log, whose first column is the start once more
pub record ApiPoint : Type 0 where
  pub logid : ℕ
  pub start_time : ℕ
  pub end_time : ℕ
  pub latency_time : ℕ

-- a row of fibp_services_log
pub record ServicePoint : Type 0 where
  pub logid : ℕ
  pub start_time : ℕ
  pub end_time : ℕ
  pub latency_time : ℕ
  pub service_name : Bytes
  pub host_port : Bytes
  pub is_fail : Bool
  pub failed_msg : Bytes

abbrev pub api_point : LogData → ApiPoint
api_point l = record {
  logid = l.id;
  start_time = l.start_time;
  end_time = l.end_time;
  latency_time = latency l.start_time l.end_time;
}

abbrev pub service_point : ℕ → Bytes → RequestData → ServicePoint
service_point id name r = record {
  logid = id;
  start_time = r.start_time;
  end_time = r.end_time;
  latency_time = latency r.start_time r.end_time;
  service_name = name;
  host_port = r.host_port;
  is_fail = not (is_empty r.failed_msg);
  failed_msg = r.failed_msg;
}

unfoldable pub request_points : ℕ → Bytes → List RequestData → List ServicePoint
request_points id name [] = []
request_points id name (r ∷ rs) = service_point id name r ∷ request_points id name rs

unfoldable pub service_points : ℕ → List (Bytes × List RequestData) → List ServicePoint
unfolding request_points
service_points id [] = []
service_points id ((name, rs) ∷ services) = request_points id name rs ++ service_points id services

-- A call of one service that has failed without an answer.
abbrev pub failed_call : ℕ → Bytes → Bytes → Bytes → ℕ → ℕ → Bytes → LogData
failed_call id name host port now later msg = end_log later (
    failed_log name msg
      (send_log name host port now (record empty_log { id = id; start_time = now })))

latency-zero : (now : ℕ) → 0 < now → now < 2 ^ 64 → latency now 0 ≡ 2 ^ 64 - now
latency-zero now h k = omega arith

insert_one :
    (name : Bytes) (v w : List RequestData) → insert name v ((name, w) ∷ []) ≡ (name, v) ∷ []
unfolding insert
insert_one name v w = rw (bytes_eq_refl name, insert) refl

lookup_one : (name : Bytes) (w : List RequestData) → lookup_or name [] ((name, w) ∷ []) ≡ w
unfolding lookup
lookup_one name w = rw (bytes_eq_refl name, lookup_or, lookup) refl

-- A call of one service that fails without an answer, and is then ended, is sent as one failed
-- point of the service with no end and, since the difference wraps around, with a latency of 2^64
-- less its start.
pub service_points-failed_call :
    (id : ℕ) (name host port : Bytes) (now later : ℕ) (c : ℕ) (msg : Bytes)
    → 0 < now
    → now < 2 ^ 64
    → service_points id (failed_call id name host port now later (c ∷ msg)).service_send_reply_times
      ≡ record {
        logid = id;
        start_time = now;
        end_time = 0;
        latency_time = 2 ^ 64 - now;
        service_name = name;
        host_port = host ++ codes ":" ++ port;
        is_fail = true;
        failed_msg = c ∷ msg;
      }
        ∷ []
unfolding service_points request_points lookup insert change_back
service_points-failed_call id name host port now later c msg h k =
    ap (service_points id) (
      insert_one name _ _
      ∙ ap (λ rs. (name, change_back (λ r. record r { failed_msg = c ∷ msg }) rs) ∷ [])
          (lookup_one name _))
    ∙ ap
        (λ (t : ℕ).
          record (service_point id name (record {
            start_time = now;
            end_time = 0;
            host_port = host ++ codes ":" ++ port;
            failed_msg = c ∷ msg;
          })) { latency_time = t }
          ∷ [])
        (latency-zero now h k)
