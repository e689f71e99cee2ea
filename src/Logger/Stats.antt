-- ===== src/Logger/Stats.antt =====
-- source/core/log-manager/FibpLogger.{h,cpp}: the statistics of each service and second, which
-- sendLogToDB makes of the records it sends, and hands to the readers about every ten seconds. The
-- sum and the mean of the latencies are floating point: they are parameters. The number of requests of
-- a second is an int, which does not overflow here.
pub mod Runs
pub mod Counted
pub mod Pushed
pub mod Kept
pub mod Bounded
use fiberproxy.Prelude.{
  ℕ, ◌+◌, ◌-◌, ◌/◌, ◌%◌, ◌^◌, Bool, List, [], ◌∷◌, ◌++◌, Option, none, some, Bytes, if◌then◌else◌,
  ◌==◌, ltb, insert, lookup, lookup_or, bytes_key,
}
use fiberproxy.Logger.{LogData, RequestData}
use fiberproxy.Logger.Points.{latency}

-- `D` stands for double.
pub record ServiceStat (D : Type 0) : Type 0 where
  pub avg_latency : D
  pub request_per_sec : ℕ
  pub timestamp : ℕ

abbrev pub ServiceStatMap : Type 0 → Type 0
ServiceStatMap D = List (Bytes × List (ServiceStat D))

-- cur_time_stats and service_stats are locals of the sending fiber.
pub record Stats (D : Type 0) : Type 0 where
  pub cur_time_stats : List (Bytes × ServiceStat D)
  pub service_stats : ServiceStatMap D
  pub recent_service_stats : ServiceStatMap D

abbrev pub new_stats : {D : Type 0} → Stats D
new_stats = record { cur_time_stats = []; service_stats = []; recent_service_stats = [] }

-- start_time / 1000000
abbrev pub second : RequestData → ℕ
second r = r.start_time / 1000000

-- the difference of two timestamps, which have no sign
abbrev pub age : ℕ → ℕ → ℕ
age now then_ = (now + 2 ^ 64 - then_) % 2 ^ 64

-- tmpit->second.clear() for every service
unfoldable pub clear_all : {D : Type 0} → ServiceStatMap D → ServiceStatMap D
clear_all [] = []
clear_all ((name, stats) ∷ m) = (name, []) ∷ clear_all m

-- whether the entry that has just been pushed is too far from the front of its list
abbrev pub is_old : {D : Type 0} → ServiceStat D → List (ServiceStat D) → Bool
is_old s [] = ltb 10 (age s.timestamp s.timestamp)
is_old s (front ∷ kept) = ltb 10 (age s.timestamp front.timestamp)

-- serviceStats.swap(recentServiceStats_), and what follows it
abbrev pub swap_stats : {D : Type 0} → Stats D → Stats D
swap_stats t = record t {
  service_stats = clear_all t.recent_service_stats;
  recent_service_stats = t.service_stats;
}

abbrev pub push_kept : {D : Type 0} → Bytes → ServiceStat D → Stats D → Stats D
push_kept name s t = record t {
  service_stats = insert name (lookup_or name [] t.service_stats ++ s ∷ []) t.service_stats;
}

-- A service's second is over: it is kept, and all that is kept goes to the readers when it is old.
unfoldable pub push_stat : {D : Type 0} → Bytes → ServiceStat D → Stats D → Stats D
push_stat name s t =
    let pushed = push_kept name s t in
    if is_old s (lookup_or name [] t.service_stats) then swap_stats pushed else pushed

-- getRecentServiceStats
abbrev pub get_recent_service_stats : {D : Type 0} → Stats D → ServiceStatMap D
get_recent_service_stats t = t.recent_service_stats

module _ {D : Type 0} (no_latency : D) (add_latency : D → ℕ → D) (mean : D → ℕ → D) where
  -- an entry that has been reset, with its timestamp
  abbrev pub empty_stat : ℕ → ServiceStat D
  empty_stat sec = record { avg_latency = no_latency; request_per_sec = 0; timestamp = sec }

  abbrev pub count_latency : RequestData → ServiceStat D → ServiceStat D
  count_latency r s = record s {
    request_per_sec = s.request_per_sec + 1;
    avg_latency = add_latency s.avg_latency (latency r.start_time r.end_time);
  }

  -- avgLatency /= requestPerSec
  abbrev pub close_stat : ServiceStat D → ServiceStat D
  close_stat s = record s { avg_latency = mean s.avg_latency s.request_per_sec }

  -- The entry behind a request, and the one that the request has closed.
  abbrev pub count_in : RequestData → ServiceStat D → ServiceStat D × Option (ServiceStat D)
  count_in r s =
      if second r == s.timestamp
      then (count_latency r s, none)
      else (count_latency r (empty_stat (second r)), some (close_stat s))

  abbrev pub current : Bytes → RequestData → List (Bytes × ServiceStat D) → ServiceStat D
  current name r cur = lookup_or name (empty_stat (second r)) cur

  unfoldable pub count_request :
      Bytes
      → RequestData
      → List (Bytes × ServiceStat D)
      → List (Bytes × ServiceStat D) × Option (ServiceStat D)
  count_request name r cur =
      let (s, closed) = count_in r (current name r cur) in (insert name s cur, closed)

  abbrev pub push_closed : Bytes → Option (ServiceStat D) → Stats D → Stats D
  push_closed name none t = t
  push_closed name (some s) t = push_stat name s t

  -- The body of the loop over the requests of a service.
  unfoldable pub log_request : Bytes → RequestData → Stats D → Stats D
  unfolding count_request push_stat
  log_request name r t =
      let (cur, closed) = count_request name r t.cur_time_stats in
      push_closed name closed (record t { cur_time_stats = cur })

  -- The same over requests that carry the names of their services.
  unfoldable pub log_requests : List (Bytes × RequestData) → Stats D → Stats D
  unfolding log_request
  log_requests [] t = t
  log_requests ((name, r) ∷ rs) t = log_requests rs (log_request name r t)

  unfoldable pub log_service : Bytes → List RequestData → Stats D → Stats D
  unfolding log_request
  log_service name [] t = t
  log_service name (r ∷ rs) t = log_service name rs (log_request name r t)

  -- for(it = logdata->service_send_reply_times.begin(); ...)
  unfoldable pub log_services : List (Bytes × List RequestData) → Stats D → Stats D
  unfolding log_service
  log_services [] t = t
  log_services ((name, rs) ∷ services) t = log_services services (log_service name rs t)

  -- the records of a round
  unfoldable pub log_records : List LogData → Stats D → Stats D
  unfolding log_services
  log_records [] t = t
  log_records (l ∷ ls) t = log_records ls (log_services l.service_send_reply_times t)
