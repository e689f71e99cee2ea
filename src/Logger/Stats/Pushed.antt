-- ===== src/Logger/Stats/Pushed.antt =====
-- sendLogToDB in FibpLogger.cpp: the loops over the records and their requests, against the runs of
-- the requests of each service.
use fiberproxy.Prelude.{
  ℕ, List, [], ◌∷◌, ◌++◌, map, Option, none, some, Bytes, ◌≡◌, refl, sym, ap, ◌∙◌, arith, lookup,
  bytes_key,
}
use fiberproxy.Logger.{LogData, RequestData}
use fiberproxy.Logger.Stats.{
  ServiceStat, Stats, new_stats, push_stat, count_request, push_closed, log_request, log_requests,
  log_service, log_services, log_records,
}
use fiberproxy.Logger.Stats.Runs.{of_name, service_requests, record_requests, all_requests, runs}
use fiberproxy.Logger.Stats.Counted.{count_all, whole, summary, named, count_all-resume}

-- Pushes what has been closed, in its order.
unfoldable pub push_all : {D : Type 0} → List (Bytes × ServiceStat D) → Stats D → Stats D
push_all [] t = t
push_all ((name, s) ∷ closed) t = push_all closed (push_stat name s t)

abbrev pub with_current : {D : Type 0} → List (Bytes × ServiceStat D) → Stats D → Stats D
with_current cur t = record t { cur_time_stats = cur }

push_stat-with_current :
    {D : Type 0} (name : Bytes) (s : ServiceStat D) (cur : List (Bytes × ServiceStat D))
    (t : Stats D)
    → with_current cur (push_stat name s t) ≡ push_stat name s (with_current cur t)
unfolding push_stat
push_stat-with_current name s cur t = ground arith

push_stat-current :
    {D : Type 0} (name : Bytes) (s : ServiceStat D) (t : Stats D)
    → (push_stat name s t).cur_time_stats ≡ t.cur_time_stats
unfolding push_stat
push_stat-current name s t = ground arith

module _ {D : Type 0} (no_latency : D) (add_latency : D → ℕ → D) (mean : D → ℕ → D) where
  push_closed-with_current :
      (name : Bytes) (c : Option (ServiceStat D)) (cur : List (Bytes × ServiceStat D)) (t : Stats D)
      → with_current cur (push_closed no_latency add_latency mean name c t)
        ≡ push_closed no_latency add_latency mean name c (with_current cur t)
  push_closed-with_current name none cur t = refl
  push_closed-with_current name (some s) cur t = push_stat-with_current name s cur t

  push_closed-current :
      (name : Bytes) (c : Option (ServiceStat D)) (t : Stats D)
      → (push_closed no_latency add_latency mean name c t).cur_time_stats ≡ t.cur_time_stats
  push_closed-current name none t = refl
  push_closed-current name (some s) t = push_stat-current name s t

  push_all-named :
      (name : Bytes) (c : Option (ServiceStat D)) (rest : List (Bytes × ServiceStat D))
      (t : Stats D)
      → push_all (named no_latency add_latency mean name c ++ rest) t
        ≡ push_all rest (push_closed no_latency add_latency mean name c t)
  unfolding push_all
  push_all-named name none rest t = refl
  push_all-named name (some s) rest t = refl

  -- What the requests do to all that is kept.
  abbrev pub push_counted :
      List (Bytes × ServiceStat D) × List (Bytes × ServiceStat D) → Stats D → Stats D
  push_counted (cur, closed) t = push_all closed (with_current cur t)

  log_requests-count_all :
      (rs : List (Bytes × RequestData)) (t : Stats D)
      → log_requests no_latency add_latency mean rs t
        ≡ push_counted (count_all no_latency add_latency mean rs t.cur_time_stats) t
  unfolding log_requests log_request count_all push_all
  log_requests-count_all [] t = refl
  log_requests-count_all ((name, r) ∷ rs) t =
      let (cur, c) = count_request no_latency add_latency mean name r t.cur_time_stats in
      let t' = with_current cur t in
      let pushed = push_closed no_latency add_latency mean name c t' in
      let (cur', rest) = count_all no_latency add_latency mean rs cur in
      log_requests-count_all rs pushed
      ∙ ap (λ x. push_counted (count_all no_latency add_latency mean rs x) pushed)
          (push_closed-current name c t')
      ∙ ap (push_all rest) (push_closed-with_current name c cur' t')
      ∙ sym (push_all-named name c rest (with_current cur' t))

  log_requests-append :
      (rs qs : List (Bytes × RequestData)) (t : Stats D)
      → log_requests no_latency add_latency mean (rs ++ qs) t
        ≡ log_requests no_latency add_latency mean qs
            (log_requests no_latency add_latency mean rs t)
  unfolding log_requests
  log_requests-append [] qs t = refl
  log_requests-append ((name, r) ∷ rs) qs t =
      log_requests-append rs qs (log_request no_latency add_latency mean name r t)

  log_service-requests :
      (name : Bytes) (rs : List RequestData) (t : Stats D)
      → log_service no_latency add_latency mean name rs t
        ≡ log_requests no_latency add_latency mean (service_requests name rs) t
  unfolding log_service log_requests service_requests
  log_service-requests name [] t = refl
  log_service-requests name (r ∷ rs) t =
      log_service-requests name rs (log_request no_latency add_latency mean name r t)

  log_services-requests :
      (services : List (Bytes × List RequestData)) (t : Stats D)
      → log_services no_latency add_latency mean services t
        ≡ log_requests no_latency add_latency mean (record_requests services) t
  unfolding log_services log_requests record_requests
  log_services-requests [] t = refl
  log_services-requests ((name, rs) ∷ services) t =
      log_services-requests services (log_service no_latency add_latency mean name rs t)
      ∙ ap (log_requests no_latency add_latency mean (record_requests services))
          (log_service-requests name rs t)
      ∙ sym (log_requests-append (service_requests name rs) (record_requests services) t)

  pub log_records-requests :
      (ls : List LogData) (t : Stats D)
      → log_records no_latency add_latency mean ls t
        ≡ log_requests no_latency add_latency mean (all_requests ls) t
  unfolding log_records log_requests all_requests
  log_records-requests [] t = refl
  log_records-requests (l ∷ ls) t =
      let services = l.service_send_reply_times in
      log_records-requests ls (log_services no_latency add_latency mean services t)
      ∙ ap (log_requests no_latency add_latency mean (all_requests ls))
          (log_services-requests services t)
      ∙ sym (log_requests-append (record_requests services) (all_requests ls) t)

  -- What a new log makes of the records that it sends: the seconds that it closes are pushed in
  -- their order, and for each service these and the one that it still counts are, in their order,
  -- the maximal runs of requests of the service in the records that start in one second, each with
  -- its number of requests, its second and the mean of its latencies.
  pub log_records-runs :
      (ls : List LogData) (name : Bytes)
      → let counted = count_all no_latency add_latency mean (all_requests ls) [] in
        (log_records no_latency add_latency mean ls new_stats ≡ push_counted counted new_stats)
        × (whole no_latency add_latency mean name counted
            ≡ map (summary no_latency add_latency mean) (runs (of_name name (all_requests ls))))
  unfolding lookup
  log_records-runs ls name = (
    log_records-requests ls new_stats ∙ log_requests-count_all (all_requests ls) new_stats,
    count_all-resume no_latency add_latency mean (all_requests ls) name [] none refl,
  )
