-- ===== src/Logger/Reported.antt =====
-- What reportServiceStats of source/core/forward-manager/FibpServiceMgr.cpp posts of the statistics that
-- sendLogToDB of source/core/log-manager/FibpLogger.cpp makes.
use fiberproxy.Prelude.{
  ℕ, List, [], ◌∷◌, ◌++◌, Option, none, some, Bytes, ◌≡◌, refl, sym, ap, subst, Bool-cases, inl,
  inr, All, Memᴰ-append, Memᴰ-map, All-append, All-Memᴰ, lookup, lookup_or, insert, bytes_key,
  bytes_eq, bytes_lt, bytes_eq_refl, bytes_eq_iff,
}
use mathlib.Core.List.{Memᴰ}
use fiberproxy.Logger.{LogData}
use fiberproxy.Logger.Stats.{
  ServiceStat, ServiceStatMap, Stats, new_stats, clear_all, is_old, push_stat, log_records,
}
use fiberproxy.Logger.Stats.Runs.{of_name, all_requests, Group, runs}
use fiberproxy.Logger.Stats.Counted.{count_all, summary}
use fiberproxy.Logger.Stats.Pushed.{push_all, with_current, log_records-runs}
use fiberproxy.Logger.Round.{StatRow, stat_row, stat_rows, service_rows, report_service_stats}

Memᴰ-of_name :
    {V : Type 0} {v : V} (name : Bytes) (m : List (Bytes × V))
    → Memᴰ (name, v) m
    → Memᴰ v (of_name name m)
unfolding of_name
Memᴰ-of_name name [] h = elim h [ ]
Memᴰ-of_name name ((n, w) ∷ m) (Memᴰ.head e) =
    rw (ap (λ x. bytes_eq x.0 name) (sym e), bytes_eq_refl name) (Memᴰ.head (ap (λ x. x.1) e))
Memᴰ-of_name name ((n, w) ∷ m) (Memᴰ.tail h) = elim (Bool-cases (bytes_eq n name)) [
  | inl q ↦ rw q (Memᴰ.tail (Memᴰ-of_name name m h))
  | inr q ↦ rw q (Memᴰ-of_name name m h)
]

module _ {D : Type 0} (P : Bytes → ServiceStat D → Type 0) where
  abbrev AllStats : ServiceStatMap D → Type 0
  AllStats m = All (λ (name, ss). All (P name) ss) m

  AllStats-clear_all : (m : ServiceStatMap D) → AllStats (clear_all m)
  unfolding clear_all
  AllStats-clear_all [] = tt
  AllStats-clear_all ((name, ss) ∷ m) = (tt, AllStats-clear_all m)

  AllStats-lookup :
      (name : Bytes) (m : ServiceStatMap D) → AllStats m → All (P name) (lookup_or name [] m)
  unfolding lookup
  AllStats-lookup name [] h = tt
  AllStats-lookup name ((n, ss) ∷ m) h = elim (Bool-cases (bytes_eq n name)) [
    | inl e ↦ rw (e, lookup_or) (subst (λ x. All (P x) ss) ((bytes_eq_iff n name).0 e) h.0)
    | inr e ↦ rw (e, lookup_or) (AllStats-lookup name m h.1)
  ]

  AllStats-insert :
      (name : Bytes) (ss : List (ServiceStat D)) (m : ServiceStatMap D)
      → All (P name) ss
      → AllStats m
      → AllStats (insert name ss m)
  unfolding insert
  AllStats-insert name ss [] k h = (k, tt)
  AllStats-insert name ss ((n, qs) ∷ m) k h = elim (Bool-cases (bytes_eq n name)) [
    | inl e ↦ rw e (subst (λ x. All (P x) ss) (sym ((bytes_eq_iff n name).0 e)) k, h.1)
    | inr e ↦ elim (Bool-cases (bytes_lt name n)) [
      | inl q ↦ rw (e, q) (k, h)
      | inr q ↦ rw (e, q) (h.0, AllStats-insert name ss m k h.1)
    ]
  ]

  -- All the statistics that are kept, and that the readers see.
  abbrev Both : Stats D → Type 0
  Both t = AllStats t.service_stats × AllStats t.recent_service_stats

  push_stat-Both :
      (name : Bytes) (s : ServiceStat D) (t : Stats D)
      → P name s
      → Both t
      → Both (push_stat name s t)
  unfolding push_stat
  push_stat-Both name s t p (kept, recent) =
      let pushed =
        AllStats-insert name (lookup_or name [] t.service_stats ++ s ∷ []) t.service_stats
          (All-append (P name) (lookup_or name [] t.service_stats) (s ∷ [])
            (AllStats-lookup name t.service_stats kept) (p, tt))
          kept in
      elim (Bool-cases (is_old s (lookup_or name [] t.service_stats))) [
        | inl e ↦ rw e (AllStats-clear_all t.recent_service_stats, pushed)
        | inr e ↦ rw e (pushed, recent)
      ]

  push_all-Both :
      (closed : List (Bytes × ServiceStat D)) (t : Stats D)
      → All (λ (name, s). P name s) closed
      → Both t
      → Both (push_all closed t)
  unfolding push_all
  push_all-Both [] t p h = h
  push_all-Both ((name, s) ∷ closed) t p h =
      push_all-Both closed (push_stat name s t) p.1 (push_stat-Both name s t p.0 h)

  abbrev AllRows : List (StatRow D) → Type 0
  AllRows rows = All (λ row. (s : ServiceStat D) × P row.name s × (row ≡ stat_row row.name s)) rows

  stat_rows-All :
      (name : Bytes) (ss : List (ServiceStat D)) → All (P name) ss → AllRows (stat_rows name ss)
  unfolding stat_rows
  stat_rows-All name [] h = tt
  stat_rows-All name (s ∷ ss) h = ((s, h.0, refl), stat_rows-All name ss h.1)

  service_rows-All : (m : ServiceStatMap D) → AllStats m → AllRows (service_rows m)
  unfolding service_rows
  service_rows-All [] h = tt
  service_rows-All ((name, ss) ∷ m) h =
      All-append _ (stat_rows name ss) (service_rows m) (stat_rows-All name ss h.0)
        (service_rows-All m h.1)

module _ {D : Type 0} (no_latency : D) (add_latency : D → ℕ → D) (mean : D → ℕ → D) where
  -- A run of the requests of a service, whose summary an entry is.
  abbrev pub IsRun : List LogData → Bytes → ServiceStat D → Type 0
  IsRun ls name s =
      (g : Group) × Memᴰ g (runs (of_name name (all_requests ls)))
      × (s ≡ summary no_latency add_latency mean g)

  closed-IsRun :
      (ls : List LogData) (name : Bytes) (s : ServiceStat D)
      → Memᴰ (name, s) (count_all no_latency add_latency mean (all_requests ls) []).1
      → IsRun ls name s
  closed-IsRun ls name s m =
      let (cur, closed) = count_all no_latency add_latency mean (all_requests ls) [] in
      Memᴰ-map (summary no_latency add_latency mean) (runs (of_name name (all_requests ls))) (
        subst (Memᴰ s) (log_records-runs no_latency add_latency mean ls name).1
          (Memᴰ-append (of_name name closed) _ (Memᴰ-of_name name closed m)))

  abbrev pub AllRuns : List LogData → Option (List (StatRow D)) → Type 0
  AllRuns ls none = Unit
  AllRuns ls (some rows) =
      All (λ row. (s : ServiceStat D) × IsRun ls row.name s × (row ≡ stat_row row.name s)) rows

  posted-AllRuns :
      (ls : List LogData) (rows : List (StatRow D))
      → AllRuns ls (some rows)
      → AllRuns ls (elim rows [ [] ↦ none | row ∷ more ↦ some (row ∷ more) ])
  posted-AllRuns ls [] h = tt
  posted-AllRuns ls (row ∷ rows) h = h

  -- x
  pub report_service_stats-AllRuns :
      (ls : List LogData)
      → AllRuns ls (report_service_stats (log_records no_latency add_latency mean ls new_stats))
  unfolding report_service_stats
  report_service_stats-AllRuns ls =
      let (cur, closed) = count_all no_latency add_latency mean (all_requests ls) [] in
      let t = push_all closed (with_current cur new_stats) in
      let all =
        push_all-Both (IsRun ls) closed (with_current cur new_stats)
          (All-Memᴰ closed (λ (name, s) m. closed-IsRun ls name s m)) (tt, tt) in
      rw (log_records-runs no_latency add_latency mean ls []).0 (
        posted-AllRuns ls (service_rows t.recent_service_stats)
          (service_rows-All (IsRun ls) t.recent_service_stats all.1))
