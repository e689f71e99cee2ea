-- ===== src/Logger/Stats/Bounded.antt =====
-- sendLogToDB in FibpLogger.cpp: what is kept of a service, and what the readers see, is bounded.
use fiberproxy.Prelude.{
  ℕ, ◌^◌, ◌≤◌, ◌<◌, true, false, List, [], ◌∷◌, ◌++◌, Option, none, some, Bytes, ◌≡◌, refl, sym, ap,
  subst, ◌∙◌, arith, if◌then◌else◌, ◌==◌, Bool-cases, inl, inr, All, length, lookup, insert,
  lookup-insert, bytes_key, bytes_eq, bytes_eq_iff, bytes_eq_refl,
}
use fiberproxy.Logger.{LogData, RequestData}
use fiberproxy.Logger.Stats.{
  ServiceStat, Stats, new_stats, second, is_old, push_stat, count_in, count_request, current,
  close_stat, empty_stat, push_closed, log_request, log_requests, log_records,
  get_recent_service_stats,
}
use fiberproxy.Logger.Stats.Kept.{
  kept_of, Spread, SpreadBefore, Small, Spread-bound, Spread-push, Entries, unpushed-Small,
  young-Small, old-Small,
}
use fiberproxy.Logger.Stats.Runs.{all_requests}
use fiberproxy.Logger.Stats.Pushed.{log_records-requests}
use fiberproxy.Logger.Stats.Kept.{SpreadBefore-bound}

-- The requests of each service start in the order of the seconds.
abbrev pub InTime : List (Bytes × RequestData) → Type 0
InTime [] = Unit
InTime ((n, r) ∷ rs) = All (λ (m, q). bytes_eq n m ≡ true → second r ≤ second q) rs × InTime rs

abbrev pub Timed : List (Bytes × RequestData) → Type 0
Timed rs = All (λ (m, q). q.start_time < 2 ^ 64) rs

module _ {D : Type 0} (no_latency : D) (add_latency : D → ℕ → D) (mean : D → ℕ → D) where
  -- A request that is not of an earlier second than the one that its service counts.
  abbrev InOrder : RequestData → Option (ServiceStat D) → Type 0
  InOrder r none = Unit
  InOrder r (some s) = s.timestamp ≤ second r

  -- A service's entry in the new map, for each service.
  lookup-counted :
      (n name : Bytes) (r : RequestData) (cur : List (Bytes × ServiceStat D))
      → lookup name (count_request no_latency add_latency mean n r cur).0 ≡ (
          if bytes_eq n name
          then some
              (count_in no_latency add_latency mean r
                (current no_latency add_latency mean n r cur)).0
          else lookup name cur)
  unfolding count_request
  lookup-counted n name r cur =
      lookup-insert n name
        (count_in no_latency add_latency mean r (current no_latency add_latency mean n r cur)).0 cur

  abbrev counted_entry : RequestData → Option (ServiceStat D) → ServiceStat D
  counted_entry r none = empty_stat no_latency add_latency mean (second r)
  counted_entry r (some s) = s

  -- What holds behind the count: nothing is closed, or the closed entry fits behind what is kept.
  abbrev AfterCount : List (ServiceStat D) → ServiceStat D → Option (ServiceStat D) → Type 0
  AfterCount kept s none = SpreadBefore kept (some s)
  AfterCount kept s (some c) =
      (length kept ≤ 11)
      × (s.timestamp < 2 ^ 64)
      × (is_old c kept ≡ false → Spread (kept ++ c ∷ []) s.timestamp)

  count_in-AfterCount :
      (r : RequestData) (kept : List (ServiceStat D)) (o : Option (ServiceStat D))
      → SpreadBefore kept o
      → InOrder r o
      → second r < 2 ^ 64
      → AfterCount kept
          (count_in no_latency add_latency mean r (counted_entry r o)).0
          (count_in no_latency add_latency mean r (counted_entry r o)).1
  count_in-AfterCount r kept none h later b =
      let same : (second r == second r) ≡ true = ground arith in
      rw same (subst (λ k. Spread k (second r)) (sym h) tt, b)
  count_in-AfterCount r kept (some s) h later b = elim (Bool-cases (second r == s.timestamp)) [
    | inl e ↦ rw e h
    | inr e ↦ rw e (
      Spread-bound kept s.timestamp h.0,
      b,
      λ young.
          Spread-push kept (close_stat no_latency add_latency mean s) (second r) h.0
            (ground (arith, later, e)) b young,
    )
  ]

  lookup-before :
      (n : Bytes) (r : RequestData) (cur : List (Bytes × ServiceStat D))
      → current no_latency add_latency mean n r cur ≡ counted_entry r (lookup n cur)
  lookup-before n r cur = go (lookup n cur)
    where
      go :
          (o : Option (ServiceStat D))
          → (elim o [ none ↦ empty_stat no_latency add_latency mean (second r) | some s ↦ s ])
            ≡ counted_entry r o
      go none = refl
      go (some s) = refl

  push_closed-Small :
      (n : Bytes) (s : ServiceStat D) (c : Option (ServiceStat D)) (t : Stats D)
      (cur : List (Bytes × ServiceStat D))
      → Entries n s t cur
      → ((name : Bytes) → Small t name)
      → AfterCount (kept_of n t.service_stats) s c
      → (name : Bytes)
      → Small (push_closed no_latency add_latency mean n c (record t { cur_time_stats = cur })) name
  unfolding push_stat
  push_closed-Small n s none t cur h small after = unpushed-Small n s s t cur h small after
  push_closed-Small n s (some c) t cur h small (few, b, fits) =
      elim (Bool-cases (is_old c (kept_of n t.service_stats))) [
        | inl e ↦ rw e (old-Small n s c t cur h small few b)
        | inr e ↦ rw e (young-Small n s c t cur h small (fits e, b))
      ]

  log_request-Small :
      (n : Bytes) (r : RequestData) (t : Stats D)
      → ((name : Bytes) → Small t name)
      → InOrder r (lookup n t.cur_time_stats)
      → r.start_time < 2 ^ 64
      → (name : Bytes) → Small (log_request no_latency add_latency mean n r t) name
  unfolding log_request count_request
  log_request-Small n r t small later b =
      let o = lookup n t.cur_time_stats in
      let after =
        count_in-AfterCount r (kept_of n t.service_stats) o (small n).kept later
          (omega (arith, b)) in
      let (s, c) =
        count_in no_latency add_latency mean r
          (current no_latency add_latency mean n r t.cur_time_stats) in
      push_closed-Small n s c t (insert n s t.cur_time_stats)
        (λ name. lookup-counted n name r t.cur_time_stats) small
        (subst
          (λ e.
            AfterCount (kept_of n t.service_stats) (count_in no_latency add_latency mean r e).0
              (count_in no_latency add_latency mean r e).1)
          (sym (lookup-before n r t.cur_time_stats)) after)

  -- What is to come is not of an earlier second than those that are counted.
  abbrev Awaits : List (Bytes × RequestData) → Stats D → Type 0
  Awaits rs t =
      (n : Bytes) (s : ServiceStat D)
      → lookup n t.cur_time_stats ≡ some s
      → All (λ (m, q). bytes_eq n m ≡ true → s.timestamp ≤ second q) rs

  count_in-timestamp :
      (r : RequestData) (s : ServiceStat D)
      → (count_in no_latency add_latency mean r s).0.timestamp ≡ second r
  count_in-timestamp r s = elim (Bool-cases (second r == s.timestamp)) [
    | inl e ↦ rw e (ground (arith, e))
    | inr e ↦ rw e refl
  ]

  push_closed-current :
      (n : Bytes) (c : Option (ServiceStat D)) (t : Stats D)
      → (push_closed no_latency add_latency mean n c t).cur_time_stats ≡ t.cur_time_stats
  unfolding push_stat
  push_closed-current n none t = refl
  push_closed-current n (some s) t = ground arith

  log_request-current :
      (n : Bytes) (r : RequestData) (t : Stats D)
      → (log_request no_latency add_latency mean n r t).cur_time_stats
        ≡ (count_request no_latency add_latency mean n r t.cur_time_stats).0
  unfolding log_request
  log_request-current n r t =
      push_closed-current n (count_request no_latency add_latency mean n r t.cur_time_stats).1 _

  Awaits-log_request :
      (n : Bytes) (r : RequestData) (rs : List (Bytes × RequestData)) (t : Stats D)
      → InTime ((n, r) ∷ rs)
      → Awaits ((n, r) ∷ rs) t
      → Awaits rs (log_request no_latency add_latency mean n r t)
  Awaits-log_request n r rs t (first, later) waits name s h =
      let e =
        sym h
        ∙ ap (lookup name) (log_request-current n r t)
        ∙ lookup-counted n name r t.cur_time_stats in
      elim (Bool-cases (bytes_eq n name)) [
        | inl q ↦
            let found =
              count_in no_latency add_latency mean r
                (current no_latency add_latency mean n r t.cur_time_stats) in
            let same : some s ≡ some found.0 = rw q at e in
            let is_found : s ≡ found.0 = ap (λ o. elim o [ none ↦ s | some x ↦ x ]) same in
            subst (λ (k : ℕ). All (λ x. bytes_eq name x.0 ≡ true → k ≤ second x.1) rs)
              (sym (ap (λ x. x.timestamp) is_found ∙ count_in-timestamp r _))
              (subst (λ m. All (λ x. bytes_eq m x.0 ≡ true → second r ≤ second x.1) rs)
                ((bytes_eq_iff n name).0 q) first)
        | inr q ↦ (waits name s (sym (e ∙ rw q refl))).1
      ]

  InOrder-Awaits :
      (n : Bytes) (r : RequestData) (rs : List (Bytes × RequestData)) (t : Stats D)
      → Awaits ((n, r) ∷ rs) t
      → (o : Option (ServiceStat D)) → lookup n t.cur_time_stats ≡ o
      → InOrder r o
  InOrder-Awaits n r rs t waits none h = tt
  InOrder-Awaits n r rs t waits (some s) h = (waits n s h).0 (bytes_eq_refl n)

  log_requests-Small :
      (rs : List (Bytes × RequestData)) (t : Stats D)
      → InTime rs
      → Timed rs
      → Awaits rs t
      → ((name : Bytes) → Small t name)
      → (name : Bytes) → Small (log_requests no_latency add_latency mean rs t) name
  unfolding log_requests
  log_requests-Small [] t h b waits small = small
  log_requests-Small ((n, r) ∷ rs) t h b waits small =
      log_requests-Small rs (log_request no_latency add_latency mean n r t) h.1 b.1
        (Awaits-log_request n r rs t h waits)
        (log_request-Small n r t small
          (InOrder-Awaits n r rs t waits (lookup n t.cur_time_stats) refl) b.0)

  no_entry : (rs : List (Bytes × RequestData)) → Awaits rs new_stats
  unfolding lookup
  no_entry rs n s e = let clash : none ≡ some s = e in absurd cc

  -- x
  pub log_records-bounded :
      (ls : List LogData) (name : Bytes)
      → InTime (all_requests ls)
      → Timed (all_requests ls)
      → let t = log_records no_latency add_latency mean ls new_stats in
        (length (kept_of name t.service_stats) ≤ 11)
        × (length (kept_of name (get_recent_service_stats t)) ≤ 12)
  unfolding lookup
  log_records-bounded ls name h b =
      let small =
        log_requests-Small (all_requests ls) new_stats h b (no_entry (all_requests ls))
          (λ n. record { kept = refl; recent = omega arith }) name in
      rw (log_records-requests no_latency add_latency mean ls new_stats)
        (SpreadBefore-bound _ _ small.kept, small.recent)
