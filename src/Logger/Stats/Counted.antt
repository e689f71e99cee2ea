-- ===== src/Logger/Stats/Counted.antt =====
-- sendLogToDB in FibpLogger.cpp: what the requests of a service close is a summary of its runs.
use fiberproxy.Prelude.{
  ℕ, suc, ◌+◌, true, false, List, [], ◌∷◌, ◌++◌, map, append_assoc, subst, Option, none, some,
  Bytes, ◌≡◌, refl, sym, ap, ◌∙◌, arith, if◌then◌else◌, ◌==◌, Bool-cases, inl, inr, length,
  length-append, lookup, lookup-insert, bytes_key, bytes_eq, bytes_eq_iff, bytes_eq_refl,
}
use mathlib.Core.List.{map-append}
use fiberproxy.Logger.{RequestData}
use fiberproxy.Logger.Points.{latency}
use fiberproxy.Logger.Stats.{
  ServiceStat, second, count_in, count_request, current, close_stat, empty_stat, count_latency,
}
use fiberproxy.Logger.Stats.Runs.{of_name, Group, attach, runs, attach-same, attach-other}

module _ {D : Type 0} (no_latency : D) (add_latency : D → ℕ → D) (mean : D → ℕ → D) where
  unfoldable pub latencies : D → List RequestData → D
  latencies d [] = d
  latencies d (r ∷ rs) = latencies (add_latency d (latency r.start_time r.end_time)) rs

  -- The sum of the latencies of a run, and its length.
  abbrev pub sums : Group → ServiceStat D
  sums (r, rs) = record {
    avg_latency = latencies no_latency (r ∷ rs);
    request_per_sec = suc (length rs);
    timestamp = second r;
  }

  -- The mean of the latencies of a run.
  abbrev pub summary : Group → ServiceStat D
  summary g = close_stat no_latency add_latency mean (sums g)

  latencies-append :
      (rs : List RequestData) (r : RequestData) (d : D)
      → latencies d (rs ++ r ∷ []) ≡ add_latency (latencies d rs) (latency r.start_time r.end_time)
  unfolding latencies
  latencies-append [] r d = refl
  latencies-append (s ∷ rs) r d =
      latencies-append rs r (add_latency d (latency s.start_time s.end_time))

  sums-append :
      (r s : RequestData) (rs : List RequestData)
      → count_latency no_latency add_latency mean s (sums (r, rs)) ≡ sums (r, rs ++ s ∷ [])
  unfolding latencies
  sums-append r s rs =
      let longer : suc (length rs) + 1 ≡ suc (length (rs ++ s ∷ [])) =
        omega (arith, length-append rs (s ∷ [])) in
      rw (latencies-append (r ∷ rs) s no_latency) (
        ap
          (λ (n : ℕ). record (sums (r, rs)) {
            avg_latency =
                add_latency (latencies no_latency (r ∷ rs)) (latency s.start_time s.end_time);
            request_per_sec = n;
          })
          longer)

  abbrev open_sums : Option Group → Option (ServiceStat D)
  open_sums none = none
  open_sums (some g) = some (sums g)

  abbrev pub closing : Option (ServiceStat D) → List (ServiceStat D)
  closing none = []
  closing (some s) = close_stat no_latency add_latency mean s ∷ []

  -- The runs of what is to come, behind a run that is not over.
  abbrev resume : Option Group → List Group → List Group
  resume none gs = gs
  resume (some g) gs = attach g gs

  abbrev pub named : Bytes → Option (ServiceStat D) → List (Bytes × ServiceStat D)
  named name none = []
  named name (some s) = (name, s) ∷ []

  -- The seconds that a sequence of requests closes, and the entries that it leaves.
  unfoldable pub count_all :
      List (Bytes × RequestData)
      → List (Bytes × ServiceStat D)
      → List (Bytes × ServiceStat D) × List (Bytes × ServiceStat D)
  unfolding count_request
  count_all [] cur = (cur, [])
  count_all ((name, r) ∷ rs) cur =
      let (cur', closed) = count_request no_latency add_latency mean name r cur in
      let (cur'', rest) = count_all rs cur' in (cur'', named name closed ++ rest)

  -- What one request does to the run of its service.
  abbrev grow : RequestData → Option Group → Option Group × List Group
  grow r none = (some (r, []), [])
  grow r (some (s, ss)) =
      if second r == second s then (some (s, ss ++ r ∷ []), []) else (some (r, []), (s, ss) ∷ [])

  resume-grow :
      (r : RequestData) (o : Option Group) (gs : List Group)
      → (grow r o).1 ++ resume (grow r o).0 gs ≡ resume o (attach (r, []) gs)
  resume-grow r none gs = refl
  resume-grow r (some (s, ss)) gs = elim (Bool-cases (second r == second s)) [
    | inl e ↦ rw e (sym (attach-same s r ss gs e))
    | inr e ↦ rw e (sym (attach-other s r ss gs e))
  ]

  abbrev listed : Option (ServiceStat D) → List (ServiceStat D)
  listed none = []
  listed (some s) = s ∷ []

  abbrev before : RequestData → Option Group → ServiceStat D
  before r none = empty_stat no_latency add_latency mean (second r)
  before r (some g) = sums g

  -- The entry that a request leaves, and what it closes, are those of the run it grows.
  record Grown (r : RequestData) (o : Option Group) : Type 0 where
    left : some (count_in no_latency add_latency mean r (before r o)).0 ≡ open_sums (grow r o).0
    closed :
        listed (count_in no_latency add_latency mean r (before r o)).1 ≡ map summary (grow r o).1

  count_in-Grown : (r : RequestData) (o : Option Group) → Grown r o
  unfolding latencies
  count_in-Grown r none =
      let same : (second r == second r) ≡ true = ground arith in
      record { left = rw same refl; closed = rw same refl }
  count_in-Grown r (some (s, ss)) = elim (Bool-cases (second r == second s)) [
    | inl e ↦ record { left = rw e (ap some (sums-append s r ss)); closed = rw e refl }
    | inr e ↦ record { left = rw e refl; closed = rw e refl }
  ]

  of_name-named :
      (n name : Bytes) (c : Option (ServiceStat D)) (rest : List (Bytes × ServiceStat D))
      → of_name name (named n c ++ rest)
        ≡ (if bytes_eq n name then listed c else []) ++ of_name name rest
  unfolding of_name
  of_name-named n name none rest = ground arith
  of_name-named n name (some s) rest = ground arith

  lookup-current :
      (name : Bytes) (r : RequestData) (cur : List (Bytes × ServiceStat D)) (o : Option Group)
      → lookup name cur ≡ open_sums o
      → current no_latency add_latency mean name r cur ≡ before r o
  lookup-current name r cur none h = ap (λ q. elim q [ none ↦ before r none | some s ↦ s ]) h
  lookup-current name r cur (some g) h = ap (λ q. elim q [ none ↦ before r none | some s ↦ s ]) h

  -- A request of the service itself.
  count_own :
      (name : Bytes) (r : RequestData) (cur : List (Bytes × ServiceStat D)) (o : Option Group)
      → lookup name cur ≡ open_sums o
      → (lookup name (count_request no_latency add_latency mean name r cur).0
          ≡ open_sums (grow r o).0)
        × (listed (count_request no_latency add_latency mean name r cur).1
            ≡ map summary (grow r o).1)
  unfolding count_request
  count_own name r cur o h =
      let both = count_in-Grown r o in
      rw (lookup-current name r cur o h) (
        rw
            (
              lookup-insert name name (count_in no_latency add_latency mean r (before r o)).0 cur,
              bytes_eq_refl name,
            )
            both.left,
        both.closed,
      )

  closing-open : (o : Option Group) → closing (open_sums o) ≡ map summary (resume o [])
  unfolding attach
  closing-open none = refl
  closing-open (some (r, rs)) = refl

  -- What `count_all` gives for one service.
  abbrev pub whole :
      Bytes → List (Bytes × ServiceStat D) × List (Bytes × ServiceStat D) → List (ServiceStat D)
  whole name (cur, closed) = of_name name closed ++ closing (lookup name cur)

  count_all-cons :
      (n name : Bytes) (r : RequestData) (rs : List (Bytes × RequestData))
      (cur : List (Bytes × ServiceStat D))
      → whole name (count_all ((n, r) ∷ rs) cur)
        ≡ (if bytes_eq n name
            then listed (count_request no_latency add_latency mean n r cur).1
            else [])
          ++ whole name (count_all rs (count_request no_latency add_latency mean n r cur).0)
  unfolding count_all
  count_all-cons n name r rs cur =
      let (cur', closed) = count_request no_latency add_latency mean n r cur in
      rw (of_name-named n name closed (count_all rs cur').1)
        (append_assoc (if bytes_eq n name then listed closed else []) _ _)

  -- A request of another service.
  count_other :
      (n name : Bytes) (r : RequestData) (cur : List (Bytes × ServiceStat D))
      → bytes_eq n name ≡ false
      → lookup name (count_request no_latency add_latency mean n r cur).0 ≡ lookup name cur
  unfolding count_request
  count_other n name r cur e =
      rw
        (
          lookup-insert n name
              (count_in no_latency add_latency mean r
                (current no_latency add_latency mean n r cur)).0
              cur,
          e,
        )
        refl

  count_all-nil :
      (name : Bytes) (cur : List (Bytes × ServiceStat D)) (o : Option Group)
      → lookup name cur ≡ open_sums o
      → whole name (count_all [] cur) ≡ map summary (resume o [])
  unfolding count_all of_name
  count_all-nil name cur o h = ap closing h ∙ closing-open o

  pub count_all-resume :
      (rs : List (Bytes × RequestData)) (name : Bytes) (cur : List (Bytes × ServiceStat D))
      (o : Option Group)
      → lookup name cur ≡ open_sums o
      → whole name (count_all rs cur) ≡ map summary (resume o (runs (of_name name rs)))
  unfolding of_name runs
  count_all-resume [] name cur o h = count_all-nil name cur o h
  count_all-resume ((n, r) ∷ rs) name cur o h = elim (Bool-cases (bytes_eq n name)) [
    | inl e ↦
        let same = (bytes_eq_iff n name).0 e in
        let (kept, closed) =
          count_own n r cur o (subst (λ m. lookup m cur ≡ open_sums o) (sym same) h) in
        count_all-cons n name r rs cur
        ∙ rw
            (
              e,
              closed,
              count_all-resume rs name (count_request no_latency add_latency mean n r cur).0
                  (grow r o).0
                  (subst
                    (λ m.
                      lookup m (count_request no_latency add_latency mean n r cur).0
                      ≡ open_sums (grow r o).0)
                    same kept),
            )
            (sym (map-append summary (grow r o).1 (resume (grow r o).0 (runs (of_name name rs))))
              ∙ ap (map summary) (resume-grow r o (runs (of_name name rs))))
    | inr e ↦
        count_all-cons n name r rs cur
        ∙ rw e (
            count_all-resume rs name (count_request no_latency add_latency mean n r cur).0 o
              (count_other n name r cur e ∙ h))
  ]
