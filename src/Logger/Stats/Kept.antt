-- ===== src/Logger/Stats/Kept.antt =====
-- sendLogToDB in FibpLogger.cpp: how much the statistics keep.
use fiberproxy.Prelude.{
  ℕ, suc, ◌+◌, ◌-◌, ◌^◌, ◌≤◌, ◌<◌, true, false, List, [], ◌∷◌, ◌++◌, Option, none, some, Bytes, ◌≡◌,
  refl, sym, subst, ◌∙◌, arith, if◌then◌else◌, Bool-cases, inl, inr, length, length-append, lookup,
  lookup_or, insert, lookup-insert, bytes_key, bytes_eq, bytes_eq_iff, bytes_eq_refl,
}
use fiberproxy.Logger.Stats.{
  ServiceStat, ServiceStatMap, Stats, clear_all, is_old, push_kept, swap_stats,
}

abbrev pub kept_of : {D : Type 0} → Bytes → ServiceStatMap D → List (ServiceStat D)
kept_of name m = lookup_or name [] m

lookup_or-clear_all :
    {D : Type 0} (name : Bytes) (m : ServiceStatMap D) → kept_of name (clear_all m) ≡ []
unfolding clear_all lookup
lookup_or-clear_all name [] = refl
lookup_or-clear_all name ((n, s) ∷ m) = ground (arith, lookup_or-clear_all name m)

-- Each entry took a second of its own since the front, up to the second `now`.
abbrev pub Spread : {D : Type 0} → List (ServiceStat D) → ℕ → Type 0
Spread [] now = Unit
Spread (front ∷ kept) now = (front.timestamp + suc (length kept) ≤ now) × (length kept ≤ 10)

abbrev pub SpreadBefore : {D : Type 0} → List (ServiceStat D) → Option (ServiceStat D) → Type 0
SpreadBefore kept none = kept ≡ []
SpreadBefore kept (some s) = Spread kept s.timestamp × (s.timestamp < 2 ^ 64)

-- What is kept of one service, and what the readers see of it.
pub record Small {D : Type 0} (t : Stats D) (name : Bytes) : Type 0 where
  pub kept : SpreadBefore (kept_of name t.service_stats) (lookup name t.cur_time_stats)
  pub recent : length (kept_of name t.recent_service_stats) ≤ 12

pub Spread-bound :
    {D : Type 0} (kept : List (ServiceStat D)) (now : ℕ) → Spread kept now → length kept ≤ 11
Spread-bound [] now h = omega arith
Spread-bound (front ∷ kept) now h = omega (arith, h)

-- An entry of an earlier second than the front is taken for an old one, since the difference wraps.
is_old_earlier :
    {D : Type 0} (s front : ServiceStat D) (kept : List (ServiceStat D))
    → s.timestamp < front.timestamp
    → front.timestamp < 2 ^ 63
    → is_old s (front ∷ kept) ≡ true
is_old_earlier s front kept h b = ground (arith, h, b)

pub Spread-push :
    {D : Type 0} (kept : List (ServiceStat D)) (s : ServiceStat D) (now : ℕ)
    → Spread kept s.timestamp
    → s.timestamp < now
    → now < 2 ^ 64
    → is_old s kept ≡ false
    → Spread (kept ++ s ∷ []) now
Spread-push [] s now h l b o = (omega (arith, l), omega arith)
Spread-push (front ∷ kept) s now h l b o =
    let young : s.timestamp - front.timestamp ≤ 10 = ground (arith, h, l, b, o) in
    (
      omega (arith, length-append kept (s ∷ []), h, l),
      omega (arith, length-append kept (s ∷ []), h, young),
    )

pub SpreadBefore-bound :
    {D : Type 0} (kept : List (ServiceStat D)) (o : Option (ServiceStat D))
    → SpreadBefore kept o
    → length kept ≤ 11
SpreadBefore-bound kept none h = rw h (omega arith)
SpreadBefore-bound kept (some s) h = Spread-bound kept s.timestamp h.0

kept_of-insert :
    {D : Type 0} (n name : Bytes) (kept : List (ServiceStat D)) (m : ServiceStatMap D)
    → kept_of name (insert n kept m) ≡ (if bytes_eq n name then kept else kept_of name m)
kept_of-insert n name kept m = ground (arith, lookup-insert n name kept m)

-- Nothing is kept behind a swap.
SpreadBefore-none :
    {D : Type 0} (o : Option (ServiceStat D)) (kept : List (ServiceStat D))
    → SpreadBefore kept o
    → SpreadBefore [] o
SpreadBefore-none none kept h = refl
SpreadBefore-none (some s) kept h = (tt, h.1)

-- The entries of the seconds behind the one of a service.
abbrev pub Entries :
    {D : Type 0} → Bytes → ServiceStat D → Stats D → List (Bytes × ServiceStat D) → Type 0
Entries n s t cur =
    (name : Bytes)
    → lookup name cur ≡ (if bytes_eq n name then some s else lookup name t.cur_time_stats)

-- To prove a fact of every service, it is enough to prove it of `n`, and of those with another name.
each_name :
    {P : Bytes → Type 0} (n : Bytes)
    → P n
    → ((name : Bytes) → bytes_eq n name ≡ false → P name)
    → (name : Bytes) → P name
each_name {P = P} n own other name = elim (Bool-cases (bytes_eq n name)) [
  | inl e ↦ subst P ((bytes_eq_iff n name).0 e) own
  | inr e ↦ other name e
]

module _ {D : Type 0} (n : Bytes) (s c : ServiceStat D) (t : Stats D)
    (cur : List (Bytes × ServiceStat D)) where
  counted_own : Entries n s t cur → lookup n cur ≡ some s
  counted_own h = h n ∙ rw (bytes_eq_refl n) refl

  counted_other :
      (name : Bytes)
      → bytes_eq n name ≡ false
      → Entries n s t cur
      → lookup name cur ≡ lookup name t.cur_time_stats
  counted_other name e h = h name ∙ rw e refl

  abbrev moved : Stats D
  moved = record t { cur_time_stats = cur }

  pub unpushed-Small :
      Entries n s t cur
      → ((name : Bytes) → Small t name)
      → SpreadBefore (kept_of n t.service_stats) (some s)
      → (name : Bytes) → Small moved name
  unpushed-Small h small own =
      each_name n
        (record {
          kept = subst (SpreadBefore (kept_of n t.service_stats)) (sym (counted_own h)) own;
          recent = (small n).recent;
        })
        (λ name e. record {
          kept =
              subst (SpreadBefore (kept_of name t.service_stats)) (sym (counted_other name e h))
                (small name).kept;
          recent = (small name).recent;
        })

  kept_own : kept_of n (push_kept n c moved).service_stats ≡ kept_of n t.service_stats ++ c ∷ []
  kept_own = kept_of-insert n n _ t.service_stats ∙ rw (bytes_eq_refl n) refl

  kept_other :
      (name : Bytes)
      → bytes_eq n name ≡ false
      → kept_of name (push_kept n c moved).service_stats ≡ kept_of name t.service_stats
  kept_other name e = kept_of-insert n name _ t.service_stats ∙ rw e refl

  pub young-Small :
      Entries n s t cur
      → ((name : Bytes) → Small t name)
      → SpreadBefore (kept_of n t.service_stats ++ c ∷ []) (some s)
      → (name : Bytes) → Small (push_kept n c moved) name
  young-Small h small own =
      each_name n (record { kept = rw (kept_own, counted_own h) own; recent = (small n).recent })
        (λ name e. record {
          kept = rw (kept_other name e, counted_other name e h) (small name).kept;
          recent = (small name).recent;
        })

  pub old-Small :
      Entries n s t cur
      → ((name : Bytes) → Small t name)
      → length (kept_of n t.service_stats) ≤ 11
      → s.timestamp < 2 ^ 64
      → (name : Bytes) → Small (swap_stats (push_kept n c moved)) name
  old-Small h small few b =
      each_name n
        (record {
          kept = rw (lookup_or-clear_all n t.recent_service_stats, counted_own h) (tt, b);
          recent =
              rw kept_own (omega (arith, length-append (kept_of n t.service_stats) (c ∷ []), few));
        })
        (λ name e. record {
          kept =
              rw (lookup_or-clear_all name t.recent_service_stats, counted_other name e h)
                (SpreadBefore-none (lookup name t.cur_time_stats) (kept_of name t.service_stats)
                  (small name).kept);
          recent = rw (kept_other name e) (
              omega (
                arith,
                SpreadBefore-bound (kept_of name t.service_stats) (lookup name t.cur_time_stats)
                    (small name).kept,
              ));
        })
