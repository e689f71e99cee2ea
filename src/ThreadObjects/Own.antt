-- ===== src/ThreadObjects/Own.antt =====
-- Each thread has one object, which no other thread gets.
use fiberproxy.Prelude.{
  ℕ, ◌*◌, ◌%◌, ◌^◌, ◌<◌, Bool, true, false, List, [], ◌∷◌, ◌++◌, Option, none, some, if◌then◌else◌,
  ◌==◌, ltb, length, get_or, lookup, nat_key, ◌≡◌, refl, ap, sym, ◌∙◌, subst, arith, Bool-cases,
  inl, inr, ◌↔◌, ==_iff, lt→ltb, all, length-set, length-replicate, get_or-set, get_or-replicate,
}
use native.Mathlib.Nat.{mod-lt}
use fiberproxy.ThreadObjects.{
  ThreadObjects, prime_list, lower_bound_or_last, cal_next_prime, init, new_objects, bucket_index,
  bucket, found_or_new, in_bucket, get_thread_obj, get_all,
}

module _ (hash : ℕ → ℕ) where
  -- the object of a thread, as a search would find it
  abbrev pub object : ThreadObjects → ℕ → Option ℕ
  object s t = lookup t (bucket hash (bucket_index hash t (length s.obj_list)) s)

  lookup-append :
      (t u o : ℕ) (b : List (ℕ × ℕ))
      → lookup t b ≡ none
      → lookup u (b ++ ((t, o) ∷ [])) ≡ (if t == u then some o else lookup u b)
  unfolding lookup
  lookup-append t u o [] h = refl
  lookup-append t u o ((c, w) ∷ b) h = ground (arith, lookup-append t u o b)

  -- The objects are told apart, and numbers that were not given are new.
  pub record Distinct (s : ThreadObjects) : Type 0 where
    pub some_buckets : 0 < length s.obj_list
    pub given : (t o : ℕ) → object s t ≡ some o → o < s.next
    pub apart : (t u o : ℕ) → object s t ≡ some o → object s u ≡ some o → t ≡ u

  -- What a call changes: the caller has the object, and the others what they had.
  pub record Got (t : ℕ) (s : ThreadObjects) (o : ℕ) (new : ThreadObjects) : Type 0 where
    pub got : get_thread_obj hash t s ≡ some (o, new)
    pub objects : (u : ℕ) → object new u ≡ (if t == u then some o else object s u)
    pub distinct : Distinct new
    pub old : (p : ℕ) → object s t ≡ some p → o ≡ p

  index_lt : (t n : ℕ) → 0 < n → bucket_index hash t n < n
  index_lt t n h = mod-lt (hash t) h

  module _ (s : ThreadObjects) (d : Distinct s) (t : ℕ) where
    abbrev index : ℕ
    index = bucket_index hash t (length s.obj_list)

    abbrev grown : ThreadObjects
    grown = (found_or_new hash t index none s).1

    object-grown_at :
        (u j : ℕ)
        → j < length s.obj_list
        → (t ≡ u → index ≡ j)
        → lookup t (bucket hash index s) ≡ none
        → lookup u (get_or grown.obj_list j [])
          ≡ (if t == u then some s.next else lookup u (bucket hash j s))
    object-grown_at u j small same e =
        rw (get_or-set s.obj_list index j (bucket hash index s ++ ((t, s.next) ∷ [])) [] small)
          (elim (Bool-cases (index == j)) [
            | inl here ↦ rw here (
                subst
                  (λ k.
                    lookup u (bucket hash index s ++ ((t, s.next) ∷ []))
                    ≡ (if t == u then some s.next else lookup u (bucket hash k s)))
                  ((==_iff index j).0 here) (lookup-append t u s.next (bucket hash index s) e))
            | inr there ↦ rw there (others (t == u) refl there)
          ])
      where
        others :
            (b : Bool)
            → (t == u) ≡ b
            → (index == j) ≡ false
            → lookup u (bucket hash j s) ≡ (if b then some s.next else lookup u (bucket hash j s))
        others true p q = ground (arith, same)
        others false p q = refl

    object-grown :
        (u : ℕ) → object s t ≡ none → object grown u ≡ (if t == u then some s.next else object s u)
    object-grown u e =
        let same_length : length grown.obj_list ≡ length s.obj_list =
          length-set s.obj_list index (bucket hash index s ++ ((t, s.next) ∷ [])) in
        ap (λ n. lookup u (get_or grown.obj_list (hash u % n) [])) same_length
        ∙ object-grown_at u (bucket_index hash u (length s.obj_list))
            (index_lt u (length s.obj_list) d.some_buckets)
            (λ q. ap (λ v. bucket_index hash v (length s.obj_list)) q) e

    grown-Distinct : object s t ≡ none → Distinct grown
    grown-Distinct e = record {
      some_buckets =
          rw (length-set s.obj_list index (bucket hash index s ++ ((t, s.next) ∷ [])))
            d.some_buckets;
      given = λ u o h. ground (arith, object-grown u e, d.given u o);
      apart = λ u v o h k.
          ground
            (arith, object-grown u e, object-grown v e, d.apart u v o, d.given u o, d.given v o);
    }

    not_empty : (length s.obj_list == 0) ≡ false
    not_empty = ground (arith, d.some_buckets)

    found-Got :
        (r : Option ℕ)
        → object s t ≡ r
        → (o : ℕ) × (new : ThreadObjects) × (found_or_new hash t index r s ≡ (o, new))
          × ((u : ℕ) → object new u ≡ (if t == u then some o else object s u))
          × Distinct new
          × ((p : ℕ) → object s t ≡ some p → o ≡ p)
    found-Got none e = (s.next, grown, refl, λ u. object-grown u e, grown-Distinct e, λ p h. cc)
    found-Got (some o) e = (o, s, refl, λ u. ground (arith, e), d, λ p h. cc)

    get_thread_obj-Got : (o : ℕ) × (new : ThreadObjects) × Got t s o new
    unfolding get_thread_obj in_bucket
    get_thread_obj-Got =
        let (o, new, q, os, dn, old) = found-Got _ refl in
        (o, new, record { got = rw not_empty (ap some q); objects = os; distinct = dn; old = old })

  pub record Kept (us : List ℕ) (s new : ThreadObjects) : Type 0 where
    pub all_got : get_all hash us s ≡ some new
    pub distinct : Distinct new
    pub kept : (t o : ℕ) → object s t ≡ some o → object new t ≡ some o

  get_all-Kept :
      (us : List ℕ) (s : ThreadObjects) → Distinct s → (new : ThreadObjects) × Kept us s new
  unfolding get_all
  get_all-Kept [] s d = (s, record { all_got = refl; distinct = d; kept = λ t o h. h })
  get_all-Kept (u ∷ us) s d =
      let (o, s1, g) = get_thread_obj-Got s d u in
      let (s2, k) = get_all-Kept us s1 g.distinct in
      (
        s2,
        record {
          all_got = rw g.got k.all_got;
          distinct = k.distinct;
          kept = λ t p h. k.kept t p (keeps s1 o g t p h);
        },
      )
    where
      keeps :
          (s1 : ThreadObjects) (o : ℕ)
          → Got u s o s1
          → (t p : ℕ) → object s t ≡ some p
          → object s1 t ≡ some p
      keeps s1 o g t p h = g.objects t ∙ ground (arith, ==_iff u t, g.old p)

  lower_bound_or_last-positive :
      (ps : List ℕ) (n : ℕ) → 0 < n → all (ltb 0) ps ≡ true → 0 < lower_bound_or_last ps n
  unfolding lower_bound_or_last
  lower_bound_or_last-positive [] n h a = h
  lower_bound_or_last-positive (p ∷ []) n h a = ground arith
  lower_bound_or_last-positive (p ∷ q ∷ ps) n h a =
      ground (arith, lower_bound_or_last-positive (q ∷ ps) n h)

  cal_next_prime-positive : (n : ℕ) → 0 < n → n < 2 ^ 63 → 0 < cal_next_prime n
  unfolding cal_next_prime
  cal_next_prime-positive n h small =
      rw (lt→ltb 0 n h, lt→ltb n (2 ^ 63) small) (lower_bound_or_last-positive prime_list n h refl)

  object-init : (num t : ℕ) → object (init num new_objects) t ≡ none
  unfolding init lookup
  object-init num t = ap (lookup t) (
      get_or-replicate (cal_next_prime (num * 2 % 2 ^ 64))
        (bucket_index hash t (length (init num new_objects).obj_list)) [])

  init-length : (num : ℕ) → 0 < num → num < 2 ^ 62 → 0 < length (init num new_objects).obj_list
  unfolding init
  init-length num h small =
      subst (λ n. 0 < n)
        (sym (length-replicate {A = List (ℕ × ℕ)} (cal_next_prime (num * 2 % 2 ^ 64)) []))
        (cal_next_prime-positive (num * 2 % 2 ^ 64) (omega arith) (omega arith))

  init-Distinct : (num : ℕ) → 0 < num → num < 2 ^ 62 → Distinct (init num new_objects)
  init-Distinct num h small = record {
    some_buckets = init-length num h small;
    given = λ t o e. absurd (cc (e, object-init num t));
    apart = λ t u o e k. absurd (cc (e, object-init num t));
  }

  -- A call of `t`, some calls, and a call of `u`.
  pub record Owned (t u : ℕ) (between : List ℕ) (s : ThreadObjects) : Type 0 where
    pub mine : ℕ
    pub theirs : ℕ
    pub s1 : ThreadObjects
    pub s2 : ThreadObjects
    pub s3 : ThreadObjects
    pub first : get_thread_obj hash t s ≡ some (mine, s1)
    pub others : get_all hash between s1 ≡ some s2
    pub last : get_thread_obj hash u s2 ≡ some (theirs, s3)
    pub same_object : (theirs ≡ mine) ↔ (u ≡ t)

  -- From a manager that is made for fewer than 2^62 threads and at least one, whatever the hash:
  -- every call for the object of a thread returns one, and two calls return the same object exactly
  -- when they are of the same thread, whatever calls come before and between.
  pub get_thread_obj-Owned :
      (num : ℕ) (before between : List ℕ) (t u : ℕ)
      → 0 < num
      → num < 2 ^ 62
      → (s : ThreadObjects) × (get_all hash before (init num new_objects) ≡ some s)
        × Owned t u between s
  get_thread_obj-Owned num before between t u h small =
      let (s, k0) = get_all-Kept before (init num new_objects) (init-Distinct num h small) in
      let (o, s1, g) = get_thread_obj-Got s k0.distinct t in
      let (s2, k) = get_all-Kept between s1 g.distinct in
      let (p, s3, g3) = get_thread_obj-Got s2 k.distinct u in
      (
        s,
        k0.all_got,
        record {
          mine = o;
          theirs = p;
          s1 = s1;
          s2 = s2;
          s3 = s3;
          first = g.got;
          others = k.all_got;
          last = g3.got;
          same_object = compare_objects s s1 s2 s3 o p t u g k g3;
        },
      )
    where
      compare_objects :
          (s s1 s2 s3 : ThreadObjects) (o p t u : ℕ)
          → Got t s o s1
          → Kept between s1 s2
          → Got u s2 p s3
          → (p ≡ o) ↔ (u ≡ t)
      compare_objects s s1 s2 s3 o p t u g k g3 =
          let mine_kept : object s2 t ≡ some o =
            k.kept t o (g.objects t ∙ ground (arith, ==_iff t t)) in
          let theirs_now : object s3 u ≡ some p = g3.objects u ∙ ground (arith, ==_iff u u) in
          (
            λ e. ground (
              arith,
              e,
              g3.objects t,
              mine_kept,
              theirs_now,
              g3.distinct.apart u t p,
              ==_iff u t,
            ),
            λ e. g3.old o (ap (object s2) e ∙ mine_kept),
          )
