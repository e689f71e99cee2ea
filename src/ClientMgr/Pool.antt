-- ===== src/ClientMgr/Pool.antt =====
-- The HTTP clients of a thread: how many there are, and who has them.
use fiberproxy.Prelude.{
  ℕ, ◌+◌, ◌≤◌, List, [], ◌∷◌, ◌++◌, Option, none, some, Bytes, ◌≡◌, refl, ap, subst, arith, ◌==◌,
  ltb, bytes_eq_iff, if◌then◌else◌, Bool-cases, Option-cases, inl, inr, lookup, lookup_or, insert,
  bytes_key, Sorted, Sorted-insert, lookup-below, lookup-insert, get_or, ◌||◌, ◌⊎◌,
}
use fiberproxy.Types.{rpc_service, raw_service}
use fiberproxy.ClientMgr.{
  ClientMgr, max_client_num, free_clients, made, take_client, put_back, shared_client,
}

abbrev pub count : ℕ → List ℕ → ℕ
count c [] = 0
count c (x ∷ xs) = (if x == c then 1 else 0) + count c xs

count-append : (c : ℕ) (xs ys : List ℕ) → count c (xs ++ ys) ≡ count c xs + count c ys
count-append c [] ys = omega arith
count-append c (x ∷ xs) ys = omega (arith, count-append c xs ys)

-- How often the client stands in the pools.
abbrev pub pooled : ℕ → List (Bytes × List ℕ) → ℕ
pooled c [] = 0
pooled c ((id, l) ∷ m) = count c l + pooled c m

pooled-insert :
    (c : ℕ) (id : Bytes) (l : List ℕ) (m : List (Bytes × List ℕ))
    → Sorted m
    → pooled c (insert id l m) + count c (lookup_or id [] m) ≡ pooled c m + count c l
unfolding insert lookup
pooled-insert c id l [] s = omega arith
pooled-insert c id l ((k, w) ∷ m) s =
    ground (arith, pooled-insert c id l m s.1, lookup-below id k m s.0)

-- A client is in one place at most: once in a pool, or with one fiber, which has taken it. A client
-- that is still to be made is nowhere.
pub record Inv (m : ClientMgr) (taken : List ℕ) : Type 0 where
  pub sorted : Sorted m.http_client_pool_list
  pub once : (c : ℕ) → pooled c m.http_client_pool_list + count c taken ≤ 1
  pub fresh : (c : ℕ) → m.next_client ≤ c → pooled c m.http_client_pool_list + count c taken ≡ 0

-- The steps of the fibers of a thread: each takes a client or is refused, gives back one that it
-- has taken, or asks for a shared client.
pub data Step (m : ClientMgr) (taken : List ℕ) : ClientMgr → List ℕ → Type 0 where
  take :
      (id : Bytes) (c : ℕ) {n : ClientMgr}
      → take_client m id ≡ (n, some c)
      → Step m taken n (c ∷ taken)
  refused : (id : Bytes) {n : ClientMgr} → take_client m id ≡ (n, none) → Step m taken n taken
  give :
      (id : Bytes) (c : ℕ) (l r : List ℕ) {n : ClientMgr} {left : List ℕ}
      → taken ≡ l ++ c ∷ r
      → n ≡ put_back id c m
      → left ≡ l ++ r
      → Step m taken n left
  share :
      (id : Bytes) (type : ℕ) {n : ClientMgr}
      → n ≡ (shared_client m id type).0
      → Step m taken n taken

put_back-Inv :
    (m : ClientMgr) (id : Bytes) (c : ℕ) (l r : List ℕ)
    → Inv m (l ++ c ∷ r)
    → Inv (put_back id c m) (l ++ r)
unfolding put_back
put_back-Inv m id c l r v = record {
  sorted = Sorted-insert id _ m.http_client_pool_list v.sorted;
  once = λ d. omega (arith, moved d, v.once d);
  fresh = λ d h. omega (arith, moved d, v.fresh d h);
}
  where
    moved :
        (d : ℕ)
        → pooled d (put_back id c m).http_client_pool_list + count d (l ++ r)
          ≡ pooled d m.http_client_pool_list + count d (l ++ c ∷ r)
    moved d = omega (
      arith,
      pooled-insert d id (free_clients m id ++ c ∷ []) m.http_client_pool_list v.sorted,
      count-append d (free_clients m id) (c ∷ []),
      count-append d l r,
      count-append d l (c ∷ r),
    )

-- What `take_client` gives.
abbrev Taken : List ℕ → ClientMgr × Option ℕ → Type 0
Taken taken (m, none) = Inv m taken
Taken taken (m, some c) = Inv m (c ∷ taken)

take_client-Taken :
    (m : ClientMgr) (id : Bytes) (taken : List ℕ) (free : List ℕ)
    → free_clients m id ≡ free
    → Inv m taken
    → Taken taken (take_client m id)
unfolding take_client
take_client-Taken m id taken [] e v = elim (Bool-cases (ltb max_client_num (made m id))) [
  | inl many ↦
      rw (e, take_client) (rw many (record { sorted = v.sorted; once = v.once; fresh = v.fresh }))
  | inr few ↦
      rw (e, take_client)
        (rw few (record {
          sorted = v.sorted;
          once = λ d. ground (arith, v.once d, v.fresh d);
          fresh = λ d h. ground (arith, v.fresh d);
        }))
]
take_client-Taken m id taken (c ∷ rest) e v =
    rw (e, take_client)
      (record {
        sorted = Sorted-insert id rest m.http_client_pool_list v.sorted;
        once = λ d. omega (arith, got d, v.once d);
        fresh = λ d h. omega (arith, got d, v.fresh d h);
      })
  where
    got :
        (d : ℕ)
        → pooled d (insert id rest m.http_client_pool_list) + count d (c ∷ taken)
          ≡ pooled d m.http_client_pool_list + count d taken
    got d = omega (arith, pooled-insert d id rest m.http_client_pool_list v.sorted, ap (count d) e)

shared_client-Inv :
    (m : ClientMgr) (id : Bytes) (type : ℕ) (taken : List ℕ)
    → Inv m taken
    → Inv (shared_client m id type).0 taken
unfolding shared_client
shared_client-Inv m id type taken v =
    elim (Option-cases (lookup id (get_or m.client_pool_list type []))) [
      | inr (c, e) ↦ rw (e, shared_client) v
      | inl e ↦
          rw (e, shared_client)
            (elim (Bool-cases (type == rpc_service || type == raw_service)) [
              | inl made ↦ rw made (record {
                sorted = v.sorted;
                once = v.once;
                fresh = λ d h. v.fresh d (omega arith);
              })
              | inr other ↦ rw other v
            ])
    ]

Step-Inv : {m n : ClientMgr} {taken left : List ℕ} → Step m taken n left → Inv m taken → Inv n left
Step-Inv {m = m} {taken = taken} (take id c e) v =
    rw e at (take_client-Taken m id taken (free_clients m id) refl v)
Step-Inv {m = m} {taken = taken} (refused id e) v =
    rw e at (take_client-Taken m id taken (free_clients m id) refl v)
Step-Inv {m = m} (give id c l r e f g) v = rw (f, g) (put_back-Inv m id c l r (subst (Inv m) e v))
Step-Inv {m = m} {taken = taken} (share id type e) v = rw e (shared_client-Inv m id type taken v)

pub data Reach (m : ClientMgr) (taken : List ℕ) : ClientMgr → List ℕ → Type 0 where
  here : Reach m taken m taken
  next : {n o : ClientMgr} {l k : List ℕ} → Reach m taken n l → Step n l o k → Reach m taken o k

abbrev pub new_mgr : ClientMgr
new_mgr = record {
  client_pool_list = [] ∷ [] ∷ [] ∷ [] ∷ [];
  http_client_pool_list = [];
  client_num = [];
  next_client = 0;
  log = [];
}

Reach-Inv :
    {m : ClientMgr} {taken : List ℕ} {n : ClientMgr} {left : List ℕ}
    → Inv m taken
    → Reach m taken n left
    → Inv n left
Reach-Inv v here = v
Reach-Inv v (next r s) = Step-Inv s (Reach-Inv v r)

-- Whatever the fibers of a thread do from its start on, an HTTP client is in one place at most: it
-- is never in the hands of two fibers, nor in a pool while a fiber has it, nor in a pool twice.
pub Reach-once :
    {m : ClientMgr} {taken : List ℕ}
    → Reach new_mgr [] m taken
    → (c : ℕ) → pooled c m.http_client_pool_list + count c taken ≤ 1
Reach-once r =
    (Reach-Inv (record { sorted = tt; once = λ c. omega arith; fresh = λ c h. omega arith }) r).once

-- An HTTP request makes a client only for its own destination, and only while the destination has a
-- hundred or fewer: it never brings a destination above a hundred and one.
pub take_client-made :
    (m : ClientMgr) (id other : Bytes)
    → (made (take_client m id).0 other ≡ made m other)
      ⊎ ((id ≡ other)
          × (made m id ≤ max_client_num)
          × (made (take_client m id).0 other ≡ made m id + 1))
unfolding take_client
take_client-made m id other = ground (
  arith,
  lookup-insert id other (made m id) m.client_num,
  lookup-insert id other (made m id + 1) m.client_num,
  bytes_eq_iff id other,
)
