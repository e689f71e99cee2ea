-- ===== src/Driver/Gives.antt =====
-- What each part of the handling of a request adds to the answers under its number.
use fiberproxy.Prelude.{
  ℕ, ◌+◌, Bool, true, false, not, List, [], ◌∷◌, ◌++◌, Option, none, some, Bytes, codes, ◌≡◌, refl,
  arith, if◌then◌else◌, ◌==◌, ◌⊎◌, inl, inr,
}
use fiberproxy.Driver.{
  Driver, Invoked, threw, answered, deferred, Conn, put, write_rsp, write_error, invoke,
  after_invoke, after_invoke_async, handle_request_func, handle_request,
}

-- How often a number stands in the first components.
abbrev pub count : {A : Type 0} → ℕ → List (ℕ × A) → ℕ
count k [] = 0
count k ((n, a) ∷ l) = (if n == k then 1 else 0) + count k l

abbrev pub count_of : ℕ → List ℕ → ℕ
count_of k [] = 0
count_of k (n ∷ l) = (if n == k then 1 else 0) + count_of k l

count-append :
    {A : Type 0} (k : ℕ) (l : List (ℕ × A)) (n : ℕ) (a : A)
    → count k (l ++ (n, a) ∷ []) ≡ count k l + (if n == k then 1 else 0)
count-append k [] n a = omega arith
count-append k ((m, b) ∷ l) n a = omega (arith, count-append k l n a)

-- The answers under a number, given or to come.
abbrev pub owed : {V R : Type 0} → ℕ → Conn V R → ℕ
owed k c = count k c.sent + count k c.queued + count k c.waiting

module _ {V R H : Type 0} (d : Driver V R H) (pooled : Bool) where
  -- One answer more under a number, and the loop as it was.
  pub record Gives (n : ℕ) (c e : Conn V R) : Type 0 where
    pub owes : (k : ℕ) → owed k e ≡ owed k c + (if n == k then 1 else 0)
    pub same : e.receiving ≡ c.receiving

  put-Gives : (n : ℕ) (r : R) (c : Conn V R) → Gives n c (put d n r c)
  put-Gives n r c = record {
    owes = λ k. omega (arith, count-append k c.sent n (d.write r));
    same = refl;
  }

  pub write_rsp-Gives : (n : ℕ) (v : V) (r : R) (c : Conn V R) → Gives n c (write_rsp d n v r c)
  unfolding write_rsp
  write_rsp-Gives n v r c = put-Gives n (d.add_total_time v r) c

  pub write_error-Gives : (n : ℕ) (m : Bytes) (c : Conn V R) → Gives n c (write_error d n m c)
  unfolding write_error
  write_error-Gives n m c = put-Gives n (d.add_error m d.new_response) c

  waiting-Gives :
      (n : ℕ) (v : V) (r : R) (c : Conn V R)
      → Gives n c (record c { waiting = c.waiting ++ (n, (v, r)) ∷ [] })
  waiting-Gives n v r c = record {
    owes = λ k. omega (arith, count-append k c.waiting n (v, r));
    same = refl;
  }

  queued-Gives :
      (n : ℕ) (v : V) (c : Conn V R) → Gives n c (record c { queued = c.queued ++ (n, v) ∷ [] })
  queued-Gives n v c = record {
    owes = λ k. omega (arith, count-append k c.queued n v);
    same = refl;
  }

  after_invoke-Gives :
      (n : ℕ) (v : V) (o : R × Option Bytes) (c : Conn V R) → Gives n c (after_invoke d n v o c)
  unfolding after_invoke
  after_invoke-Gives n v (r, none) c = write_rsp-Gives n v (d.add_process_time v r) c
  after_invoke-Gives n v (r, some what) c = write_rsp-Gives n v (d.add_error what r) c

  after_invoke_async-Gives :
      (n : ℕ) (v : V) (o : R × Invoked) (c : Conn V R) → Gives n c (after_invoke_async d n v o c)
  unfolding after_invoke_async
  after_invoke_async-Gives n v (r, threw what) c = write_rsp-Gives n v (d.add_error what r) c
  after_invoke_async-Gives n v (r, answered) c = write_rsp-Gives n v r c
  after_invoke_async-Gives n v (r, deferred) c = waiting-Gives n v r c

  Gives-if :
      (n : ℕ) (b : Bool) {c x y : Conn V R}
      → Gives n c x
      → Gives n c y
      → Gives n c (if b then x else y)
  Gives-if n true gx gy = gx
  Gives-if n false gx gy = gy

  invoke-Gives : (n : ℕ) (v : V) (h : H) (c : Conn V R) → Gives n c (invoke d n v h c)
  unfolding invoke
  invoke-Gives n v h c =
      Gives-if n (not (d.is_async h)) (after_invoke-Gives n _ (d.invoke h _ _) c)
        (after_invoke_async-Gives n _ (d.invoke_async h _ _) c)

  pub handle_request_func-Gives :
      (n : ℕ) (v : V) (c : Conn V R) → Gives n c (handle_request_func d n v c)
  unfolding handle_request_func
  handle_request_func-Gives n v c = go (d.find (d.controller v) (d.action v))
    where
      go :
          (o : Option H)
          → Gives n c (elim o [
            | none ↦ write_rsp d n v (d.add_error (codes "Handler not found") d.new_response) c
            | some h ↦ invoke d n v h c
          ])
      go none = write_rsp-Gives n v (d.add_error (codes "Handler not found") d.new_response) c
      go (some h) = invoke-Gives n v h c

  pub handle_request-Gives :
      (n : ℕ) (payload : Bytes) (c : Conn V R) → Gives n c (handle_request d pooled n payload c)
  unfolding handle_request
  handle_request-Gives n payload c = go (d.read payload)
    where
      go :
          (o : Bytes ⊎ V)
          → Gives n c (elim o [
            | inl messages ↦ write_error d n messages c
            | inr v ↦
                if not (d.is_object v)
                then write_error d n (codes "Malformed request: require an object as input.") c
                else if pooled
                then record c { queued = c.queued ++ (n, v) ∷ [] }
                else handle_request_func d n v c
          ])
      go (inl messages) = write_error-Gives n messages c
      go (inr v) =
          Gives-if n (not (d.is_object v)) (write_error-Gives n _ c)
            (Gives-if n pooled (queued-Gives n v c) (handle_request_func-Gives n v c))
