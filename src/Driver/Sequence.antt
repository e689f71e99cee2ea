-- ===== src/Driver/Sequence.antt =====
-- Each form of a driver connection is answered under its own sequence number, once.
use fiberproxy.Prelude.{
  ℕ, ◌+◌, Bool, true, false, ◌||◌, not, List, [], ◌∷◌, Bytes, codes, ◌≡◌, refl, ap, ◌∙◌, arith,
  if◌then◌else◌, ◌==◌, ltb, ◌⊎◌, inl, inr, Bool-cases,
}
use fiberproxy.Driver.{
  Driver, Conn, Form, no_header, form, limit_size, shutdown_receive, write_rsp, write_error,
  handle_request_func, handle_request, start, run_queued, finish_waiting,
}
use fiberproxy.Driver.Gives.{
  count_of, owed, Gives, write_rsp-Gives, write_error-Gives, handle_request_func-Gives,
  handle_request-Gives,
}

-- The reading fiber has a form, a fiber of the pool takes a request, or a handler has its response.
pub data Event (R : Type 0) : Type 0 where
  arrive : Form → Event R
  task : Event R
  finish : R → Event R

-- The sequence numbers that are to be answered, up to the form that ends the loop.
abbrev pub accepted : List Form → List ℕ
accepted [] = []
accepted (no_header message ∷ forms) = 0 ∷ []
accepted (form sequence size payload ∷ forms) =
    let rest = accepted forms in
    if sequence == 0 || size == 0
    then []
    else sequence
      ∷ (if ltb limit_size size then [] else elim payload [ inl message ↦ [] | inr bytes ↦ rest ])

abbrev pub forms_of : {R : Type 0} → List (Event R) → List Form
forms_of [] = []
forms_of (arrive f ∷ events) = f ∷ forms_of events
forms_of (task ∷ events) = forms_of events
forms_of (finish r ∷ events) = forms_of events

module _ {V R H : Type 0} (d : Driver V R H) (pooled : Bool) where
  unfoldable pub happen : Event R → Conn V R → Conn V R
  happen (arrive f) c = if c.receiving then start d pooled (f ∷ []) c else c
  happen task c = run_queued d c
  happen (finish r) c = finish_waiting d r c

  unfoldable pub run : List (Event R) → Conn V R → Conn V R
  run [] c = c
  run (e ∷ events) c = run events (happen e c)

  abbrev is_failed : Bytes ⊎ Bytes → Bool
  is_failed (inl message) = true
  is_failed (inr bytes) = false

  -- whether a form ends the loop
  abbrev ends_loop : Form → Bool
  ends_loop (no_header message) = true
  ends_loop (form sequence size payload) =
      (sequence == 0 || size == 0) || ltb limit_size size || is_failed payload

  record Adds (ns : List ℕ) (go : Bool) (c e : Conn V R) : Type 0 where
    adds : (k : ℕ) → owed k e ≡ owed k c + count_of k ns
    loops : e.receiving ≡ go

  shutdown_receive-Adds :
      (n : ℕ) {c e : Conn V R} → Gives d pooled n c e → Adds (n ∷ []) false c (shutdown_receive e)
  shutdown_receive-Adds n g = record { adds = λ k. omega (arith, g.owes k); loops = refl }

  Gives-Adds :
      (n : ℕ) {c e : Conn V R} → c.receiving ≡ true → Gives d pooled n c e → Adds (n ∷ []) true c e
  Gives-Adds n r g = record { adds = λ k. omega (arith, g.owes k); loops = g.same ∙ r }

  start-Adds :
      (f : Form) (c : Conn V R)
      → c.receiving ≡ true
      → Adds (accepted (f ∷ [])) (not (ends_loop f)) c (start d pooled (f ∷ []) c)
  unfolding start
  start-Adds (no_header message) c r =
      shutdown_receive-Adds 0 (write_error-Gives d pooled 0 message c)
  start-Adds (form n size payload) c r = go (n == 0 || size == 0) (ltb limit_size size) payload
    where
      go :
          (z big : Bool) (o : Bytes ⊎ Bytes)
          → Adds
              (if z then [] else n ∷ (if big then [] else elim o [ inl m ↦ [] | inr b ↦ [] ]))
              (not (z || big || is_failed o))
              c
              (if z
                then shutdown_receive c
                else if big
                then shutdown_receive (write_error d n (codes "Size exceeds limit.") c)
                else elim o [
                  | inl m ↦ shutdown_receive (write_error d n m c)
                  | inr b ↦ handle_request d pooled n b c
                ])
      go true big o = record { adds = λ k. omega arith; loops = refl }
      go false true o = shutdown_receive-Adds n (write_error-Gives d pooled n _ c)
      go false false (inl m) = shutdown_receive-Adds n (write_error-Gives d pooled n m c)
      go false false (inr b) = Gives-Adds n r (handle_request-Gives d pooled n b c)

  -- A task of the pool, or the answer of a handler that waited, moves a number.
  record Moves (c e : Conn V R) : Type 0 where
    owes : (k : ℕ) → owed k e ≡ owed k c
    same : e.receiving ≡ c.receiving

  run_queued-Moves : (c : Conn V R) → Moves c (run_queued d c)
  unfolding run_queued
  run_queued-Moves c = go c.queued refl
    where
      go :
          (l : List (ℕ × V))
          → c.queued ≡ l
          → Moves c (elim l [
            | [] ↦ c
            | (n, v) ∷ rest ↦ handle_request_func d n v (record c { queued = rest })
          ])
      go [] e = record { owes = λ k. refl; same = refl }
      go ((n, v) ∷ rest) e =
          let g = handle_request_func-Gives d pooled n v (record c { queued = rest }) in
          record { owes = λ k. rw e (omega (arith, g.owes k)); same = g.same }

  finish_waiting-Moves : (r : R) (c : Conn V R) → Moves c (finish_waiting d r c)
  unfolding finish_waiting
  finish_waiting-Moves r c = go c.waiting refl
    where
      go :
          (l : List (ℕ × (V × R)))
          → c.waiting ≡ l
          → Moves c (elim l [
            | [] ↦ c
            | (n, (v, old)) ∷ rest ↦ write_rsp d n v r (record c { waiting = rest })
          ])
      go [] e = record { owes = λ k. refl; same = refl }
      go ((n, (v, old)) ∷ rest) e =
          let g = write_rsp-Gives d pooled n v r (record c { waiting = rest }) in
          record { owes = λ k. rw e (omega (arith, g.owes k)); same = g.same }

  accepted-cons :
      (f : Form) (fs : List Form) (k : ℕ)
      → count_of k (accepted (f ∷ fs))
        ≡ count_of k (accepted (f ∷ [])) + (if ends_loop f then 0 else count_of k (accepted fs))
  accepted-cons (no_header message) fs k = omega arith
  accepted-cons (form n size (inl m)) fs k = ground arith
  accepted-cons (form n size (inr b)) fs k = ground arith

  arrive-open :
      (f : Form) (c : Conn V R)
      → c.receiving ≡ true
      → happen (arrive f) c ≡ start d pooled (f ∷ []) c
  unfolding happen
  arrive-open f c e = ap (λ b. if b then start d pooled (f ∷ []) c else c) e

  arrive-closed : (f : Form) (c : Conn V R) → c.receiving ≡ false → happen (arrive f) c ≡ c
  unfolding happen
  arrive-closed f c e = ap (λ b. if b then start d pooled (f ∷ []) c else c) e

  -- Whatever the reading fiber, the fibers of the pool and the handlers that wait do, in any order:
  -- the answers under a sequence number that are written, with those that the pool or a handler
  -- owes, are as many as before and one for each form with that number that was accepted, up to the
  -- form that ended the loop.
  pub run-owed :
      (k : ℕ) (events : List (Event R)) (c : Conn V R)
      → owed k (run events c)
        ≡ owed k c + (if c.receiving then count_of k (accepted (forms_of events)) else 0)
  unfolding run happen
  run-owed k [] c = ground arith
  run-owed k (arrive f ∷ events) c = elim (Bool-cases c.receiving) [
    | inl e ↦
        let a = start-Adds f c e in
        ap (λ x. owed k (run events x)) (arrive-open f c e)
        ∙ run-owed k events (start d pooled (f ∷ []) c)
        ∙ ground (arith, a.adds k, a.loops, accepted-cons f (forms_of events) k, e)
    | inr e ↦
        ap (λ x. owed k (run events x)) (arrive-closed f c e)
        ∙ run-owed k events c
        ∙ ground (arith, e)
  ]
  run-owed k (task ∷ events) c =
      let m = run_queued-Moves c in run-owed k events (run_queued d c) ∙ rw (m.same, m.owes k) refl
  run-owed k (finish r ∷ events) c =
      let m = finish_waiting-Moves r c in
      run-owed k events (finish_waiting d r c) ∙ rw (m.same, m.owes k) refl
