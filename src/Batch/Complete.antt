-- ===== src/Batch/Complete.antt =====
-- Every call of a batch is made once, whatever the order in which the fibers end.
use fiberproxy.Prelude.{
  ℕ, zero, suc, ◌+◌, ◌<◌, Bool, Bytes, true, false, ◌&&◌, not, List, [], ◌∷◌, ◌≡◌, ◌≢◌, ◌⊎◌, inl,
  inr, refl, sym, ap, ◌∙◌, subst, arith, ◌==◌, ==_iff, ltb, lt→ltb, if◌then◌else◌, Bool-cases, All,
  length, set, length-set, get_elem?-set_self, get_elem?-set_ne,
}
use fiberproxy.Types.{ServiceCallReq, ServiceCallRsp}
use fiberproxy.Remote.{Remote}
use fiberproxy.ForwardManager.{local_test}
use fiberproxy.ForwardManager.Outcome.{Fresh, Ends, call_single_service-Ends}
use fiberproxy.Batch.{
  Batch, Task, slot, request, resize, call_slot, run_task, wait_all, call_all, transact, all_http,
  call_services_in_fiber,
}

abbrev pub starts : ℕ → List Task → ℕ
starts i [] = 0
starts i (t ∷ ts) = (if t.index == i then 1 else 0) + starts i ts

-- Each of the `n` fibers ends once.
pub record IsSchedule (n : ℕ) (ts : List Task) : Type 0 where
  pub sized : length ts ≡ n
  pub in_range : All (λ t. t.index < n) ts
  pub once : (i : ℕ) → i < n → starts i ts ≡ 1

slot-set_self :
    (rs : List ServiceCallRsp) (i : ℕ) (r : ServiceCallRsp)
    → i < length rs
    → slot (set rs i r) i ≡ r
slot-set_self rs i r h = rw (get_elem?-set_self rs i r h, slot)

slot-set_ne :
    (rs : List ServiceCallRsp) (i j : ℕ) (r : ServiceCallRsp)
    → i ≢ j
    → slot (set rs i r) j ≡ slot rs j
slot-set_ne rs i j r h = rw (get_elem?-set_ne rs i j r h, slot)

resize-Fresh : (n i : ℕ) → Fresh (slot (resize n []) i)
unfolding resize
resize-Fresh zero i = record { no_data = refl; no_error = refl; not_cached = refl }
resize-Fresh (suc n) zero = record { no_data = refl; no_error = refl; not_cached = refl }
resize-Fresh (suc n) (suc i) = resize-Fresh n i

pub length-resize : (n : ℕ) (rs : List ServiceCallRsp) → length (resize n rs) ≡ n
unfolding resize
length-resize zero rs = refl
length-resize (suc n) [] = ap suc (length-resize n [])
length-resize (suc n) (r ∷ rs) = ap suc (length-resize n rs)

module _ {W H : Type 0} (remote : Remote W H) (id : ℕ) (reqs : List ServiceCallReq)
    (proxied : (i : ℕ) → i < length reqs → (request reqs i).service_name ≢ local_test) where
  -- A slot waits for its fiber, which is still to come, or holds how its call ended.
  abbrev SlotState : ℕ → ℕ → ServiceCallRsp → Type 0
  SlotState left i r = ((left ≡ 0) × Ends remote (request reqs i) r) ⊎ ((left ≡ 1) × Fresh r)

  record Waiting (ts : List Task) (b : Batch W) : Type 0 where
    pending : b.call_num ≡ length ts
    sized : length b.rsp_list ≡ length reqs
    in_range : All (λ t. t.index < length reqs) ts
    slots : (i : ℕ) → i < length reqs → SlotState (starts i ts) i (slot b.rsp_list i)

  call_slot-Ends :
      (i seed : ℕ) (b : Batch W)
      → i < length reqs
      → length b.rsp_list ≡ length reqs
      → Fresh (slot b.rsp_list i)
      → Ends remote (request reqs i) (slot (call_slot remote id reqs i seed b).rsp_list i)
  unfolding call_slot
  call_slot-Ends i seed b h e f =
      rw (slot-set_self b.rsp_list i _ (omega arith))
        (call_single_service-Ends remote seed id (request reqs i) _ f (proxied i h))

  run_task_self :
      (t : Task) (ts : List Task) (b : Batch W)
      → Waiting (t ∷ ts) b
      → SlotState
          (starts t.index ts)
          t.index
          (slot (call_slot remote id reqs t.index t.seed b).rsp_list t.index)
  run_task_self t ts b v = go (v.slots t.index v.in_range.0)
    where
      go :
          SlotState (starts t.index (t ∷ ts)) t.index (slot b.rsp_list t.index)
          → SlotState
              (starts t.index ts)
              t.index
              (slot (call_slot remote id reqs t.index t.seed b).rsp_list t.index)
      go (inl (gone, _)) = absurd (ground arith)
      go (inr (one, f)) = inl (ground arith, call_slot-Ends t.index t.seed b v.in_range.0 v.sized f)

  run_task_ne :
      (t : Task) (ts : List Task) (b : Batch W) (i : ℕ)
      → t.index ≢ i
      → SlotState (starts i (t ∷ ts)) i (slot b.rsp_list i)
      → SlotState (starts i ts) i (slot (call_slot remote id reqs t.index t.seed b).rsp_list i)
  unfolding call_slot
  run_task_ne t ts b i ne v =
      rw (slot-set_ne b.rsp_list t.index i _ ne)
        (subst (λ n. SlotState n i (slot b.rsp_list i)) (ground arith) v)

  run_task-Waiting :
      (t : Task) (ts : List Task) (b : Batch W)
      → Waiting (t ∷ ts) b
      → Waiting ts (run_task remote id reqs t b)
  unfolding run_task
  run_task-Waiting t ts b v = record {
    pending = unfold call_slot in omega (arith, v.pending);
    sized = unfold call_slot in (length-set b.rsp_list t.index _ ∙ v.sized);
    in_range = v.in_range.1;
    slots = λ i h. elim (Bool-cases (t.index == i)) [
      | inl e ↦
          subst
            (λ i.
              SlotState (starts i ts) i
                (slot (call_slot remote id reqs t.index t.seed b).rsp_list i))
            ((==_iff t.index i).0 e) (run_task_self t ts b v)
      | inr ne ↦ run_task_ne t ts b i (λ e. ground arith) (v.slots i h)
    ];
  }

  -- The waiter goes on when the last fiber has ended, and then nothing is left to wait for.
  wait_all-Waiting :
      (ts : List Task) (b : Batch W) → Waiting ts b → Waiting [] (wait_all remote id reqs ts b)
  unfolding wait_all
  wait_all-Waiting [] b v = v
  wait_all-Waiting (t ∷ ts) b v =
      let positive : ltb 0 b.call_num ≡ true = lt→ltb 0 b.call_num (omega (arith, v.pending)) in
      rw positive (wait_all-Waiting ts (run_task remote id reqs t b) (run_task-Waiting t ts b v))

  -- The list of responses has its length, and each call has ended.
  pub record AllEnded (b : Batch W) : Type 0 where
    pub sized : length b.rsp_list ≡ length reqs
    pub ends : (i : ℕ) → i < length reqs → Ends remote (request reqs i) (slot b.rsp_list i)

  start-Waiting :
      (ts : List Task) (b : Batch W)
      → IsSchedule (length reqs) ts
      → b.rsp_list ≡ resize (length reqs) []
      → Waiting ts (record b { call_num = length reqs })
  start-Waiting ts b sch e = record {
    pending = sym sch.sized;
    sized = ap length e ∙ length-resize (length reqs) [];
    in_range = sch.in_range;
    slots = λ i h. inr (sch.once i h, rw e (resize-Fresh (length reqs) i));
  }

  call_all-AllEnded :
      (ts : List Task) (seed : ℕ) (b : Batch W)
      → IsSchedule (length reqs) ts
      → b.rsp_list ≡ resize (length reqs) []
      → AllEnded (call_all remote id reqs ts seed b)
  unfolding call_all
  call_all-AllEnded ts seed b sch e = elim (Bool-cases (length reqs == 1)) [
    | inl single ↦ rw single (alone ((==_iff (length reqs) 1).0 single))
    | inr many ↦ rw many (joined (wait_all-Waiting ts _ (start-Waiting ts b sch e)))
  ]
    where
      sized : length b.rsp_list ≡ length reqs
      sized = ap length e ∙ length-resize (length reqs) []

      first_fresh : Fresh (slot b.rsp_list 0)
      first_fresh = rw e (resize-Fresh (length reqs) 0)

      alone : length reqs ≡ 1 → AllEnded (call_slot remote id reqs 0 seed b)
      alone one = record {
        sized = unfold call_slot in (length-set b.rsp_list 0 _ ∙ sized);
        ends = λ i h.
            subst
              (λ i.
                Ends remote (request reqs i) (slot (call_slot remote id reqs 0 seed b).rsp_list i))
              (omega arith) (call_slot-Ends 0 seed b (omega arith) sized first_fresh);
      }

      joined : {c : Batch W} → Waiting [] c → AllEnded c
      joined v = record { sized = v.sized; ends = λ i h. ended i _ (v.slots i h) }
        where
          ended : (i : ℕ) (r : ServiceCallRsp) → SlotState 0 i r → Ends remote (request reqs i) r
          ended i r (inl (_, done)) = done
          ended i r (inr (never, _)) = absurd (omega arith)

  -- A batch of services other than the built-in local_test, with an empty list of responses, that
  -- is not refused makes each of its calls, whatever the order in which the fibers end: the list of
  -- responses has a slot for each request, and each slot holds how the call of its request ended.
  pub call_services_in_fiber-AllEnded :
      (behind₁ behind₂ : Bytes) (has_cb do_transaction : Bool) (ts : List Task) (seed : ℕ)
      (b : Batch W)
      → IsSchedule (length reqs) ts
      → b.rsp_list ≡ []
      → (do_transaction && not (all_http reqs)) ≡ false
      → AllEnded
          (call_services_in_fiber remote behind₁ behind₂ id reqs has_cb do_transaction ts seed b)
  unfolding call_services_in_fiber transact
  call_services_in_fiber-AllEnded behind₁ behind₂ has_cb do_transaction ts seed b sch e ok =
      rw ok
        (go has_cb do_transaction (call_all-AllEnded ts seed _ sch (ap (resize (length reqs)) e)))
    where
      go :
          (has_cb do_transaction : Bool) {c : Batch W}
          → AllEnded c
          → AllEnded (
              let d = if do_transaction then transact remote behind₁ behind₂ reqs c else c in
              if has_cb then record d { callbacks = d.callbacks + 1 } else d)
      go true true h = record { sized = h.sized; ends = h.ends }
      go true false h = record { sized = h.sized; ends = h.ends }
      go false true h = record { sized = h.sized; ends = h.ends }
      go false false h = record { sized = h.sized; ends = h.ends }
