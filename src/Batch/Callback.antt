-- ===== src/Batch/Callback.antt =====
-- The caller's callback, and the batches that are refused.
use fiberproxy.Prelude.{
  ℕ, suc, ◌+◌, Bool, Bytes, true, false, List, [], ◌∷◌, ◌≡◌, refl, ap, arith, ltb, if◌then◌else◌,
  Bool-cases, inl, inr, length, ◌==◌, ◌∙◌, All,
}
use fiberproxy.Types.{ServiceCallReq, ServiceCallRsp}
use fiberproxy.Remote.{Remote}
use fiberproxy.Batch.Complete.{length-resize}
use fiberproxy.Batch.{
  Batch, Task, only_http, refuse_all, resize, call_slot, run_task, wait_all, call_all, transact,
  all_http, call_services_in_fiber,
}

module _ {W H : Type 0} (remote : Remote W H) (id : ℕ) (reqs : List ServiceCallReq) where
  wait_all-callbacks :
      (ts : List Task) (b : Batch W) → (wait_all remote id reqs ts b).callbacks ≡ b.callbacks
  unfolding wait_all run_task call_slot
  wait_all-callbacks [] b = refl
  wait_all-callbacks (t ∷ ts) b = elim (Bool-cases (ltb 0 b.call_num)) [
    | inl more ↦ simp more (wait_all-callbacks ts (run_task remote id reqs t b))
    | inr done ↦ simp done
  ]

  call_all-callbacks :
      (ts : List Task) (seed : ℕ) (b : Batch W)
      → (call_all remote id reqs ts seed b).callbacks ≡ b.callbacks
  unfolding call_all call_slot
  call_all-callbacks ts seed b = elim (Bool-cases (length reqs == 1)) [
    | inl single ↦ simp single
    | inr many ↦ simp many (wait_all-callbacks ts _)
  ]

  -- Whatever happens to the calls and to the transaction, the callback of a caller that gave one is
  -- called once.
  pub call_services_in_fiber-callbacks :
      (behind₁ behind₂ : Bytes) (has_cb do_transaction : Bool) (ts : List Task) (seed : ℕ)
      (b : Batch W)
      → (call_services_in_fiber remote behind₁ behind₂ id reqs has_cb do_transaction ts seed
          b).callbacks
        ≡ b.callbacks + (if has_cb then 1 else 0)
  unfolding call_services_in_fiber transact
  call_services_in_fiber-callbacks behind₁ behind₂ has_cb do_transaction ts seed b =
      ground (
        arith,
        call_all-callbacks ts seed (record b { rsp_list = resize (length reqs) b.rsp_list }),
      )

  refuse_all-only_http :
      (qs : List ServiceCallReq) (rs : List ServiceCallRsp)
      → length rs ≡ length qs
      → All (λ r. r.error ≡ only_http) (refuse_all qs rs)
  unfolding refuse_all
  refuse_all-only_http [] [] e = tt
  refuse_all-only_http [] (r ∷ rs) e = absurd (omega arith)
  refuse_all-only_http (q ∷ qs) [] e = tt
  refuse_all-only_http (q ∷ qs) (r ∷ rs) e = (refl, refuse_all-only_http qs rs (omega arith))

  -- What a refused batch leaves: the message in each slot, and no call, no request and no log entry.
  pub record Refused (b c : Batch W) : Type 0 where
    pub sized : length c.rsp_list ≡ length reqs
    pub told : All (λ r. r.error ≡ only_http) c.rsp_list
    pub same_log : c.log ≡ b.log
    pub same_world : c.world ≡ b.world
    pub same_stat : c.service_fail_stat ≡ b.service_fail_stat

  length-refuse_all :
      (qs : List ServiceCallReq) (rs : List ServiceCallRsp) → length (refuse_all qs rs) ≡ length rs
  unfolding refuse_all
  length-refuse_all [] rs = refl
  length-refuse_all (q ∷ qs) [] = refl
  length-refuse_all (q ∷ qs) (r ∷ rs) = ap suc (length-refuse_all qs rs)

  -- A transaction with a service that is not called over HTTP is refused as a whole.
  pub call_services_in_fiber-Refused :
      (behind₁ behind₂ : Bytes) (has_cb : Bool) (ts : List Task) (seed : ℕ) (b : Batch W)
      → all_http reqs ≡ false
      → Refused b (call_services_in_fiber remote behind₁ behind₂ id reqs has_cb true ts seed b)
  unfolding call_services_in_fiber
  call_services_in_fiber-Refused behind₁ behind₂ has_cb ts seed b e = simp e (go has_cb)
    where
      slots : List ServiceCallRsp
      slots = resize (length reqs) b.rsp_list

      refused : Batch W
      refused = record b { rsp_list = refuse_all reqs slots }

      sized : length slots ≡ length reqs
      sized = length-resize (length reqs) b.rsp_list

      go :
          (has_cb : Bool)
          → Refused b (if has_cb then record refused { callbacks = b.callbacks + 1 } else refused)
      go true = record {
        sized = length-refuse_all reqs slots ∙ sized;
        told = refuse_all-only_http reqs slots sized;
        same_log = refl;
        same_world = refl;
        same_stat = refl;
      }
      go false = record {
        sized = length-refuse_all reqs slots ∙ sized;
        told = refuse_all-only_http reqs slots sized;
        same_log = refl;
        same_world = refl;
        same_stat = refl;
      }
