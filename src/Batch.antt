-- ===== src/Batch.antt =====
-- source/core/forward-manager/FibpForwardManager.cpp, call_services_in_fiber: a batch of calls,
-- one fiber for each, and the transaction that may close it. A fiber's call is one step of a
-- schedule, which lists the fibers in the order in which their calls end; what happens to the
-- world between the requests of one call is part of `Remote`. The transaction manager is taken to be
-- there, as the code means it; nothing in the program sets transaction_mgr_.
pub mod Callback
pub mod Complete
use fiberproxy.Prelude.{
  ℕ, zero, suc, ◌+◌, ◌-◌, Bool, true, false, ◌&&◌, not, List, [], ◌∷◌, ◌++◌, Option, none, some,
  Bytes, codes, ◌==◌, ltb, if◌then◌else◌, length, get_elem?, set, is_empty, any,
}
use fiberproxy.Types.{ServiceCallReq, ServiceCallRsp, LogCall, http_service, empty_rsp, empty_req}
use fiberproxy.Remote.{Remote}
use fiberproxy.Transaction.{get_transaction_id, confirm, cancel}
use fiberproxy.ForwardManager.{Call, call_single_service}

pub record Batch (W : Type 0) : Type 0 where
  pub rsp_list : List ServiceCallRsp
  pub call_num : ℕ
  pub callbacks : ℕ
  pub service_fail_stat : List (Bytes × ℕ)
  pub log : List LogCall
  pub world : W

-- A fiber by its index in the list of calls, with what its rand() returns.
pub record Task : Type 0 where
  pub index : ℕ
  pub seed : ℕ

abbrev pub slot : List ServiceCallRsp → ℕ → ServiceCallRsp
slot rs i = elim (get_elem? rs i) [ none ↦ empty_rsp | some r ↦ r ]

abbrev pub request : List ServiceCallReq → ℕ → ServiceCallReq
request qs i = elim (get_elem? qs i) [ none ↦ empty_req | some q ↦ q ]

-- rsp_list.resize(n)
unfoldable pub resize : ℕ → List ServiceCallRsp → List ServiceCallRsp
resize zero rs = []
resize (suc n) [] = empty_rsp ∷ resize n []
resize (suc n) (r ∷ rs) = r ∷ resize n rs

-- "transaction is supported only if all services using http protocol."
abbrev pub only_http : Bytes
only_http = codes "transaction is supported only if all services using http protocol."

unfoldable pub all_http : List ServiceCallReq → Bool
all_http [] = true
all_http (q ∷ qs) = q.service_type == http_service && all_http qs

unfoldable pub refuse_all : List ServiceCallReq → List ServiceCallRsp → List ServiceCallRsp
refuse_all (q ∷ qs) (r ∷ rs) =
    record r { service_name = q.service_name; error = only_http } ∷ refuse_all qs rs
refuse_all [] rs = rs
refuse_all (q ∷ qs) [] = []

module _ {W H : Type 0} (remote : Remote W H) (id : ℕ) (reqs : List ServiceCallReq) where
  -- call_single_service on the slot `i`
  unfoldable pub call_slot : ℕ → ℕ → Batch W → Batch W
  call_slot i seed b =
      let c = call_single_service remote seed id (request reqs i) (record {
        rsp = slot b.rsp_list i;
        service_fail_stat = b.service_fail_stat;
        log = b.log;
        world = b.world;
      }) in
      record b {
        rsp_list = set b.rsp_list i c.rsp;
        service_fail_stat = c.service_fail_stat;
        log = c.log;
        world = c.world;
      }

  -- the overload that a fiber runs; the last fiber wakes the waiter
  unfoldable pub run_task : Task → Batch W → Batch W
  unfolding call_slot
  run_task t b = let b' = call_slot t.index t.seed b in record b' { call_num = b'.call_num - 1 }

  -- while(call_num > 0) cond.wait(guard): fibers end, in the order of the schedule, until none is
  -- left to wait for
  unfoldable pub wait_all : List Task → Batch W → Batch W
  wait_all [] b = b
  wait_all (t ∷ ts) b =
      let rest = wait_all ts (run_task t b) in if ltb 0 b.call_num then rest else b

  unfoldable pub call_all : List Task → ℕ → Batch W → Batch W
  call_all schedule seed b =
      if length reqs == 1
      then call_slot 0 seed b
      else wait_all schedule (record b { call_num = length reqs })

-- The text in which the code looks for the transaction of a response.
abbrev pub tran_text : ServiceCallRsp → Bytes
tran_text r = if is_empty r.error then r.rsp else r.error

-- need_cancel
abbrev pub has_error : ServiceCallRsp → Bool
has_error r = not (is_empty r.error)

module _ {W H : Type 0} (remote : Remote W H) (behind₁ behind₂ : Bytes) where
  -- one round of the loop that confirms or cancels
  unfoldable pub close_one :
      Bool → ServiceCallReq → ServiceCallRsp → List LogCall × W → List LogCall × W
  close_one true q r (log, w) =
      let tran_id = get_transaction_id behind₁ behind₂ (tran_text r) in
      let (l, w') = cancel remote r.host r.port q.service_api tran_id w in
      if is_empty tran_id then (log, w) else (l ∷ log, w')
  close_one false q r (log, w) =
      let tran_id = get_transaction_id behind₁ behind₂ (tran_text r) in
      let (l, w') = confirm remote r.host r.port q.service_api tran_id w in (l ∷ log, w')

  unfoldable pub close_all :
      Bool → List ServiceCallReq → List ServiceCallRsp → List LogCall × W → List LogCall × W
  close_all c (q ∷ qs) (r ∷ rs) s = close_all c qs rs (close_one c q r s)
  close_all c [] rs s = s
  close_all c (q ∷ qs) [] s = s

  unfoldable pub transact : List ServiceCallReq → Batch W → Batch W
  transact reqs b =
      let (log, w) = close_all (any has_error b.rsp_list) reqs b.rsp_list (b.log, b.world) in
      record b { log = log; world = w }

  -- call_services_in_fiber; `has_cb` tells whether the caller gave a callback
  unfoldable pub call_services_in_fiber :
      ℕ → List ServiceCallReq → Bool → Bool → List Task → ℕ → Batch W → Batch W
  call_services_in_fiber id reqs has_cb do_transaction schedule seed b =
      let b₀ = record b { rsp_list = resize (length reqs) b.rsp_list } in
      let called = call_all remote id reqs schedule seed b₀ in
      let closed = if do_transaction then transact reqs called else called in
      let done =
        if do_transaction && not (all_http reqs)
        then record b₀ { rsp_list = refuse_all reqs b₀.rsp_list }
        else closed in
      if has_cb then record done { callbacks = done.callbacks + 1 } else done
