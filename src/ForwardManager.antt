-- ===== src/ForwardManager.antt =====
-- source/core/forward-manager/FibpForwardManager.cpp: one proxied call with its retries. The
-- fibers of one batch of calls are in Batch, port forwarding in PortForward.
pub mod Outcome
pub mod Attempts
pub mod Life
use fiberproxy.Prelude.{
  ℕ, zero, suc, ◌+◌, ◌*◌, ◌%◌, Bool, true, false, ◌||◌, not, List, [], ◌∷◌, ◌++◌, Option, none,
  some, Bytes, codes, bytes_eq, ◌==◌, if◌then◌else◌, lookup_or, insert, bytes_key,
}
use fiberproxy.Types.{
  ServiceCallReq, ServiceCallRsp, LogCall, http_service, send_service_request, get_service_rsp,
  log_service_failed,
}
use fiberproxy.Remote.{Remote}
use fiberproxy.ServiceCache

-- The state that one call changes: its slot of the response list, the counters of failures, the
-- calls of FibpLogger (the newest first) and the world behind `Remote`.
pub record Call (W : Type 0) : Type 0 where
  pub rsp : ServiceCallRsp
  pub service_fail_stat : List (Bytes × ℕ)
  pub log : List LogCall
  pub world : W

-- What a round of the retry loop leads to: the next test of the loop, or a `break`.
pub data Next : Type 0 where
  again failed success : Next

abbrev pub max_retry : ℕ
max_retry = 3

abbrev pub local_test : Bytes
local_test = codes "local_test"

module _ {W H : Type 0} (remote : Remote W H) where
  open remote use {get_service_address, send_http, send_other, get_response}

  abbrev logged : LogCall → Call W → Call W
  logged l s = record s { log = l ∷ s.log }

  -- ++service_fail_stat_[name]
  abbrev count_failure : Bytes → Call W → Call W
  count_failure name s = record s {
    service_fail_stat = insert name (lookup_or name 0 s.service_fail_stat + 1) s.service_fail_stat;
  }

  abbrev set_error : Bytes → Call W → Call W
  set_error e s = record s { rsp = record (s.rsp) { error = e } }

  -- send_request of the client manager, by the service type
  unfoldable pub send : ServiceCallReq → Bytes → Bytes → ℕ → W → Option H × W
  send req ip port timeout w =
      if req.service_type == http_service
      then send_http req.service_api req.method ip port req.service_req_data timeout w
      else send_other req.service_api ip port req.service_type req.service_req_data timeout w

  -- a response has come, or the wait for it has failed
  unfoldable pub after_response :
      ℕ → ServiceCallReq → ℕ → Call W → Bool × Bytes × Bool × W → Call W × Next
  after_response id req n s (ret, rspdata, can_retry, w) =
      let s₁ = logged (get_service_rsp id req.service_name) (record s { world = w }) in
      let s₂ =
        count_failure req.service_name
          (logged (log_service_failed id req.service_name rspdata) s₁) in
      if ret
      then (record s₁ { rsp = record (s₁.rsp) { rsp = rspdata } }, success)
      else if not can_retry || n == max_retry
      then (set_error (codes "Get Service Response Failed. " ++ rspdata) s₂, failed)
      else (s₂, again)

  unfoldable pub after_send : ℕ → ServiceCallReq → ℕ → Call W → Option H × W → Call W × Next
  after_send id req n s (none, w) =
      let s₁ = count_failure req.service_name (
        logged (log_service_failed id req.service_name (codes "Send Data Failed."))
          (record s { world = w })) in
      (if n == max_retry then set_error (codes "Send Service Request Failed. ") s₁ else s₁, again)
  after_send id req n s (some f, w) = after_response id req n s (get_response f w)

  -- one round of the loop, with `retry_counter` at `n`
  unfoldable pub attempt : ℕ → ServiceCallReq → ℕ → ℕ → Call W → Call W × Next
  attempt id req n balance_index s =
      elim (get_service_address balance_index req.service_name req.service_type s.world) [
        | none ↦ (set_error (codes "Service Not Found.") s, failed)
        | some (ip, port) ↦
            let s₁ = logged (send_service_request id req.service_name ip port) s in
            after_send id req n (record s₁ { rsp = record (s₁.rsp) { host = ip; port = port } })
              (send req ip port (5000 * n) s.world)
      ]

  -- while(++retry_counter <= MAX_RETRY), with the rounds that are left
  unfoldable pub call_loop : ℕ → ℕ → ServiceCallReq → ℕ → ℕ → Call W → Call W × Bool
  call_loop zero id req n balance_index s = (s, false)
  call_loop (suc left) id req n balance_index s =
      let (s', next) = attempt id req (n + 1) (balance_index + 1) s in
      elim next [
        | again ↦ call_loop left id req (n + 1) (balance_index + 1) s'
        | failed ↦ (s', false)
        | success ↦ (s', true)
      ]

  -- what follows the loop
  unfoldable pub after_loop : ServiceCallReq → Call W × Bool → Call W
  after_loop req (s, true) = record s { world = ServiceCache.set remote req s.rsp s.world }
  after_loop req (s, false) =
      let s₁ = record s {
        service_fail_stat =
            insert req.service_name (lookup_or req.service_name 0 s.service_fail_stat)
              s.service_fail_stat;
      } in
      let (ret, rsp, w) = ServiceCache.get remote req s.rsp s.world in
      if req.enable_cache then record s₁ { rsp = rsp; world = w } else s₁

  -- `seed` is what rand() returned
  unfoldable pub call_single_service : ℕ → ℕ → ServiceCallReq → Call W → Call W
  call_single_service seed id req s =
      let s₀ = record s { rsp = record (s.rsp) { service_name = req.service_name } } in
      if bytes_eq req.service_name local_test
      then logged (get_service_rsp id req.service_name)
          (record (logged (send_service_request id req.service_name (codes "127.0.0.1") (codes "0"))
            s₀) { rsp = record (s₀.rsp) { rsp = local_test } })
      else after_loop req (call_loop max_retry id req 0 seed s₀)
