-- ===== src/Commands/Unended.antt =====
-- A request that does not parse leaves its call in the log open, and the sender of the log behind it.
use fiberproxy.Prelude.{ℕ, suc, ◌≤◌, Bool, false, List, Option, none, some, codes, ◌≡◌, refl, arith}
use fiberproxy.Types.{ServiceCallReq}
use fiberproxy.Logger.{Logger, start_service_call}
use fiberproxy.Logger.Spec.{Op, Answer, Run}
use fiberproxy.Logger.Refine.{taken, start-free}
use fiberproxy.Logger.Blocked.{IsOpen, NotEnded, Run-IsOpen}
use fiberproxy.Commands.{Value, Msgpack}
use fiberproxy.Commands.Parse.{parse_api_request}
use fiberproxy.Commands.Handlers.{
  Controller, Handled, is_started, with_transaction, call_services_async,
}

start-IsOpen :
    (now : ℕ) (c : Logger)
    → taken c ≡ false
    → c.next_send ≤ suc c.auto_inc_id
    → IsOpen (suc c.auto_inc_id) (start_service_call now c).0
start-IsOpen now c e h =
    rw (start-free now c e) (record { before = h; own = ground arith; running = ground (arith, e) })

module _ {V : Type 0} (val : Value V) (mp : Msgpack) where
  parse_api_request-refused :
      (l : V) (reqs : List ServiceCallReq)
      → val.is_array l ≡ false
      → parse_api_request val mp l reqs ≡ (false, reqs)
  unfolding parse_api_request
  parse_api_request-refused l reqs a = rw (a, parse_api_request) refl

  not_started :
      (now : ℕ) (l request : V) (c : Controller)
      → val.is_array l ≡ false
      → let p : Controller × Handled = call_services_async val mp now l request c in
        (p.0.log ≡ (start_service_call now c.log).0) × (is_started p.1 ≡ false)
  unfolding call_services_async
  not_started now l request c a =
      go (val.as_bool (codes "do_transaction") request)
        (parse_api_request-refused l c.call_api_list a)
    where
      go :
          (t : Option Bool)
          → parse_api_request val mp l c.call_api_list ≡ (false, c.call_api_list)
          → let (log, id) = start_service_call now c.log in
            let r : Controller × Handled = with_transaction val mp id log l t c in
            (r.0.log ≡ log) × (is_started r.1 ≡ false)
      go none e = (refl, refl)
      go (some t) e = rw e (refl, refl)

  -- A request that is not a list starts no batch and leaves its call in the log open, when its slot
  -- was free and the sender not past it: whatever the members of the log do then, unless somebody
  -- ends that call, the sender never passes it.
  pub call_services_async-unended :
      (now : ℕ) (l request : V) (c : Controller) {d : Logger} {ops : List (Op × Answer)}
      → val.is_array l ≡ false
      → taken c.log ≡ false
      → c.log.next_send ≤ suc c.log.auto_inc_id
      → Run (call_services_async val mp now l request c).0.log ops d
      → NotEnded (suc c.log.auto_inc_id) ops
      → (is_started (call_services_async val mp now l request c).1 ≡ false)
        × (d.next_send ≤ suc c.log.auto_inc_id)
  call_services_async-unended now l request c a f h r n =
      let (log, started) = not_started now l request c a in
      (started, (Run-IsOpen _ (omega arith) (rw log (start-IsOpen now c.log f h)) r n).before)
