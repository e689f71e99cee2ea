-- ===== src/ClientFuture.antt =====
-- source/core/forward-manager/FibpClientFuture.{h,cpp}: the answer that a fiber waits for.
use fiberproxy.Prelude.{Bool, true, false, [], Bytes, codes, if◌then◌else◌}

abbrev pub timeout_err : Bytes
timeout_err = codes "Server Timed Out."

pub record Future : Type 0 where
  pub rsp : Bytes
  pub is_success : Bool
  pub can_retry : Bool
  pub done : Bool

abbrev pub new_future : Future
new_future = record { rsp = []; is_success = false; can_retry = true; done = false }

abbrev pub set_result : Bytes → Bool → Bool → Future → Future
set_result rsp is_success can_retry f = record {
  rsp = rsp;
  is_success = is_success;
  can_retry = can_retry;
  done = true;
}

-- What getRsp gives, success, data and whether a retry may help, when its wait has ended: `f` is
-- the future then, which nobody may have set in the time that the wait allows.
unfoldable pub get_rsp : Future → Bool × Bytes × Bool
get_rsp f =
    (f.is_success, if f.done then f.rsp else timeout_err, if f.done then f.can_retry else true)
