-- ===== src/Remote.antt =====
-- What the forward manager asks of its collaborators, as an interface over a world `W` that holds
-- their state (the service registry, the connection pools, the sockets, the response cache) and
-- all that other fibers do while a call waits. `H` is a pending request: a FibpHttpClientPtr or a
-- FibpClientFuturePtr. FibpServiceMgr.cpp and FibpClientMgr.cpp implement the first four, and the
-- cache of izenelib the last two.
use fiberproxy.Prelude.{ℕ, Bool, Option, Bytes}
use fiberproxy.Types.{ServiceCallReq, ServiceCallRsp}

pub record Remote (W H : Type 0) : Type 0 where
  -- balance index, service name, service type
  pub get_service_address : ℕ → Bytes → ℕ → W → Option (Bytes × Bytes)
  -- path, method, ip, port, data, timeout
  pub send_http : Bytes → ℕ → Bytes → Bytes → Bytes → ℕ → W → Option H × W
  -- path, ip, port, service type, data, timeout
  pub send_other : Bytes → Bytes → Bytes → ℕ → Bytes → ℕ → W → Option H × W
  -- success, data and whether a retry may help
  pub get_response : H → W → Bool × Bytes × Bool × W
  pub cache_get : ServiceCallReq → W → Option ServiceCallRsp × W
  pub cache_insert : ServiceCallReq → ServiceCallRsp → W → W
