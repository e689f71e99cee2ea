-- ===== src/Servers.antt =====
-- source/core/fiber-server/AsyncMultiIOServicesServer.h: the services of a pool, and the accepting of
-- connections by all servers but that of msgpack-rpc. What an accept ends with is an argument.
pub mod Robin
use fiberproxy.Prelude.{
  ℕ, ◌+◌, ◌%◌, ◌^◌, Bool, true, false, List, [], ◌∷◌, ◌++◌, if◌then◌else◌, ◌==◌, leb,
}

-- the main service, or one of io_services_, each run by a thread of its own
pub data Service : Type 0 where
  main_service : Service
  service : ℕ → Service

pub record ServicePool : Type 0 where
  pub io_services : ℕ
  pub next_io_service : ℕ

-- A pool of one has only the main service.
unfoldable pub new_pool : ℕ → ServicePool
new_pool pool_size = record {
  io_services = if leb pool_size 1 then 0 else pool_size;
  next_io_service = 0;
}

unfoldable pub get_io_service : ServicePool → Service × ServicePool
get_io_service p =
    let next = (p.next_io_service + 1) % 2 ^ 64 in
    if p.io_services == 0
    then (main_service, p)
    else (service (next % p.io_services), record p { next_io_service = next })

pub record AsyncServer : Type 0 where
  pub service_pool : ServicePool
  -- the service of newConnection_, and whether an accept is under way for it
  pub new_connection : Service
  pub accepting : Bool
  -- the connections whose start was posted, by their services, and the calls of onError
  pub started : List Service
  pub errors : ℕ

abbrev pub new_server : ℕ → AsyncServer
new_server pool_size = record {
  service_pool = new_pool pool_size;
  new_connection = main_service;
  accepting = false;
  started = [];
  errors = 0;
}

unfoldable pub async_accept : AsyncServer → AsyncServer
async_accept s =
    let (target, pool) = get_io_service s.service_pool in
    record s { service_pool = pool; new_connection = target; accepting = true }

-- init, behind listen
unfoldable pub init : AsyncServer → AsyncServer
init s = async_accept s

unfoldable pub on_error : AsyncServer → AsyncServer
on_error s = record s { errors = s.errors + 1 }

-- onAccept, when the accept that is under way has ended; `failed` is its error
unfoldable pub on_accept : Bool → AsyncServer → AsyncServer
on_accept failed s =
    let done = record s { accepting = false } in
    if failed
    then on_error done
    else async_accept (record done { started = s.started ++ (s.new_connection ∷ []) })

-- The accepts that end, in order; none ends while none is under way.
unfoldable pub run_accepts : List Bool → AsyncServer → AsyncServer
run_accepts [] s = s
run_accepts (failed ∷ es) s = run_accepts es (if s.accepting then on_accept failed s else s)
