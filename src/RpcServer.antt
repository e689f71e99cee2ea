-- ===== src/RpcServer.antt =====
-- source/core/fiber-server/FibpRpcServer.cpp: the requests that come over msgpack-rpc, and the
-- callbacks of their batches. The values of msgpack are a parameter.
pub mod Once
pub mod Single
use fiberproxy.Prelude.{
  ℕ, suc, ◌+◌, Bool, true, false, List, [], ◌∷◌, ◌++◌, Option, none, some, Bytes, codes, bind,
  bytes_eq, if◌then◌else◌, ◌==◌, leb, length, take, drop, is_empty,
}
use fiberproxy.Types.{ServiceCallReq, ServiceCallRsp, empty_req, rpc_service}
use fiberproxy.Transaction.{find, is_prefix}
use fiberproxy.Logger.{Logger, start_service_call, end_service_call}

-- method_names
abbrev pub method_test : Bytes
method_test = codes "test"

abbrev pub method_call_services_async : Bytes
method_call_services_async = codes "call_services_async"

abbrev pub method_call_single_service_async : Bytes
method_call_single_service_async = codes "call_single_service_async"

-- What the code reads of a msgpack::rpc::request; `none` is a msgpack::type_error.
pub record Request : Type 0 where
  pub method : Option Bytes
  -- the parameters as RpcServicesReq, and as the packer writes them
  pub req_list : Option (List ServiceCallReq)
  pub packed : Bytes

-- result and error of the request; `O` is msgpack::object
pub data Answer (O : Type 0) : Type 0 where
  result_bool : Bool → Answer O
  result_list : List ServiceCallRsp → Answer O
  result_object : O → Answer O
  error : Bytes → Answer O

-- The answers to one request, and the log.
pub record Server (O : Type 0) : Type 0 where
  pub answers : List (Answer O)
  pub log : Logger

-- A batch that was started, with the id of its call, and which callback it has.
pub record Context : Type 0 where
  pub id : ℕ
  pub reqs : List ServiceCallReq
  pub single : Bool

abbrev pub argument_error : Bytes
argument_error = codes "ARGUMENT_ERROR"

abbrev pub no_method_error : Bytes
no_method_error = codes "NO_METHOD_ERROR"

abbrev pub server_return_error : Bytes
server_return_error = codes "SERVER_RETURN_ERROR"

-- the request for a service, from the name and the path that the method holds
abbrev pub single_req : Bytes → Bytes → Bytes → ServiceCallReq
single_req name api packed = record empty_req {
  service_name = name;
  service_api = api;
  service_req_data = packed;
  service_cluster = codes "dev";
  service_type = rpc_service;
}

module _ {O : Type 0} where
  abbrev pub reply : Answer O → Server O → Server O
  reply a s = record s { answers = s.answers ++ (a ∷ []) }

  -- call_services_async, from the conversion of the parameters on: the call is in the log already
  abbrev pub start_list : ℕ → Option (List ServiceCallReq) → Server O → Server O × Option Context
  start_list id none s = (reply (error argument_error) s, none)
  start_list id (some reqs) s = (s, some (record { id = id; reqs = reqs; single = false }))

  abbrev pub start_single : ℕ → Bytes → Bytes → Option ℕ → Server O → Server O × Option Context
  start_single now server_method packed none s = (reply (error argument_error) s, none)
  start_single now server_method packed (some split_pos) s =
      let (log, id) = start_service_call now s.log in
      (
        record s { log = log },
        some (record {
          id = id;
          reqs =
              single_req (take split_pos server_method) (drop (split_pos + 1) server_method) packed
              ∷ [];
          single = true;
        }),
      )

  -- `what` is the text of the std::out_of_range that substr throws past the end.
  module _ (what : Bytes) where
    abbrev pub dispatch_single : ℕ → Bytes → Bytes → Server O → Server O × Option Context
    dispatch_single now method packed s =
        let pos = length method_call_single_service_async + 1 in
        if leb pos (length method)
        then start_single now (drop pos method) packed (find (drop pos method) (codes "/") 0) s
        else (reply (error what) s, none)

    abbrev pub dispatch_list :
        ℕ → Option (List ServiceCallReq) → Server O → Server O × Option Context
    dispatch_list now req_list s =
        let (log, id) = start_service_call now s.log in
        start_list id req_list (record s { log = log })

    abbrev pub dispatch_method : ℕ → Request → Option Bytes → Server O → Server O × Option Context
    dispatch_method now q none s = (reply (error argument_error) s, none)
    dispatch_method now q (some method) s =
        if bytes_eq method method_test
        then (reply (result_bool true) s, none)
        else if bytes_eq method method_call_services_async
        then dispatch_list now q.req_list s
        else if is_prefix method_call_single_service_async method
        then dispatch_single now method q.packed s
        else (reply (error no_method_error) s, none)

    unfoldable pub dispatch : ℕ → Request → Server O → Server O × Option Context
    dispatch now q s = dispatch_method now q q.method s

  -- the callbacks, with the responses of the batch and the time then
  abbrev pub end_call : ℕ → ℕ → Server O → Server O
  end_call id later s = record s { log = end_service_call id later s.log }

  unfoldable pub rpc_callback : ℕ → ℕ → List ServiceCallRsp → Server O → Server O
  rpc_callback id later rsp_list s = end_call id later (reply (result_list rsp_list) s)

  -- `unpack` gives `none` for an exception, which leaves the callback.
  module _ (unpack : Bytes → Option O) where
    abbrev pub single_answer : List ServiceCallRsp → Option (Answer O)
    single_answer (r ∷ []) =
        if is_empty r.error
        then bind (unpack r.rsp) (λ o. some (result_object o))
        else some (error r.error)
    single_answer rsp_list = some (error server_return_error)

    unfoldable pub rpc_single_service_callback :
        ℕ → ℕ → List ServiceCallRsp → Server O → Option (Server O)
    rpc_single_service_callback id later rsp_list s =
        bind (single_answer rsp_list) (λ a. some (end_call id later (reply a s)))
