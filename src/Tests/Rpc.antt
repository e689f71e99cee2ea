-- ===== src/Tests/Rpc.antt =====
-- A call over msgpack-rpc whose response cannot be told apart from its text, and a forwarded
-- connection whose last write fails.
use fiberproxy.Prelude.{true, List, [], ◌∷◌, Option, none, some, Bytes, codes, ◌≡◌, refl}
use fiberproxy.Types.{ServiceCallRsp, empty_rsp}
use fiberproxy.Logger.{new_logger}
use fiberproxy.RpcServer.{Request, Server, dispatch}
use fiberproxy.RpcServer.Once.{answer, AnsweredOnce, dispatch-AnsweredOnce}
use fiberproxy.PortForward.Copy.{
  Round, new_copied, start, handle_forward_rsp, forward_loop, IsCopy, start-IsCopy,
}

abbrev text_object : Bytes → Option Bytes
text_object s = some s

abbrev rpc_request : Request
rpc_request = record {
  method = some (codes "call_single_service_async/search/find");
  req_list = none;
  packed = codes "x";
}

abbrev new_server : Server Bytes
new_server = record { answers = []; log = new_logger }

abbrev rpc_responses : List ServiceCallRsp
rpc_responses = record empty_rsp { rsp = codes "found" } ∷ []

dispatch-AnsweredOnce_example :
    (d : Server Bytes) × (answer [] text_object 5 rpc_responses
        (dispatch [] 1 rpc_request new_server)
      ≡ some d)
    × AnsweredOnce [] text_object 1 5 rpc_request new_server d
dispatch-AnsweredOnce_example =
    dispatch-AnsweredOnce [] text_object 1 5 rpc_request rpc_responses (codes "found", refl)
      new_server

abbrev client_rounds : List Round
client_rounds =
    record { is_open = true; read = some (codes "ab"); write_failed = none }
    ∷ record { is_open = true; read = some (codes "cd"); write_failed = some 1 }
    ∷ []

abbrev host_rounds : List Round
host_rounds = record { is_open = true; read = some (codes "ok"); write_failed = none } ∷ []

start-IsCopy_example :
    IsCopy (codes "abcd") [] (start true client_rounds)
    × IsCopy (codes "ok") [] (handle_forward_rsp host_rounds new_copied)
start-IsCopy_example = start-IsCopy client_rounds host_rounds

abc_written : (start true client_rounds).written ≡ codes "abc"
unfolding start forward_loop
abc_written = refl
