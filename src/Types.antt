-- ===== src/Types.antt =====
-- source/core/common/FibpCommonTypes.h: the requests and responses of a proxied call. An `int` is
-- its 32-bit pattern, so that a negative service type is a large number, as it is for the unsigned
-- comparisons of the code. `FibpLogger` calls are values, in the order in which they are made.
use fiberproxy.Prelude.{ℕ, Bool, false, ◌&&◌, [], Bytes, bytes_eq, ◌==◌}

-- enum method, shared by FibpCommonTypes.h and HttpProtocolHandler.h
abbrev pub http_delete : ℕ
http_delete = 0

abbrev pub http_get : ℕ
http_get = 1

abbrev pub http_head : ℕ
http_head = 2

abbrev pub http_post : ℕ
http_post = 3

abbrev pub http_put : ℕ
http_put = 4

-- enum ServiceType
abbrev pub http_service : ℕ
http_service = 0

abbrev pub rpc_service : ℕ
rpc_service = 1

abbrev pub raw_service : ℕ
raw_service = 2

abbrev pub custom_service : ℕ
custom_service = 3

abbrev pub end_service : ℕ
end_service = 4

pub record ServiceCallReq : Type 0 where
  pub service_name : Bytes
  pub service_api : Bytes
  pub method : ℕ
  pub service_req_data : Bytes
  pub service_cluster : Bytes
  pub service_type : ℕ
  pub enable_cache : Bool

abbrev pub empty_req : ServiceCallReq
empty_req = record {
  service_name = [];
  service_api = [];
  method = http_post;
  service_req_data = [];
  service_cluster = [];
  service_type = http_service;
  enable_cache = false;
}

-- operator==, the key comparison of the response cache
unfoldable pub req_eq : ServiceCallReq → ServiceCallReq → Bool
req_eq a b =
    bytes_eq a.service_name b.service_name
    && bytes_eq a.service_api b.service_api
    && bytes_eq a.service_req_data b.service_req_data
    && bytes_eq a.service_cluster b.service_cluster
    && a.service_type == b.service_type
    && a.method == b.method

pub record ServiceCallRsp : Type 0 where
  pub service_name : Bytes
  pub rsp : Bytes
  pub error : Bytes
  pub is_cached : Bool
  pub host : Bytes
  pub port : Bytes

abbrev pub empty_rsp : ServiceCallRsp
empty_rsp = record {
  service_name = [];
  rsp = [];
  error = [];
  is_cached = false;
  host = [];
  port = [];
}

pub record ForwardInfo : Type 0 where
  pub service_name : Bytes
  pub service_type : ℕ
  pub port : ℕ

-- What the program tells FibpLogger.
pub data LogCall : Type 0 where
  send_service_request : ℕ → Bytes → Bytes → Bytes → LogCall
  get_service_rsp : ℕ → Bytes → LogCall
  log_service_failed : ℕ → Bytes → Bytes → LogCall
  log_transaction : Bool → Bytes → Bytes → Bytes → Bytes → LogCall
