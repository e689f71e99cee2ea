-- ===== src/Commands/Parse.antt =====
-- source/process/controllers/RequestParser.cpp.
use fiberproxy.Prelude.{
  ℕ, ◌+◌, Bool, true, false, not, List, [], ◌∷◌, Option, none, some, Bytes, codes, bind, bytes_eq,
  if◌then◌else◌, ◌==◌, leb, length, drop,
}
use fiberproxy.Types.{
  ServiceCallReq, empty_req, rpc_service, http_delete, http_get, http_put, http_head, http_post,
}
use fiberproxy.Commands.{Value, Msgpack}

infixl 20 ◌>>=◌
abbrev pub ◌>>=◌ : {A B : Type 0} → Option A → (A → Option B) → Option B
o >>= f = bind o f

-- GetReqMethod
unfoldable pub get_req_method : Bytes → ℕ
get_req_method method =
    if bytes_eq method (codes "DELETE")
    then http_delete
    else if bytes_eq method (codes "GET")
    then http_get
    else if bytes_eq method (codes "PUT")
    then http_put
    else if bytes_eq method (codes "HEAD")
    then http_head
    else http_post

-- resize(1)
abbrev pub first_or_new : List ServiceCallReq → ServiceCallReq
first_or_new [] = empty_req
first_or_new (r ∷ rs) = r

-- substr, which throws past the end
unfoldable pub substr : Bytes → ℕ → Option Bytes
substr s pos = if leb pos (length s) then some (drop pos s) else none

-- The list is resized to one before the path is looked at.
unfoldable pub parse_single_api_request :
    (Bytes → Bytes)
    → (Bytes → List Bytes)
    → ℕ
    → Bytes
    → Bytes
    → List ServiceCallReq
    → Option (Bool × List ServiceCallReq)
parse_single_api_request trim split method raw_req path reqs =
    let temp = trim path in
    elim (split temp) [
      | e0 ∷ e1 ∷ e2 ∷ e3 ∷ more ↦
          bind (substr temp (length e0 + 1 + (length e1 + 1) + length e2)) (λ api. some (
            true,
            record (first_or_new reqs) {
              service_name = e2;
              service_api = api;
              service_req_data = raw_req;
              service_type = 0;
              method = method;
            }
                ∷ [],
          ))
      | _ ↦ some (false, first_or_new reqs ∷ [])
    ]

module _ {V : Type 0} (val : Value V) (mp : Msgpack) where
  -- the body of an RPC call is packed
  abbrev pub request_body : ℕ → Bytes → Bytes
  request_body service_type s = if service_type == rpc_service then mp.pack s else s

  unfoldable pub parse_one : V → Option ServiceCallReq
  parse_one v = do
    service_name ← val.as_string (codes "service_name") v
    service_api ← val.as_string (codes "service_api") v
    method ← val.as_string (codes "service_method") v
    data_text ← val.as_string (codes "service_req_data") v
    service_cluster ← val.as_string (codes "service_cluster") v
    service_type ← val.as_int (codes "service_type") v
    enable_cache ← val.as_bool (codes "enable_cache") v
    some (record {
      service_name = service_name;
      service_api = service_api;
      method = get_req_method method;
      service_req_data = request_body service_type data_text;
      service_cluster = service_cluster;
      service_type = service_type;
      enable_cache = enable_cache;
    })

  -- the loop, which an exception leaves
  unfoldable pub parse_all : List V → Option (List ServiceCallReq)
  parse_all [] = some []
  parse_all (v ∷ vs) = bind (parse_one v) (λ r. bind (parse_all vs) (λ rs. some (r ∷ rs)))

  unfoldable pub parse_api_request : V → List ServiceCallReq → Bool × List ServiceCallReq
  parse_api_request client_req reqs =
      if not (val.is_array client_req)
      then (false, reqs)
      else elim (parse_all (val.elements client_req)) [ none ↦ (false, []) | some rs ↦ (true, rs) ]
