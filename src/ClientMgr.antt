-- ===== src/ClientMgr.antt =====
-- source/core/forward-manager/FibpClientMgr.cpp: the connections of one thread. A connection
-- object, a FibpHttpClient or one of the FibpClientBase classes, is a number that is not used
-- again; `log` keeps the destinations that were refused (exceedClientLimit).
pub mod Pool
use mathlib.Core.Bool.{◌||◌}
use fiberproxy.Prelude.{
  ℕ, zero, suc, ◌+◌, Bool, true, false, List, [], ◌∷◌, ◌++◌, Option, none, some, Bytes, codes, ltb,
  ◌==◌, if◌then◌else◌, lookup, lookup_or, insert, bytes_key, nat_key, get_or, set, leb, length,
}
use fiberproxy.Types.{http_service, rpc_service, raw_service, end_service}

abbrev pub max_client_num : ℕ
max_client_num = 100

-- client_pool_list has a table of shared clients for each service type, http_client_pool_list the
-- free HTTP clients of each destination; client_num counts the clients made for a destination.
pub record ClientMgr : Type 0 where
  pub client_pool_list : List (List (Bytes × ℕ))
  pub http_client_pool_list : List (Bytes × List ℕ)
  pub client_num : List (Bytes × ℕ)
  pub next_client : ℕ
  pub log : List Bytes

abbrev pub get_client_id : Bytes → Bytes → Bytes
get_client_id host port = host ++ codes ":" ++ port

abbrev pub free_clients : ClientMgr → Bytes → List ℕ
free_clients m id = lookup_or id [] m.http_client_pool_list

abbrev pub made : ClientMgr → Bytes → ℕ
made m id = lookup_or id 0 m.client_num

-- The head of the pool of the destination, or a new client unless there are too many: the client
-- on which the request is then sent, or null.
unfoldable pub take_client : ClientMgr → Bytes → ClientMgr × Option ℕ
take_client m id = elim (free_clients m id) [
  | client ∷ rest ↦
      (record m { http_client_pool_list = insert id rest m.http_client_pool_list }, some client)
  | [] ↦
      if ltb max_client_num (made m id)
      then (record m { client_num = insert id (made m id) m.client_num; log = id ∷ m.log }, none)
      else (
        record m {
          client_num = insert id (made m id + 1) m.client_num;
          next_client = m.next_client + 1;
        },
        some m.next_client,
      )
]

-- client_pool[client_id].push_back(client)
unfoldable pub put_back : Bytes → ℕ → ClientMgr → ClientMgr
put_back id client m = record m {
  http_client_pool_list = insert id (free_clients m id ++ client ∷ []) m.http_client_pool_list;
}

-- Behind the send: a client on which it failed goes back to the pool and null is returned.
unfoldable pub after_send : Bytes → ℕ → Bool → ClientMgr → ClientMgr × Option ℕ
unfolding put_back
after_send id client true m = (m, some client)
after_send id client false m = (put_back id client m, none)

-- send_request for HTTP is `take_client`, the send on that client, and `after_send`, between which
-- other fibers of the thread run; this is the call with none between. `sent` is what
-- FibpHttpClient::send_request returns on the client.
unfoldable pub send_request_http : ClientMgr → Bytes → Bytes → (ℕ → Bool) → ClientMgr × Option ℕ
unfolding take_client after_send
send_request_http m ip port sent =
    let id = get_client_id ip port in
    let (m', client) = take_client m id in
    elim client [ none ↦ (m', none) | some c ↦ after_send id c (sent c) m' ]

-- get_response of an HTTP client, which goes back to the pool
unfoldable pub get_response_http : ClientMgr → Bytes → Bytes → ℕ → ClientMgr
unfolding put_back
get_response_http m host port client = put_back (get_client_id host port) client m

-- The shared client of a destination for RPC and raw services: the one that is there, or a new one.
-- `none` is the null future of a type that is not supported.
unfoldable pub shared_client : ClientMgr → Bytes → ℕ → ClientMgr × Option ℕ
shared_client m id calltype =
    let table = get_or m.client_pool_list calltype [] in
    elim (lookup id table) [
      | some client ↦ (m, some client)
      | none ↦
          if calltype == rpc_service || calltype == raw_service
          then (
            record m {
              client_pool_list = set m.client_pool_list calltype (insert id m.next_client table);
              client_num = insert id (made m id + 1) m.client_num;
              next_client = m.next_client + 1;
            },
            some m.next_client,
          )
          else (m, none)
    ]

-- send_request for RPC and raw services up to the send on the shared client; `thrown` is throw -1.
pub data Shared : Type 0 where
  thrown : Shared
  answered : ClientMgr → Option ℕ → Shared

unfoldable pub send_request_other : ClientMgr → Bytes → Bytes → ℕ → Shared
unfolding shared_client
send_request_other m ip port calltype =
    let (m', client) = shared_client m (get_client_id ip port) calltype in
    if leb (length m.client_pool_list) calltype || calltype == http_service
    then thrown
    else answered m' client
