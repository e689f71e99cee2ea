-- ===== src/RpcClient.antt =====
-- source/core/forward-manager/FibpClient.cpp, FibpRpcClient: a connection that many fibers share, whose
-- answers a fiber reads through the unpacker of msgpack. Its table of futures is that of the raw
-- client. What msgpack packs and finds is a parameter. An exception of rpc_pac_->execute, for bytes that
-- are no msgpack, is not modelled.
pub mod Outcome
use fiberproxy.Prelude.{
  ℕ, ◌+◌, ◌%◌, ◌^◌, Bool, true, false, not, List, [], ◌∷◌, ◌++◌, Option, none, some, Bytes, codes,
  lookup, insert, erase, nat_key,
}
use fiberproxy.ClientFuture.{Future, new_future, set_result}
use fiberproxy.RawClient.{RawClient, set_response, set_all_error}

abbrev pub too_large : Bytes
too_large = codes "Server Response Too Large."

-- What the loop of the reading fiber meets: a response with a result, which is packed again, or an
-- error, in text; a response that does not convert; a read that fails; a message above ten
-- megabytes that is not complete.
pub data Met : Type 0 where
  result : (msgid : ℕ) (packed : Bytes) → Met
  error : (msgid : ℕ) (text : Bytes) → Met
  bad : (what : Bytes) → Met
  read_failed : (message : Bytes) → Met
  large : Met

-- rpc_fail
unfoldable pub rpc_fail : Bytes → RawClient → RawClient
rpc_fail rsp c = let c' = set_all_error rsp c in record c' { reading = false }

unfoldable pub handle_read : List Met → RawClient → RawClient
handle_read [] c = c
handle_read (result msgid packed ∷ met) c = handle_read met (set_response msgid packed true false c)
handle_read (error msgid text ∷ met) c = handle_read met (set_response msgid text false false c)
handle_read (bad what ∷ met) c = rpc_fail what c
handle_read (read_failed message ∷ met) c = rpc_fail message c
handle_read (large ∷ met) c = rpc_fail too_large c

-- send_request up to the send; `pack` packs a request of a number, a method and packed parameters
unfoldable pub begin_request :
    (ℕ → Bytes → Bytes → Bytes) → ℕ → Bytes → Bytes → RawClient → RawClient × ℕ × Bytes
begin_request pack h path reqdata c =
    let msgid = (c.fid + 1) % 2 ^ 32 in
    (
      record c {
        fid = msgid;
        future_list = insert msgid h c.future_list;
        heap = insert h new_future c.heap;
      },
      msgid,
      pack msgid path reqdata,
    )

-- send_request behind the send; the flag is whether it starts the reading fiber
unfoldable pub end_request : ℕ → ℕ → Bool → RawClient → RawClient × Option ℕ × Bool
end_request msgid h true c = (record c { reading = true }, some h, not c.reading)
end_request msgid h false c = (record c { future_list = erase msgid c.future_list }, none, false)
