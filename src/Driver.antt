-- ===== src/Driver.antt =====
-- source/core/fiber-server/FiberDriverConnection.cpp: the loop that reads the forms of a driver
-- connection, a sequence number, a size and a payload, and the handling of a request. Requests `V`,
-- responses `R` and handlers `H` are of izenelib, through the interface Driver. The variants with
-- callbacks (asyncReadFormHeader and its followers) are called by nobody. The exception of
-- remote_endpoint() in set_remote_ip, for a peer that has gone, is not modelled.
pub mod Gives
pub mod Sequence
use fiberproxy.Prelude.{
  ℕ, Bool, true, false, ◌&&◌, ◌||◌, not, List, [], ◌∷◌, ◌++◌, Option, none, some, Bytes, codes,
  if◌then◌else◌, ◌==◌, ltb, ◌⊎◌, inl, inr,
}

-- kLimitSize
abbrev pub limit_size : ℕ
limit_size = 67108864

-- How the call of an asynchronous handler ends.
pub data Invoked : Type 0 where
  threw : (what : Bytes) → Invoked
  answered : Invoked
  deferred : Invoked

pub record Driver (V R H : Type 0) : Type 0 where
  -- the JSON reader, with its error messages
  pub read : Bytes → Bytes ⊎ V
  pub is_object : V → Bool
  pub controller : V → Bytes
  pub action : V → Bytes
  pub find : Bytes → Bytes → Option H
  pub is_async : H → Bool
  -- the header remote_ip, and the timers, when the request asks for them
  pub set_remote_ip : V → V
  pub add_process_time : V → R → R
  pub add_total_time : V → R → R
  -- what a handler makes of the response, with the text of its exception
  pub invoke : H → V → R → R × Option Bytes
  pub invoke_async : H → V → R → R × Invoked
  pub new_response : R
  pub set_success : R → R
  pub add_error : Bytes → R → R
  -- the JSON writer
  pub write : R → Bytes

-- The responses that are written, with their sequence numbers, the requests that the fiber pool
-- has, and those whose handlers will answer.
pub record Conn (V R : Type 0) : Type 0 where
  pub sent : List (ℕ × Bytes)
  pub receiving : Bool
  pub queued : List (ℕ × V)
  pub waiting : List (ℕ × (V × R))

-- A form: the read of the header fails, or gives the numbers, and then the read of the payload
-- fails or gives it.
pub data Form : Type 0 where
  no_header : (message : Bytes) → Form
  form : (sequence size : ℕ) (payload : Bytes ⊎ Bytes) → Form

abbrev pub shutdown_receive : {V R : Type 0} → Conn V R → Conn V R
shutdown_receive c = record c { receiving = false }

module _ {V R H : Type 0} (d : Driver V R H) where
  -- writeRsp; a write that fails is only logged
  abbrev pub put : ℕ → R → Conn V R → Conn V R
  put sequence r c = record c { sent = c.sent ++ (sequence, d.write r) ∷ [] }

  unfoldable pub write_rsp : ℕ → V → R → Conn V R → Conn V R
  write_rsp sequence v r c = put sequence (d.add_total_time v r) c

  -- writeError, on a request that was not read
  unfoldable pub write_error : ℕ → Bytes → Conn V R → Conn V R
  write_error sequence errmsg c = put sequence (d.add_error errmsg d.new_response) c

  unfoldable pub after_invoke : ℕ → V → R × Option Bytes → Conn V R → Conn V R
  after_invoke sequence v (r, none) c = write_rsp sequence v (d.add_process_time v r) c
  after_invoke sequence v (r, some what) c = write_rsp sequence v (d.add_error what r) c

  unfoldable pub after_invoke_async : ℕ → V → R × Invoked → Conn V R → Conn V R
  after_invoke_async sequence v (r, threw what) c = write_rsp sequence v (d.add_error what r) c
  after_invoke_async sequence v (r, answered) c = write_rsp sequence v r c
  after_invoke_async sequence v (r, deferred) c = record c {
    waiting = c.waiting ++ (sequence, (v, r)) ∷ [];
  }

  unfoldable pub invoke : ℕ → V → H → Conn V R → Conn V R
  invoke sequence v h c =
      let w = d.set_remote_ip v in
      let r = d.set_success d.new_response in
      if not (d.is_async h)
      then after_invoke sequence w (d.invoke h w r) c
      else after_invoke_async sequence w (d.invoke_async h w r) c

  unfoldable pub handle_request_func : ℕ → V → Conn V R → Conn V R
  handle_request_func sequence v c = elim (d.find (d.controller v) (d.action v)) [
    | none ↦ write_rsp sequence v (d.add_error (codes "Handler not found") d.new_response) c
    | some h ↦ invoke sequence v h c
  ]

  unfoldable pub handle_request : Bool → ℕ → Bytes → Conn V R → Conn V R
  handle_request pooled sequence payload c = elim (d.read payload) [
    | inl messages ↦ write_error sequence messages c
    | inr v ↦
        if not (d.is_object v)
        then write_error sequence (codes "Malformed request: require an object as input.") c
        else if pooled
        then record c { queued = c.queued ++ (sequence, v) ∷ [] }
        else handle_request_func sequence v c
  ]

  unfoldable pub start : Bool → List Form → Conn V R → Conn V R
  start pooled [] c = c
  start pooled (no_header message ∷ forms) c = shutdown_receive (write_error 0 message c)
  start pooled (form sequence size payload ∷ forms) c =
      if sequence == 0 || size == 0
      then shutdown_receive c
      else if ltb limit_size size
      then shutdown_receive (write_error sequence (codes "Size exceeds limit.") c)
      else elim payload [
        | inl message ↦ shutdown_receive (write_error sequence message c)
        | inr bytes ↦ start pooled forms (handle_request pooled sequence bytes c)
      ]

  -- A fiber of the pool takes a request.
  unfoldable pub run_queued : Conn V R → Conn V R
  run_queued c = elim c.queued [
    | [] ↦ c
    | (sequence, v) ∷ rest ↦ handle_request_func sequence v (record c { queued = rest })
  ]

  -- The first handler that waits has made its response into `r'`.
  unfoldable pub finish_waiting : R → Conn V R → Conn V R
  finish_waiting r' c = elim c.waiting [
    | [] ↦ c
    | (sequence, (v, r)) ∷ rest ↦ write_rsp sequence v r' (record c { waiting = rest })
  ]
