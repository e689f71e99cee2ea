-- ===== src/HttpServer.antt =====
-- source/core/fiber-server/HttpConnection.cpp: how a connection answers the requests that its parser
-- finds, and do_parse of HttpProtocolHandler.cpp, the loop that reads them. The handlers of the
-- router, boost::trim_if and boost::split at slashes, and what http_parser finds in a read are
-- parameters. A write that fails throws, which is `none`.
pub mod Loop
pub mod Order
pub mod Since
pub mod Pipeline
use fiberproxy.Prelude.{
  ℕ, Bool, true, false, ◌&&◌, ◌||◌, not, List, [], ◌∷◌, ◌++◌, Option, none, some, Bytes, codes,
  if◌then◌else◌, ◌==◌, is_empty, bind,
}
use fiberproxy.Http.{Header, Response, cleared, crlf}
use fiberproxy.Http.Incoming.{RequestT}
use fiberproxy.Http.Writer.{write_response}

abbrev pub s_err_rsp_500 : Bytes
s_err_rsp_500 = codes "HTTP/1.1 500 Internal Server Error" ++ crlf

abbrev pub s_err_rsp_400 : Bytes
s_err_rsp_400 = codes "HTTP/1.1 400 Bad Request" ++ crlf

abbrev pub s_err_rsp_404 : Bytes
s_err_rsp_404 = codes "HTTP/1.1 404 Not Found" ++ crlf

-- How the call of an asynchronous handler ends: by an exception, with the answer given, as a raw
-- body and the text of the JSON response, or with the answer to come.
pub data Invoked : Type 0 where
  threw : Invoked
  answered : (raw json : Bytes) → Invoked
  deferred : Invoked

-- The router with its handlers, which get the path with the query, the method and the body.
pub record Router (H : Type 0) : Type 0 where
  pub find : Bytes → Bytes → Option H
  pub is_async : H → Bool
  pub invoke_raw : H → Bytes → ℕ → Bytes → Option (Bytes × Bytes)
  pub invoke_raw_async : H → Bytes → ℕ → Bytes → Invoked

-- The texts of other libraries: decimal digits, the comparison of names, trimming and splitting.
pub record Texts : Type 0 where
  pub text : ℕ → Bytes
  pub iequals : Bytes → Bytes → Bool
  pub trim : Bytes → Bytes
  pub split : Bytes → List Bytes
  -- the text of a JSON response, to which write_rsp adds the timers when the header of the JSON
  -- request asks for them by check_fibp_time
  pub timed : RequestT → Bytes → Bytes

-- `queued` are the requests that the fiber pool has, `waiting` those whose handlers will answer.
-- `stale` is whether the parser was used after `shutdown` had freed it.
pub record Conn : Type 0 where
  pub writable : Bool
  pub answers : List Bytes
  pub receiving : Bool
  pub parser : Bool
  pub stale : Bool
  pub queued : List (Bytes × Bytes × RequestT)
  pub waiting : List RequestT

abbrev pub write : Bytes → Conn → Option Conn
write s c = if c.writable then some (record c { answers = c.answers ++ s ∷ [] }) else none

abbrev pub shutdown : Conn → Conn
shutdown c = record c { receiving = false; parser = false }

abbrev pub error_text : Bytes → Bytes
error_text rsp = rsp ++ codes "Content-Length: 0" ++ crlf ++ crlf

unfoldable pub write_error_rsp : Bytes → Conn → Option Conn
write_error_rsp rsp c = bind (write (error_text rsp) c) (λ d. some (shutdown d))

abbrev pub after_write : RequestT → Conn → Conn
after_write req c = if req.keep_alive then c else shutdown c

abbrev pub answer_headers : Bool → List Header
answer_headers keep_alive =
    (codes "ContentType", codes "application/json")
    ∷ (if keep_alive
        then (codes "Connection", codes "keep-alive")
          ∷ (codes "Keep-Alive", codes "timeout=100")
          ∷ []
        else (codes "Connection", codes "close") ∷ [])

abbrev pub full_path : RequestT → Bytes
full_path req = if not (is_empty req.query) then req.path ++ codes "?" ++ req.query else req.path

module _ (lib : Texts) where
  abbrev pub answer_text : RequestT → Bytes → Bytes → Bytes
  answer_text req raw json = write_response lib.text lib.iequals (record cleared {
    code = 200;
    headers = answer_headers req.keep_alive;
    body = if is_empty raw then lib.timed req json else raw;
  })

  unfoldable pub write_rsp : RequestT → Bytes → Bytes → Conn → Option Conn
  write_rsp req raw json c =
      bind (write (answer_text req raw json) c) (λ d. some (after_write req d))

  -- the controller and the action of a path
  unfoldable pub route : RequestT → Option (Bytes × Bytes)
  route req = if is_empty req.path then none else elim (lib.split (lib.trim req.path)) [
    | [] ↦ none
    | controller ∷ [] ↦ some (controller, [])
    | controller ∷ action ∷ more ↦ some (controller, action)
  ]

  module _ {H : Type 0} (router : Router H) where
    -- the end of a handler that threw, and of the catch around the write of its answer
    unfoldable pub fail_500 : Conn → Option (Bool × Conn)
    fail_500 c = bind (write_error_rsp s_err_rsp_500 c) (λ d. some (false, d))

    unfoldable pub answer : RequestT → Bytes → Bytes → Conn → Option (Bool × Conn)
    answer req raw json c = elim (write_rsp req raw json c) [
      | none ↦ fail_500 c
      | some d ↦ some (true, d)
    ]

    unfoldable pub invoke : H → RequestT → Conn → Option (Bool × Conn)
    invoke h req c =
        if router.is_async h
        then elim (router.invoke_raw_async h (full_path req) req.method req.body) [
          | threw ↦ fail_500 c
          | answered raw json ↦ answer req raw json c
          | deferred ↦ some (true, record c { waiting = c.waiting ++ req ∷ [] })
        ]
        else elim (router.invoke_raw h (full_path req) req.method req.body) [
          | none ↦ fail_500 c
          | some (raw, json) ↦ answer req raw json c
        ]

    unfoldable pub handle_request_func : Bytes → Bytes → RequestT → Conn → Option (Bool × Conn)
    handle_request_func controller action req c = elim (router.find controller action) [
      | none ↦ bind (write_error_rsp s_err_rsp_404 c) (λ d. some (false, d))
      | some h ↦ invoke h req c
    ]

    -- `pooled` is whether there is a fiber pool.
    unfoldable pub handle_request : Bool → RequestT → Conn → Option (Bool × Conn)
    handle_request pooled req c = elim (route req) [
      | none ↦ bind (write_error_rsp s_err_rsp_400 c) (λ d. some (false, d))
      | some (controller, action) ↦
          let trimmed = record req { path = lib.trim req.path } in
          if pooled
          then some (true, record c { queued = c.queued ++ (controller, action, trimmed) ∷ [] })
          else handle_request_func controller action trimmed c
    ]

    unfoldable pub request_cb : Bool → RequestT → Conn → Option (Bool × Conn)
    request_cb pooled req c =
        bind (handle_request pooled req c) (λ (ok, d). some (ok && req.keep_alive, d))
