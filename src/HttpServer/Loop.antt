-- ===== src/HttpServer/Loop.antt =====
-- do_parse of source/core/fiber-server/HttpProtocolHandler.cpp, over what the socket gave so far.
use fiberproxy.Prelude.{
  ℕ, Bool, true, false, ◌||◌, not, List, [], ◌∷◌, Option, some, Bytes, if◌then◌else◌, ◌==◌, bind,
}
use fiberproxy.Http.Incoming.{RequestT}
use fiberproxy.HttpServer.{
  Router, Texts, Conn, write_error_rsp, s_err_rsp_500, shutdown, write_rsp, handle_request_func,
  request_cb,
}

-- A read fails, by another error than the end of the stream, or has `n` bytes, in which http_parser
-- finds the ends of the messages; `whole` is whether it takes all the bytes.
pub data Read : Type 0 where
  failed : Read
  chunk : (n : ℕ) (messages : List RequestT) (whole : Bool) → Read

-- A use of the parser's own fields, after a callback and at the end.
abbrev pub touch : Conn → Conn
touch c = record c { stale = c.stale || not c.parser }

-- onReadError
unfoldable pub on_read_error : Conn → Option Conn
on_read_error c = write_error_rsp s_err_rsp_500 c

module _ (lib : Texts) {H : Type 0} (router : Router H) (pooled : Bool) where
  -- http_parser_execute: on_msg_complete for each message, until one tells it to stop. The flag is
  -- should_continue_.
  unfoldable pub execute : List RequestT → Conn → Option (Bool × Conn)
  execute [] c = some (true, c)
  execute (m ∷ ms) c =
      bind (request_cb lib router pooled m c)
        (λ (go, d). if go then execute ms (touch d) else some (false, touch d))

  -- what follows the messages of a read, which ends the loop (`false`) or goes on
  unfoldable pub after_execute : ℕ → Bool → Bool → Conn → Bool × Conn
  after_execute n whole go c =
      if n == 0
      then (false, shutdown c)
      else if not go
      then (false, c)
      else if not whole
      then (false, shutdown c)
      else (true, c)

  unfoldable pub do_parse : List Read → Conn → Option Conn
  do_parse [] c = some c
  do_parse (failed ∷ reads) c = bind (on_read_error c) (λ d. some (touch d))
  do_parse (chunk n messages whole ∷ reads) c = bind (execute messages c) (λ (go, d).
      let (on, e) = after_execute n whole go d in if on then do_parse reads e else some (touch e))

  -- A fiber of the pool takes a request, whose result nobody reads.
  unfoldable pub run_queued : Conn → Option Conn
  run_queued c = elim c.queued [
    | [] ↦ some c
    | (controller, action, req) ∷ rest ↦
        bind (handle_request_func lib router controller action req (record c { queued = rest }))
          (λ (ok, d). some d)
  ]

-- The handler of a request that waits has its answer.
unfoldable pub finish_waiting :
    Texts → RequestT → List RequestT → Bytes → Bytes → Conn → Option Conn
finish_waiting lib req rest raw json c = write_rsp lib req raw json (record c { waiting = rest })
