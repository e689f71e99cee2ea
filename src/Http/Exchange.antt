-- ===== src/Http/Exchange.antt =====
-- source/core/forward-manager/FibpClient.cpp, FibpHttpClient: a request and its response, over the
-- session of the client. What the system makes of a connect, a write and a shutdown, and what the
-- parser returns, are arguments.
pub mod Outcome
use fiberproxy.Prelude.{
  ℕ, ◌*◌, Bool, true, false, not, ◌||◌, ◌&&◌, [], ◌∷◌, ◌++◌, Bytes, codes, Option, none, some,
  is_some, ◌≡◌, refl, ap, ◌∙◌, arith, if◌then◌else◌, ◌==◌,
}
use fiberproxy.Http.{Header, Request, Response, write_request}
use fiberproxy.Http.Client.{make_request, get_response, timeout_text, ReadError, is_eof, is_aborted}
use fiberproxy.Session.{Session, End, send_data, shutdown, prepare_timeout, clear_timeout}
use fiberproxy.Session.Sending.{Sent, send_data-Sent}

pub record HttpClient : Type 0 where
  pub session : Session
  pub host : Bytes
  pub port : Bytes
  pub can_retry : Bool

-- session_->set_timeout(timeout_ms * 2, timeout_ms)
abbrev pub with_timeout : ℕ → Session → Session
with_timeout timeout_ms s = record s { conn_to = timeout_ms * 2; read_to = timeout_ms }

abbrev pub host_header : HttpClient → Header
host_header c = (codes "Host", c.host ++ codes ":" ++ c.port)

-- http_req.headers_.push_back, in the request of the caller
abbrev pub with_host : HttpClient → Request → Request
with_host c req = record req { headers = req.headers ++ host_header c ∷ [] }

-- How the connect, which opens the socket or not, and the write end, and whether a shutdown throws.
pub record SendEnds : Type 0 where
  pub conn : End
  pub opened : Bool
  pub wrote : End
  pub throws : Bool

-- The answer, the request as the caller finds it, and the client.
unfoldable pub send_http_request :
    (ℕ → Bytes) → SendEnds → ℕ → Request → HttpClient → Bool × Request × HttpClient
unfolding write_request send_data
send_http_request text ends timeout_ms http_req c =
    let req = with_host c http_req in
    let (ret, s) =
      send_data ends.conn ends.opened ends.wrote ends.throws (write_request text req)
        (with_timeout timeout_ms c.session) in
    (ret, req, record c { session = s; can_retry = true })

-- FibpHttpClient::send_request, whose request nobody else sees
unfoldable pub send_request :
    (ℕ → Bytes) → SendEnds → Bytes → Bytes → Bytes → ℕ → HttpClient → Bool × HttpClient
unfolding send_http_request make_request
send_request text ends path method reqdata timeout_ms c =
    let (ret, req, c') =
      send_http_request text ends timeout_ms (make_request path method reqdata) c in
    (ret, c')

abbrev pub exchanged : Session → Session
exchanged s = clear_timeout (prepare_timeout s.read_to s)

-- session_->shutdown(true), when the session is to be closed; `throws` is whether it throws.
abbrev pub shut_if : Bool → Bool → Session → Session
shut_if true throws s = shutdown true throws s
shut_if false throws s = s

-- The end of get_http_response, for a response that is right or not.
abbrev pub with_result : Bool → Response → ReadError → HttpClient → Bool × Response × HttpClient
with_result true rsp ec c = (true, rsp, record c { can_retry = true })
with_result false rsp ec c = (
  false,
  if is_aborted ec then record rsp { status_message = timeout_text } else rsp,
  record c { can_retry = not (rsp.code == 400 || rsp.code == 404) },
)

-- FibpHttpClient::get_http_response behind parse_response, which has returned `ret` with the
-- response and an error.
unfoldable pub get_http_response :
    Bool → Response → ReadError → Bool → HttpClient → Bool × Response × HttpClient
unfolding shutdown
get_http_response ret next_rsp ec throws c =
    let closing = not next_rsp.keep_alive || is_eof ec || is_aborted ec in
    with_result (ret && next_rsp.code == 200) next_rsp ec
      (record c { session = shut_if closing throws (exchanged c.session) })

-- What the parser returns for a response, and whether the shutdown behind it throws.
pub record Parsed : Type 0 where
  pub ret : Bool
  pub rsp : Response
  pub ec : ReadError
  pub throws : Bool

abbrev pub then_response :
    Parsed → Bool × Request × HttpClient → Bool × Option Response × Request × HttpClient
then_response p (false, req, c) = (false, none, req, c)
then_response p (true, req, c) =
    let (ok, rsp, c') = get_http_response p.ret p.rsp p.ec p.throws c in (ok, some rsp, req, c')

-- FibpHttpClient::get_response of a client behind parse_response: the body, or what went wrong.
unfoldable pub get_text : Parsed → HttpClient → Bytes × HttpClient
unfolding get_response shutdown
get_text p c =
    let x = get_response p.ret p.rsp p.ec in
    (
      x.rsp,
      record c {
        session = shut_if x.closed p.throws (exchanged c.session);
        can_retry = x.can_retry;
      },
    )

-- the constructors of FibpHttpClient and ClientSession
abbrev pub new_client : Bytes → Bytes → HttpClient
new_client host port = record {
  session = record {
    is_open = false;
    receiving = false;
    connecting = false;
    deadline = false;
    conn_to = 5000;
    read_to = 5000;
    sent = [];
  };
  host = host;
  port = port;
  can_retry = true;
}

-- A request, and its response when it was sent, as longPollingRequest, watchCurrentClusterName and
-- reportServiceStats of FibpServiceMgr.cpp make them.
unfoldable pub exchange :
    (ℕ → Bytes)
    → SendEnds
    → Parsed
    → ℕ
    → Request
    → HttpClient
    → Bool × Option Response × Request × HttpClient
unfolding send_http_request get_http_response
exchange text ends p timeout_ms req c =
    then_response p (send_http_request text ends timeout_ms req c)
