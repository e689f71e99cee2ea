-- ===== src/Http.antt =====
-- source/core/fiber-server/HttpProtocolHandler.{h,cpp}: the messages of HTTP, the writer of requests,
-- and the callbacks by which a response is gathered from the pieces that http_parser, a vendored
-- library, finds. The library's calls of the callbacks are a list.
pub mod Gather
pub mod Client
pub mod Exchange
pub mod Incoming
pub mod Pieces
pub mod Read
pub mod Writer
use fiberproxy.Prelude.{
  ℕ, zero, suc, ◌+◌, Bool, true, false, List, [], ◌∷◌, ◌++◌, Option, none, some, Bytes, codes,
  bytes_eq, if◌then◌else◌, ◌==◌, length, is_empty, not,
}

-- header_t
abbrev pub Header : Type 0
Header = Bytes × Bytes

-- find_header, which gives "" for a missing header
unfoldable pub find_header : List Header → Bytes → Bytes
find_header [] key = []
find_header ((name, val) ∷ headers) key = if bytes_eq name key then val else find_header headers key

pub record Request : Type 0 where
  pub http_major : ℕ
  pub http_minor : ℕ
  pub method : Bytes
  pub path : Bytes
  pub query : Bytes
  pub headers : List Header
  pub keep_alive : Bool
  pub body : Bytes

pub record Response : Type 0 where
  pub http_major : ℕ
  pub http_minor : ℕ
  pub code : ℕ
  pub status_message : Bytes
  pub headers : List Header
  pub keep_alive : Bool
  pub body : Bytes

-- response_t::clear, with GATEWAY_TIMEOUT for a code
abbrev pub cleared : Response
cleared = record {
  http_major = 1;
  http_minor = 1;
  code = 504;
  status_message = [];
  headers = [];
  keep_alive = false;
  body = [];
}

-- parser_state
pub data ParserState : Type 0 where
  idle start status field value content end : ParserState

-- A call of a callback, with the bytes it is given. At the end of a message the callback reads the
-- version, the code and the decision on the connection from the parser.
pub data Callback : Type 0 where
  on_msg_begin on_headers_complete : Callback
  on_status_complete on_header_field on_header_value on_body : Bytes → Callback
  on_msg_complete : ℕ → ℕ → ℕ → Bool → Callback

pub record Parser : Type 0 where
  pub state : ParserState
  pub rsp : Response
  pub should_continue : Bool

-- headers_.rbegin()->first.append(at, length); the code reaches it only with a header there
unfoldable pub append_name : Bytes → List Header → List Header
append_name s [] = []
append_name s ((n, v) ∷ []) = (n ++ s, v) ∷ []
append_name s (h ∷ k ∷ hs) = h ∷ append_name s (k ∷ hs)

-- what `set` makes of the value of the last header
unfoldable pub change_value : (Bytes → Bytes) → List Header → List Header
change_value set [] = []
change_value set ((n, v) ∷ []) = (n, set v) ∷ []
change_value set (h ∷ k ∷ hs) = h ∷ change_value set (k ∷ hs)

abbrev pub is_status : ParserState → Bool
is_status status = true
is_status idle = false
is_status start = false
is_status field = false
is_status value = false
is_status content = false
is_status end = false

abbrev pub is_field : ParserState → Bool
is_field field = true
is_field idle = false
is_field start = false
is_field status = false
is_field value = false
is_field content = false
is_field end = false

abbrev pub is_value : ParserState → Bool
is_value value = true
is_value idle = false
is_value start = false
is_value status = false
is_value field = false
is_value content = false
is_value end = false

unfoldable pub step : Callback → Parser → Parser
step on_msg_begin p = record p { rsp = cleared; state = start }
step on_headers_complete p = p
step (on_status_complete s) p = record p {
  rsp = record (p.rsp) {
    status_message = if is_status p.state then p.rsp.status_message ++ s else s;
  };
  state = status;
}
step (on_header_field s) p = record p {
  rsp = record (p.rsp) {
    headers =
        if is_field p.state then append_name s p.rsp.headers else p.rsp.headers ++ (s, []) ∷ [];
  };
  state = field;
}
step (on_header_value s) p = record p {
  rsp = record (p.rsp) {
    headers = change_value (λ v. if is_value p.state then v ++ s else s) p.rsp.headers;
  };
  state = value;
}
step (on_body s) p = record p { rsp = record (p.rsp) { body = p.rsp.body ++ s }; state = content }
step (on_msg_complete major minor code keep) p = record p {
  rsp = record (p.rsp) { http_major = major; http_minor = minor; code = code; keep_alive = keep };
  state = end;
  should_continue = false;
}

-- the callbacks that http_parser_execute makes, over all the reads of a message
unfoldable pub run : List Callback → Parser → Parser
run [] p = p
run (c ∷ cs) p = run cs (step c p)

abbrev pub crlf : Bytes
crlf = 13 ∷ 10 ∷ []

unfoldable pub header_lines : List Header → Bytes
header_lines [] = []
header_lines ((name, val) ∷ hs) = name ++ codes ": " ++ val ++ crlf ++ header_lines hs

-- what follows the method in the first line: the path, and the query unless it is empty
unfoldable pub target : Bytes → Bytes → Bytes
target path query = if not (is_empty query) then path ++ codes "?" ++ query else path

-- operator<< for a request, with `text` for the decimal digits of a number
unfoldable pub write_request : (ℕ → Bytes) → Request → Bytes
unfolding target header_lines
write_request text req =
    req.method
    ++ codes " "
    ++ target req.path req.query
    ++ codes " HTTP/"
    ++ text req.http_major
    ++ codes "."
    ++ text req.http_minor
    ++ crlf
    ++ header_lines req.headers
    ++ codes "Content-Length: "
    ++ text (length req.body)
    ++ crlf
    ++ (if req.keep_alive then codes "Connection: Keep-Alive" else codes "Connection: close")
    ++ crlf
    ++ crlf
    ++ req.body
