-- ===== src/Http/Incoming.antt =====
-- source/core/fiber-server/HttpProtocolHandler.cpp, namespace request: the callbacks by which a server
-- gathers a request. The calls that http_parser makes of them are a list, and what its URL parser
-- finds is a parameter.
use fiberproxy.Prelude.{
  ℕ, Bool, true, false, List, [], ◌∷◌, ◌++◌, Option, none, some, Bytes, if◌then◌else◌,
}
use fiberproxy.Types.{http_get}
use fiberproxy.Http.{Header, append_name, change_value}

-- request_t, with the method as its number
pub record RequestT : Type 0 where
  pub http_major : ℕ
  pub http_minor : ℕ
  pub method : ℕ
  pub host : Bytes
  pub port : ℕ
  pub path : Bytes
  pub query : Bytes
  pub headers : List Header
  pub keep_alive : Bool
  pub body : Bytes

-- request_t::clear
abbrev pub no_request : RequestT
no_request = record {
  http_major = 0;
  http_minor = 0;
  method = http_get;
  host = [];
  port = 0;
  path = [];
  query = [];
  headers = [];
  keep_alive = false;
  body = [];
}

-- http_parser_url: the parts that the URL has
pub record Url : Type 0 where
  pub url_host : Option Bytes
  pub url_port : Option ℕ
  pub url_path : Option Bytes
  pub url_query : Option Bytes

-- parser_state
pub data State : Type 0 where
  idle start url field value content end : State

-- A call of a callback with the bytes it is given; at the end of a message, the version, the method
-- and the decision on the connection come from the parser.
pub data Call : Type 0 where
  on_msg_begin on_headers_complete on_status_complete : Call
  on_url on_header_field on_header_value on_body : Bytes → Call
  on_msg_complete : ℕ → ℕ → ℕ → Bool → Call

pub record Gathered : Type 0 where
  pub state : State
  pub url_text : Bytes
  pub req : RequestT

abbrev pub is_url : State → Bool
is_url url = true
is_url idle = false
is_url start = false
is_url field = false
is_url value = false
is_url content = false
is_url end = false

abbrev pub is_field : State → Bool
is_field field = true
is_field idle = false
is_field start = false
is_field url = false
is_field value = false
is_field content = false
is_field end = false

abbrev pub is_value : State → Bool
is_value value = true
is_value idle = false
is_value start = false
is_value url = false
is_value field = false
is_value content = false
is_value end = false

abbrev pub given_or {ℓ} : {A : Type ℓ} → A → Option A → A
given_or d none = d
given_or d (some a) = a

-- what the end of a message sets from the parts of its URL
abbrev pub set_url : Url → RequestT → RequestT
set_url u r = record r {
  host = given_or r.host u.url_host;
  port = given_or 0 u.url_port;
  path = given_or r.path u.url_path;
  query = given_or r.query u.url_query;
}

module _ (parse_url : Bytes → Url) where
  unfoldable pub step : Call → Gathered → Gathered
  step on_msg_begin p = record { state = start; url_text = []; req = no_request }
  step on_headers_complete p = p
  step on_status_complete p = p
  step (on_url s) p = record p {
    url_text = if is_url p.state then p.url_text ++ s else s;
    state = url;
  }
  step (on_header_field s) p = record p {
    req = record (p.req) {
      headers =
          if is_field p.state then append_name s p.req.headers else p.req.headers ++ (s, []) ∷ [];
    };
    state = field;
  }
  step (on_header_value s) p = record p {
    req = record (p.req) {
      headers = change_value (λ v. if is_value p.state then v ++ s else s) p.req.headers;
    };
    state = value;
  }
  step (on_body s) p = record p { req = record (p.req) { body = p.req.body ++ s }; state = content }
  step (on_msg_complete major minor m keep) p = record p {
    state = end;
    req = record (set_url (parse_url p.url_text) p.req) {
      method = m;
      http_major = major;
      http_minor = minor;
      keep_alive = keep;
    };
  }

  unfoldable pub run : List Call → Gathered → Gathered
  run [] p = p
  run (c ∷ cs) p = run cs (step c p)
