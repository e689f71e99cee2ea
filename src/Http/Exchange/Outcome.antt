-- ===== src/Http/Exchange/Outcome.antt =====
-- What an exchange of FibpHttpClient (source/core/forward-manager/FibpClient.cpp) leaves.
use fiberproxy.Prelude.{
  ℕ, Bool, true, false, not, ◌||◌, ◌&&◌, [], ◌∷◌, ◌++◌, Bytes, Option, is_some, ◌≡◌, refl, ap, ◌∙◌,
  arith, if◌then◌else◌, ◌==◌,
}
use fiberproxy.Http.{Request, Response, write_request}
use fiberproxy.Http.Client.{get_response, is_eof, is_aborted}
use fiberproxy.Session.{Session, send_data, shutdown}
use fiberproxy.Session.Sending.{Sent, send_data-Sent}
use fiberproxy.Http.Exchange.{
  HttpClient, with_timeout, host_header, with_host, SendEnds, send_http_request, exchanged, shut_if,
  with_result, get_http_response, Parsed, then_response, get_text, exchange,
}

-- No fiber connects the session, and it has no deadline.
abbrev pub IsIdle : HttpClient → Type 0
IsIdle c = (c.session.connecting ≡ false) × (c.session.deadline ≡ false)

abbrev pub closes : Parsed → Bool
closes p = not p.rsp.keep_alive || is_eof p.ec || is_aborted p.ec

-- What an exchange leaves, where `ok` is whether it succeeded, `rsp` is its response, if it has one, and
-- `text` the text of its request.
pub record Exchanged (ok : Bool) (rsp : Option Response) (text : Bytes) (p : Parsed)
    (c d : HttpClient) : Type 0 where
  pub idle : IsIdle d
  pub writes :
      d.session.sent ≡ (if is_some rsp then c.session.sent ++ text ∷ [] else c.session.sent)
  pub connected : d.session.is_open ≡ (is_some rsp && not (closes p))
  pub success : ok ≡ (is_some rsp && (p.ret && p.rsp.code == 200))

-- Behind a response the session is closed, or left as it was.
record Shut (closing : Bool) (s t : Session) : Type 0 where
  settled : t.connecting ≡ s.connecting
  untimed : t.deadline ≡ false
  keeps : t.sent ≡ s.sent
  connected : t.is_open ≡ (s.is_open && not closing)

abbrev After : Parsed → HttpClient → HttpClient → Type 0
After p c d = Shut (closes p) c.session d.session

shut_if-Shut :
    (closing throws : Bool) (s : Session) → Shut closing s (shut_if closing throws (exchanged s))
unfolding shutdown
shut_if-Shut true true s = record {
  settled = ground arith;
  untimed = refl;
  keeps = ground arith;
  connected = ground arith;
}
shut_if-Shut true false s = record {
  settled = ground arith;
  untimed = refl;
  keeps = ground arith;
  connected = ground arith;
}
shut_if-Shut false throws s = record {
  settled = ground arith;
  untimed = refl;
  keeps = ground arith;
  connected = ground arith;
}

get_http_response-After :
    (p : Parsed) (c : HttpClient)
    → let (ok, rsp, d) = get_http_response p.ret p.rsp p.ec p.throws c in
      After p c d × (ok ≡ (p.ret && p.rsp.code == 200))
unfolding get_http_response
get_http_response-After p c = go (p.ret && p.rsp.code == 200)
  where
    go :
        (b : Bool)
        → let (ok, rsp, d) =
            with_result b p.rsp p.ec
              (record c { session = shut_if (closes p) p.throws (exchanged c.session) }) in
          After p c d × (ok ≡ b)
    go true = (shut_if-Shut (closes p) p.throws c.session, refl)
    go false = (shut_if-Shut (closes p) p.throws c.session, refl)

-- An exchange of an HTTP client whose session no other fiber connects and that has no deadline,
-- however the connect, the write, the response and the shutdown end: it has a response exactly when
-- the request was sent, and the text of the request with the header of the host is then the last
-- that was written whole; it succeeds when the response came well with the code 200; the session is
-- open behind it exactly when there is a response that keeps it alive, and the read met neither the
-- end nor an abort; and the client is then as idle as before.
pub exchange-Exchanged :
    (text : ℕ → Bytes) (ends : SendEnds) (p : Parsed) (timeout_ms : ℕ) (req : Request)
    (c : HttpClient)
    → IsIdle c
    → let (ok, rsp, req', d) = exchange text ends p timeout_ms req c in
      Exchanged ok rsp (write_request text (with_host c req)) p c d
unfolding exchange send_http_request
exchange-Exchanged text ends p timeout_ms req c (settled, untimed) =
    go
      (send_data ends.conn ends.opened ends.wrote ends.throws (write_request text (with_host c req))
        (with_timeout timeout_ms c.session))
      (send_data-Sent ends.conn ends.opened ends.wrote ends.throws
        (write_request text (with_host c req)) (with_timeout timeout_ms c.session) settled untimed)
  where
    go :
        (r : Bool × Session)
        → Sent r.0 (write_request text (with_host c req)) (with_timeout timeout_ms c.session) r.1
        → let (ok, rsp, req', d) =
            then_response p (r.0, with_host c req, record c { session = r.1; can_retry = true }) in
          Exchanged ok rsp (write_request text (with_host c req)) p c d
    go (false, s) w = record {
      idle = (w.settled, w.untimed);
      writes = w.writes;
      connected = w.stays;
      success = refl;
    }
    go (true, s) w =
        let (after, ok) = get_http_response-After p (record c { session = s; can_retry = true }) in
        record {
          idle = (after.settled ∙ w.settled, after.untimed);
          writes = after.keeps ∙ w.writes;
          connected = after.connected ∙ ap (λ b. b && not (closes p)) w.stays;
          success = ok;
        }

pub send_http_request-IsIdle :
    (text : ℕ → Bytes) (ends : SendEnds) (timeout_ms : ℕ) (req : Request) (c : HttpClient)
    → IsIdle c
    → IsIdle (send_http_request text ends timeout_ms req c).2
unfolding send_http_request
send_http_request-IsIdle text ends timeout_ms req c (settled, untimed) =
    let w =
      send_data-Sent ends.conn ends.opened ends.wrote ends.throws
        (write_request text (with_host c req)) (with_timeout timeout_ms c.session) settled
        untimed in
    (w.settled, w.untimed)

pub get_text-IsIdle : (p : Parsed) (c : HttpClient) → IsIdle c → IsIdle (get_text p c).1
unfolding get_text
get_text-IsIdle p c (settled, untimed) =
    let s = shut_if-Shut (get_response p.ret p.rsp p.ec).closed p.throws c.session in
    (s.settled ∙ settled, s.untimed)

pub send_http_request-headers :
    (text : ℕ → Bytes) (ends : SendEnds) (timeout_ms : ℕ) (req : Request) (c : HttpClient)
    → (send_http_request text ends timeout_ms req c).1.headers ≡ req.headers ++ host_header c ∷ []
unfolding send_http_request
send_http_request-headers text ends timeout_ms req c = refl
