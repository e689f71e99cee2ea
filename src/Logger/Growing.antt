-- ===== src/Logger/Growing.antt =====
-- source/core/log-manager/FibpLogger.cpp: the request and the client that all rounds of sendLogToDB
-- share.
use fiberproxy.Prelude.{
  ℕ, ◌+◌, All, All-append, codes, bytes_eq, ◌&&◌, Bool-cases, inl, inr, append_assoc, length-append,
  arith, true, false, none, Bool, List, [], ◌∷◌, ◌++◌, Option, some, Bytes, ◌≡◌, refl, ap, ◌∙◌,
  length,
}
use fiberproxy.ServiceMgr.{ServiceMgr, HostPair, get_service_address}
use fiberproxy.Types.{http_service}
use fiberproxy.Http.{Header, Request}
use fiberproxy.Http.Exchange.{HttpClient, Parsed, host_header, send_http_request}
use fiberproxy.Http.Exchange.Outcome.{
  IsIdle, send_http_request-IsIdle, send_http_request-headers, get_text-IsIdle,
}
use fiberproxy.Logger.{LogData}
use fiberproxy.Logger.Round.{
  LogSender, Sent, Writers, Happens, log_request_line, sent_points, found_client, find_log_service,
  after_post, post,
}
use fiberproxy.Logger.Rounds.{Rounds, start, round, posted, round_end, with_ring}

-- Headers that name a host.
abbrev pub Hosts : List Header → Type 0
Hosts headers = All (λ h. h.0 ≡ codes "Host") headers

found_client-IsIdle :
    (o : Option HostPair) (c : HttpClient)
    → IsIdle c
    → IsIdle (elim o [ none ↦ c | some address ↦ found_client c address ])
found_client-IsIdle none c i = i
found_client-IsIdle (some (ip, port)) c i =
    elim (Bool-cases (bytes_eq c.host ip && bytes_eq c.port port)) [
      | inl e ↦ rw e i
      | inr e ↦ rw e (refl, refl)
    ]

find_log_service-IsIdle :
    (log_service : Bytes) (mgr : Option ServiceMgr) (c : HttpClient)
    → IsIdle c
    → IsIdle (find_log_service mgr log_service c)
unfolding find_log_service
find_log_service-IsIdle log_service none c i = i
find_log_service-IsIdle log_service (some mgr) c i =
    found_client-IsIdle (get_service_address mgr 0 log_service http_service) c i

-- What a post leaves.
record Posted (req req' : Request) (c c' : HttpClient) : Type 0 where
  headers : req'.headers ≡ req.headers ++ host_header c ∷ []
  idle : IsIdle c'

after_post-Posted :
    (log_service : Bytes) (p : Parsed) (mgr : Option ServiceMgr) (req : Request) (c : HttpClient)
    (r : Bool × Request × HttpClient)
    → r.1.headers ≡ req.headers ++ host_header c ∷ []
    → IsIdle r.2
    → let (req', c') = after_post p mgr log_service r in Posted req req' c c'
after_post-Posted log_service p mgr req c (false, q, d) e i = record {
  headers = e;
  idle = find_log_service-IsIdle log_service mgr d i;
}
after_post-Posted log_service p mgr req c (true, q, d) e i = record {
  headers = e;
  idle = get_text-IsIdle p d i;
}

module _ {D : Type 0} (no_latency : D) (add_latency : D → ℕ → D) (mean : D → ℕ → D) (w : Writers)
    (log_service : Bytes) where
  -- The headers of the request behind `n` posts, and the session of the client.
  pub record Grows (n : ℕ) (c : LogSender D) : Type 0 where
    pub hosts : List Header
    pub all : c.req.headers ≡ log_request_line.headers ++ hosts
    pub named : Hosts hosts
    pub count : length hosts ≡ n
    pub idle : IsIdle c.log_client

  post-Posted :
      (h : Happens) (sent : Sent) (req : Request) (c : HttpClient)
      → IsIdle c
      → let (req', c') = post no_latency add_latency mean w log_service h sent req c in
        Posted req req' c c'
  unfolding post
  post-Posted h sent req c i =
      let req' = record req { body = w.json sent.api_points sent.service_api_points } in
      after_post-Posted log_service h.parsed h.mgr req c
        (send_http_request w.text h.ends 300 req' c)
        (send_http_request-headers w.text h.ends 300 req' c)
        (send_http_request-IsIdle w.text h.ends 300 req' c i)

  round_end-Grows :
      (h : Happens) (n : ℕ) (more : List LogData) (c : LogSender D)
      → Grows n c
      → Grows (n + posted more) (round_end no_latency add_latency mean w log_service h more c)
  round_end-Grows h n [] c g = record {
    hosts = g.hosts;
    all = g.all;
    named = g.named;
    count = omega (arith, g.count);
    idle = g.idle;
  }
  round_end-Grows h n (l ∷ ls) c g =
      let p = post-Posted h (sent_points (l ∷ ls)) c.req c.log_client g.idle in
      record {
        hosts = g.hosts ++ host_header c.log_client ∷ [];
        all =
            p.headers
            ∙ ap (λ hs. hs ++ host_header c.log_client ∷ []) g.all
            ∙ append_assoc log_request_line.headers g.hosts (host_header c.log_client ∷ []);
        named =
            All-append (λ h. h.0 ≡ codes "Host") g.hosts (host_header c.log_client ∷ []) g.named
              (refl, tt);
        count = omega (arith, length-append g.hosts (host_header c.log_client ∷ []), g.count);
        idle = p.idle;
      }

  -- The request of the sender of the log grows with each post: behind any rounds its headers are
  -- those in front of the loop and, for each post since the start, one more header Host; and the
  -- session of its client is idle then.
  pub Rounds-Grows :
      (n : ℕ) (ls : List LogData) (c : LogSender D)
      → Rounds no_latency add_latency mean w log_service n ls c
      → Grows n c
  Rounds-Grows n ls c (start ring log_ip log_port) = record {
    hosts = [];
    all = refl;
    named = tt;
    count = refl;
    idle = (refl, refl);
  }
  Rounds-Grows n ls c (round {n = m} {ls = qs} {c = d} ring h more r) =
      let g = Rounds-Grows m qs d r in
      round_end-Grows h m more (with_ring ring d)
        (record { hosts = g.hosts; all = g.all; named = g.named; count = g.count; idle = g.idle })
