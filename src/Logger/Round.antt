-- ===== src/Logger/Round.antt =====
-- source/core/log-manager/FibpLogger.cpp: a round of sendLogToDB, with the log service that is looked
-- up when a send fails, and what reportServiceStats of source/core/forward-manager/FibpServiceMgr.cpp
-- makes of the statistics. The JSON of the points is a parameter.
use fiberproxy.Prelude.{
  ℕ, suc, ltb, Bool, List, [], ◌∷◌, ◌++◌, map, Option, none, some, Bytes, codes, bytes_eq, ◌&&◌,
  true, false, if◌then◌else◌, length,
}
use fiberproxy.Types.{http_service}
use fiberproxy.ServiceMgr.{ServiceMgr, HostPair, get_service_address}
use fiberproxy.Http.{Request}
use fiberproxy.Http.Exchange.{HttpClient, SendEnds, Parsed, send_http_request, get_text, new_client}
use fiberproxy.Logger.{Logger, LogData, max_log_num, send_loop}
use fiberproxy.Logger.Points.{ApiPoint, ServicePoint, api_point, service_points}
use fiberproxy.Logger.Stats.{
  ServiceStat, ServiceStatMap, Stats, log_records, get_recent_service_stats,
}

-- What the sending fiber keeps between its rounds. All rounds send the one request `req`.
pub record LogSender (D : Type 0) : Type 0 where
  pub logger : Logger
  pub stats : Stats D
  pub log_client : HttpClient
  pub req : Request

-- the request in front of the loop, whose body each round sets
abbrev pub log_request_line : Request
log_request_line = record {
  http_major = 1;
  http_minor = 1;
  method = codes "POST";
  path = codes "/db/FIBP/series?u=root&p=root&time_precision=u";
  query = [];
  headers = (codes "Content-Type", codes "application/json") ∷ [];
  keep_alive = true;
  body = [];
}

-- What a round does: it sleeps for a number of milliseconds, behind the points that it sent.
pub record Sent : Type 0 where
  pub api_points : List ApiPoint
  pub service_api_points : List ServicePoint
  pub sleeps : ℕ

-- log_client_.reset(...), unless the address is that of the client
abbrev pub found_client : HttpClient → HostPair → HttpClient
found_client c (ip, port) =
    if bytes_eq c.host ip && bytes_eq c.port port then c else new_client ip port

unfoldable pub find_log_service : Option ServiceMgr → Bytes → HttpClient → HttpClient
unfolding get_service_address
find_log_service none log_service c = c
find_log_service (some mgr) log_service c =
    elim (get_service_address mgr 0 log_service http_service) [
      | none ↦ c
      | some address ↦ found_client c address
    ]

-- what the request and the client become behind send_http_request
abbrev pub after_post :
    Parsed → Option ServiceMgr → Bytes → Bool × Request × HttpClient → Request × HttpClient
after_post p mgr log_service (false, req, c) = (req, find_log_service mgr log_service c)
after_post p mgr log_service (true, req, c) =
    let (rsp, c') = get_text p c in (record req { body = rsp }, c')

unfoldable pub all_service_points : List LogData → List ServicePoint
unfolding service_points
all_service_points [] = []
all_service_points (l ∷ ls) =
    service_points l.id l.service_send_reply_times ++ all_service_points ls

abbrev pub sleep_after : ℕ → ℕ
sleep_after cnt = if ltb cnt 100 then 10 else 0

abbrev pub sent_points : List LogData → Sent
sent_points ls = record {
  api_points = map api_point ls;
  service_api_points = all_service_points ls;
  sleeps = sleep_after (length ls);
}

-- The decimal digits of a number, and the JSON of the points.
pub record Writers : Type 0 where
  pub text : ℕ → Bytes
  pub json : List ApiPoint → List ServicePoint → Bytes

-- What comes from outside during a round.
pub record Happens : Type 0 where
  pub ends : SendEnds
  pub parsed : Parsed
  pub mgr : Option ServiceMgr

module _ {D : Type 0} (no_latency : D) (add_latency : D → ℕ → D) (mean : D → ℕ → D) (w : Writers)
    (log_service : Bytes) where
  -- The request for some records, its response, and the look-up of the service when it is not sent.
  unfoldable pub post : Happens → Sent → Request → HttpClient → Request × HttpClient
  unfolding send_http_request get_text find_log_service
  post h sent req c = after_post h.parsed h.mgr log_service (
      send_http_request w.text h.ends 300
        (record req { body = w.json sent.api_points sent.service_api_points }) c)

  -- the end of a round, with the records that its inner loop has taken
  abbrev pub after_loop : Happens → List LogData → LogSender D → LogSender D × Sent
  after_loop h [] c = (c, record { api_points = []; service_api_points = []; sleeps = 1000 })
  after_loop h (l ∷ ls) c =
      let (req, client) = post h (sent_points (l ∷ ls)) c.req c.log_client in
      (
        record c {
          stats = log_records no_latency add_latency mean (l ∷ ls) c.stats;
          log_client = client;
          req = req;
        },
        sent_points (l ∷ ls),
      )

  abbrev pub with_loop :
      Happens → LogSender D → Option (Logger × List LogData) → Option (LogSender D × Sent)
  with_loop h c none = none
  with_loop h c (some (logger, ls)) = some (after_loop h ls (record c { logger = logger }))

  -- A round of the outer loop; `none` is for fuel that runs out in the inner one.
  unfoldable pub send_round : Happens → LogSender D → Option (LogSender D × Sent)
  unfolding send_loop post
  send_round h c = with_loop h c (send_loop (suc max_log_num) 0 c.logger [])

-- An element of the list that reportServiceStats posts.
pub record StatRow (D : Type 0) : Type 0 where
  pub name : Bytes
  pub latency : D
  pub request_per_sec : ℕ
  pub timestamp : ℕ

abbrev pub stat_row : {D : Type 0} → Bytes → ServiceStat D → StatRow D
stat_row name s = record {
  name = name;
  latency = s.avg_latency;
  request_per_sec = s.request_per_sec;
  timestamp = s.timestamp;
}

unfoldable pub stat_rows : {D : Type 0} → Bytes → List (ServiceStat D) → List (StatRow D)
stat_rows name [] = []
stat_rows name (s ∷ ss) = stat_row name s ∷ stat_rows name ss

unfoldable pub service_rows : {D : Type 0} → ServiceStatMap D → List (StatRow D)
unfolding stat_rows
service_rows [] = []
service_rows ((name, ss) ∷ m) = stat_rows name ss ++ service_rows m

-- What a round of reportServiceStats posts, if anything.
unfoldable pub report_service_stats : {D : Type 0} → Stats D → Option (List (StatRow D))
unfolding service_rows
report_service_stats t = elim (service_rows (get_recent_service_stats t)) [
  | [] ↦ none
  | row ∷ rows ↦ some (row ∷ rows)
]
