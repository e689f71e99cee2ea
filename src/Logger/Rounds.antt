-- ===== src/Logger/Rounds.antt =====
-- source/core/log-manager/FibpLogger.cpp: the rounds of sendLogToDB, one behind the other, while other
-- fibers change the ring.
use fiberproxy.Prelude.{
  ℕ, ◌≤◌, ◌+◌, List, [], ◌∷◌, ◌++◌, some, Bytes, ◌≡◌, refl, sym, ap, ◌∙◌, length,
}
use fiberproxy.Http.Exchange.{new_client}
use fiberproxy.Logger.{Logger, LogData}
use fiberproxy.Logger.Sender.{send_loop-ends}
use fiberproxy.Logger.Stats.{Stats, new_stats, log_services, log_records, get_recent_service_stats}
use fiberproxy.Logger.Stats.Runs.{all_requests}
use fiberproxy.Logger.Stats.Kept.{kept_of}
use fiberproxy.Logger.Stats.Bounded.{InTime, Timed, log_records-bounded}
use fiberproxy.Logger.Round.{
  LogSender, Sent, Writers, Happens, log_request_line, after_loop, with_loop, send_round,
  report_service_stats,
}
use fiberproxy.Logger.Reported.{AllRuns, report_service_stats-AllRuns}

-- the sender before its first round, with the client that init makes
abbrev pub new_sender : {D : Type 0} → Logger → Bytes → Bytes → LogSender D
new_sender logger log_ip log_port = record {
  logger = logger;
  stats = new_stats;
  log_client = new_client log_ip log_port;
  req = log_request_line;
}

abbrev pub with_ring : {D : Type 0} → Logger → LogSender D → LogSender D
with_ring logger c = record c { logger = logger }

-- How often a round posts.
abbrev pub posted : List LogData → ℕ
posted [] = 0
posted (l ∷ ls) = 1

module _ {D : Type 0} (no_latency : D) (add_latency : D → ℕ → D) (mean : D → ℕ → D) (w : Writers)
    (log_service : Bytes) where
  abbrev pub round_end : Happens → List LogData → LogSender D → LogSender D
  round_end h more c = (after_loop no_latency add_latency mean w log_service h more c).0

  -- The sender behind some rounds, with how often they have posted and the records that they have
  -- taken. Before each, the ring is any that the other fibers leave.
  pub data Rounds : ℕ → List LogData → LogSender D → Type 0 where
    start :
        (ring : Logger) (log_ip log_port : Bytes) → Rounds 0 [] (new_sender ring log_ip log_port)
    round :
        {n : ℕ} {ls : List LogData} {c : LogSender D} (ring : Logger) (h : Happens)
        (more : List LogData)
        → Rounds n ls c
        → Rounds (n + posted more) (ls ++ more) (round_end h more (with_ring ring c))

  log_records-append :
      (ls qs : List LogData) (t : Stats D)
      → log_records no_latency add_latency mean (ls ++ qs) t
        ≡ log_records no_latency add_latency mean qs (log_records no_latency add_latency mean ls t)
  unfolding log_records
  log_records-append [] qs t = refl
  log_records-append (l ∷ ls) qs t =
      log_records-append ls qs
        (log_services no_latency add_latency mean l.service_send_reply_times t)

  round_end-stats :
      (h : Happens) (ls : List LogData) (c : LogSender D)
      → (round_end h ls c).stats ≡ log_records no_latency add_latency mean ls c.stats
  unfolding log_records
  round_end-stats h [] c = refl
  round_end-stats h (l ∷ ls) c = refl

  Rounds-stats :
      {n : ℕ} {ls : List LogData} {c : LogSender D}
      → Rounds n ls c
      → c.stats ≡ log_records no_latency add_latency mean ls new_stats
  unfolding log_records
  Rounds-stats (start ring log_ip log_port) = refl
  Rounds-stats (round {ls = ls} {c = c} ring h more r) =
      round_end-stats h more (with_ring ring c)
      ∙ ap (log_records no_latency add_latency mean more) (Rounds-stats r)
      ∙ sym (log_records-append ls more new_stats)

  -- Behind any rounds of the sender, whatever the other fibers make of the ring in between and
  -- whether the requests are sent: each entry of the statistics that are reported is the mean
  -- latency, the number of requests and the second of a maximal run of requests of its service,
  -- among the records that the rounds have taken, that start in one second.
  pub Rounds-reported :
      (n : ℕ) (ls : List LogData) (c : LogSender D)
      → Rounds n ls c
      → AllRuns no_latency add_latency mean ls (report_service_stats c.stats)
  Rounds-reported n ls c r =
      rw (Rounds-stats r) (report_service_stats-AllRuns no_latency add_latency mean ls)

  -- When the requests of each service, in the records that the rounds of the sender have taken,
  -- start in the order of the seconds and at times of 64 bits: the sender keeps eleven statistics
  -- of a service at most, and the readers see twelve at most.
  pub Rounds-bounded :
      (n : ℕ) (ls : List LogData) (c : LogSender D) (name : Bytes)
      → Rounds n ls c
      → InTime (all_requests ls)
      → Timed (all_requests ls)
      → (length (kept_of name c.stats.service_stats) ≤ 11)
        × (length (kept_of name (get_recent_service_stats c.stats)) ≤ 12)
  Rounds-bounded n ls c name r h b =
      rw (Rounds-stats r) (log_records-bounded no_latency add_latency mean ls name h b)

  -- A round ends, and is a round of the sender.
  pub send_round-Rounds :
      (n : ℕ) (ls : List LogData) (c : LogSender D) (ring : Logger) (h : Happens)
      → Rounds n ls c
      → (more : List LogData) × (c' : LogSender D) × (sent : Sent) × (send_round no_latency
            add_latency mean w log_service h
            (with_ring ring c)
          ≡ some (c', sent))
        × Rounds (n + posted more) (ls ++ more) c'
  unfolding send_round
  send_round-Rounds n ls c ring h r =
      let (ring', more, e, stopped) = send_loop-ends ring in
      let (c', sent) =
        after_loop no_latency add_latency mean w log_service h more (with_ring ring' c) in
      (
        more,
        c',
        sent,
        ap (with_loop no_latency add_latency mean w log_service h (with_ring ring c)) e,
        round ring' h more r,
      )
