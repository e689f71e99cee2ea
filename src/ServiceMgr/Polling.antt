-- ===== src/ServiceMgr/Polling.antt =====
-- source/core/forward-manager/FibpServiceMgr.cpp: the long polls of consul, and the fibers that they
-- start. The exchange over HTTP is an argument of a round.
use fiberproxy.Prelude.{
  ℕ, ◌+◌, Bool, true, false, not, List, [], ◌∷◌, ◌++◌, Option, none, some, Bytes, codes, is_empty,
  if◌then◌else◌, contains, add, bytes_key,
}
use fiberproxy.Http.{Header, find_header}
use fiberproxy.Json.{Json}
use fiberproxy.ServiceMgr.Parse.{parse_query_services_rsp}

-- What comes of a long poll: it fails, the index of the answer is no number, which throws, or an
-- index with an answer.
pub data Polled : Type 0 where
  poll_failed : Polled
  poll_threw : Polled
  polled : (index : ℕ) (rsp : Bytes) → Polled

-- the query of longPollingRequest; `timeout` is none for a negative one
unfoldable pub poll_query : (ℕ → Bytes) → Bytes → ℕ → Option ℕ → Bytes
poll_query text query index timeout =
    (if not (is_empty query) then query ++ codes "&" else query) ++ elim timeout [
      | none ↦ []
      | some t ↦ codes "index=" ++ text index ++ codes "&wait=" ++ text t ++ codes "s"
    ]

-- `exchange` is the answer to a GET for a path and a query, `number` is lexical_cast.
unfoldable pub long_polling_request :
    (ℕ → Bytes)
    → (Bytes → Option ℕ)
    → (Bytes → Bytes → Option (Bytes × List Header))
    → Bytes
    → Bytes
    → ℕ
    → Option ℕ
    → Polled
unfolding poll_query
long_polling_request text number exchange path query index timeout =
    elim (exchange path (poll_query text query index timeout)) [
      | none ↦ poll_failed
      | some (rsp, headers) ↦ elim (number (find_header headers (codes "X-Consul-Index"))) [
        | none ↦ poll_threw
        | some n ↦ polled n rsp
      ]
    ]

-- The fiber of watchServiceChangeFunc; `started` are the fibers that it has started, by service. It
-- ends with an exception.
pub record Finder : Type 0 where
  pub watching_services : List Bytes
  pub started : List Bytes
  pub indexid : ℕ
  pub balance_index : ℕ
  pub running : Bool

abbrev pub new_finder : Finder
new_finder = record {
  watching_services = [];
  started = [];
  indexid = 0;
  balance_index = 0;
  running = true;
}

unfoldable pub watch_service : Bytes → Finder → Finder
watch_service name f = if contains name f.watching_services then f else record f {
  started = f.started ++ name ∷ [];
  watching_services = add name f.watching_services;
}

unfoldable pub watch_services : List Bytes → Finder → Finder
watch_services [] f = f
watch_services (name ∷ names) f = watch_services names (watch_service name f)

module _ {J : Type 0} (json : Json J) where
  -- the services of an answer; the loop goes over none when it does not parse
  abbrev pub found_services : Bytes → List Bytes
  found_services rsp = (parse_query_services_rsp json rsp).1

  -- one round of the loop; a failed poll takes the next address
  unfoldable pub services_round : Polled → Finder → Finder
  services_round poll_failed f = record f { balance_index = f.balance_index + 1 }
  services_round poll_threw f = record f { running = false }
  services_round (polled index rsp) f =
      watch_services (found_services rsp) (record f { indexid = index })

  unfoldable pub watch_service_change : List Polled → Finder → Finder
  watch_service_change [] f = f
  watch_service_change (p ∷ ps) f =
      let rest = watch_service_change ps (services_round p f) in if f.running then rest else f
