-- ===== src/Tests/Sessions.antt =====
-- Concrete runs of the clients' connections and of the fiber that finds services.
use fiberproxy.Prelude.{
  true, false, List, [], ◌∷◌, some, Bytes, codes, ◌≡◌, refl, arith, lookup, nat_key, if◌then◌else◌,
  inl, inr,
}
use fiberproxy.ClientFuture.{new_future}
use fiberproxy.RawClient.{RawClient}
use fiberproxy.RpcClient.{handle_read, read_failed}
use fiberproxy.RpcClient.Outcome.{Response, all_met, outcome, by_read, handle_read-all_met}
use fiberproxy.Session.{Session, fine}
use fiberproxy.Http.{cleared, write_request}
use fiberproxy.Http.Client.{make_request, no_error}
use fiberproxy.Http.Exchange.{HttpClient, SendEnds, Parsed, with_host, exchange}
use fiberproxy.Http.Exchange.Outcome.{Exchanged, exchange-Exchanged}
use fiberproxy.Json.{Json}
use fiberproxy.ServiceMgr.Polling.{Polled, polled, poll_failed, new_finder, watch_service_change}
use fiberproxy.ServiceMgr.Services.{times, named, watch_service_change_once}

-- two futures, of which the first is answered before the connection fails
abbrev waiting_client : RawClient
waiting_client = record {
  fid = 2;
  future_list = (1, 10) ∷ (2, 11) ∷ [];
  heap = (10, new_future) ∷ (11, new_future) ∷ [];
  reading = true;
}

abbrev one_response : List Response
one_response = (1, false, codes "no method") ∷ []

first_waits : lookup 1 waiting_client.future_list ≡ some 10
unfolding lookup
first_waits = refl

first_kept : lookup 10 waiting_client.heap ≡ some new_future
unfolding lookup
first_kept = refl

handle_read-all_met_example :
    lookup 10 (handle_read (all_met one_response (read_failed (codes "reset"))) waiting_client).heap
    ≡ some (outcome (codes "reset") 1 one_response new_future)
handle_read-all_met_example =
    handle_read-all_met one_response waiting_client 1 10 new_future (by_read (codes "reset"))
      ((λ a. elim a [ inl e ↦ absurd (omega (arith, e)) | inr b ↦ b ]), ((λ a. a), tt)) first_waits
      first_kept

abbrev new_session : Session
new_session = record {
  is_open = false;
  receiving = false;
  connecting = false;
  deadline = false;
  conn_to = 5000;
  read_to = 5000;
  sent = [];
}

abbrev session_client : HttpClient
session_client = record {
  session = new_session;
  host = codes "h";
  port = codes "80";
  can_retry = true;
}

abbrev good_ends : SendEnds
good_ends = record { conn = fine; opened = true; wrote = fine; throws = false }

abbrev closing_answer : Parsed
closing_answer = record {
  ret = true;
  rsp = record cleared { code = 200; body = codes "hello" };
  ec = no_error;
  throws = false;
}

exchange-Exchanged_example :
    let req = make_request (codes "/a?b") (codes "GET") [] in
    let (ok, rsp, req', d) =
      exchange (λ n. n ∷ []) good_ends closing_answer 300 req session_client in
    Exchanged ok rsp
      (write_request (λ n. n ∷ []) (with_host session_client req))
      closing_answer
      session_client
      d
exchange-Exchanged_example =
    exchange-Exchanged (λ n. n ∷ []) good_ends closing_answer 300
      (make_request (codes "/a?b") (codes "GET") []) session_client (refl, refl)

-- an answer is an object with one service of its own text
abbrev one_member : Json Bytes
one_member = record {
  parse = λ s. some s;
  is_object = λ v. true;
  is_array = λ v. false;
  members = λ v. (v, v) ∷ [];
  elements = λ v. [];
  get_string = λ v. v;
  int_string = λ v. v;
}

abbrev polls : List Polled
polls = polled 1 (codes "web") ∷ poll_failed ∷ polled 2 (codes "web") ∷ []

watch_service_change_once_example :
    times (codes "web") (watch_service_change one_member polls new_finder).started
    ≡ (if named one_member (codes "web") polls then 1 else 0)
watch_service_change_once_example = watch_service_change_once one_member (codes "web") polls
