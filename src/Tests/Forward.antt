-- ===== src/Tests/Forward.antt =====
-- Forwarded ports and a raw client at work.
use fiberproxy.Prelude.{
  ℕ, ◌+◌, ◌<◌, true, false, List, [], ◌∷◌, ◌++◌, Option, none, some, Bytes, codes, ◌≡◌, refl, subst,
  arith, Bool-cases, inl, inr, bytes_eq_iff, lookup, insert, add, contains, nat_key, bytes_key,
  bytes_eq, if◌then◌else◌, ◌==◌,
}
use mathlib.Core.List.{Memᴰ}
use fiberproxy.Types.{ForwardInfo, http_service, custom_service}
use fiberproxy.ServiceMgr.{HostPair}
use fiberproxy.ClientFuture.{Future, new_future, set_result}
use fiberproxy.RawClient.{RawClient, begin_request, pack, read_frame, handle_read}
use fiberproxy.RawClient.Framing.{read_frame-pack}
use fiberproxy.RawClient.Waiting.{Distinct}
use fiberproxy.RawClient.Steps.{here, next, request, new_client, Reach-outcome}
use fiberproxy.RawClient.Answers.{outcome, packed, handle_read-outcome}
use fiberproxy.PortForward.{
  PortForwardMgr, get_forward_service, start_port_forward, update_forward_service, start_server,
}
use fiberproxy.Session.{failed, eof, threw, async_connect, shutdown}
use fiberproxy.PortForward.Connect.{
  Attempt, connected, new_session, connect_loop, forward_address, GoodEnd,
  create_forward_connection, create_forward_connection-GoodEnd,
}
use fiberproxy.PortForward.Keys.{
  ForwardWatcher, forward_round, get_related_forward_ports, get_all_port_forward_services,
  stop_unused, handle_keys, handle_key, key_info, use_service,
}
use fiberproxy.PortForward.Consistent.{Forwards, Consistent, forward_round-Consistent}
use fiberproxy.PortForward.Agents.{forward_round-tells_again}

abbrev digit : ℕ → Bytes
digit n = (48 + n) ∷ []

abbrev above : List (ℕ × ℕ) → ℕ
above [] = 1
above ((port, server) ∷ l) = port + above l

above_all : (d : ℕ) (l : List (ℕ × ℕ)) → lookup (d + above l) l ≡ none
unfolding lookup
above_all d [] = refl
above_all d ((port, server) ∷ l) = ground (arith, above_all (d + port) l, above-positive l)
  where
    above-positive : (l : List (ℕ × ℕ)) → 0 < above l
    above-positive [] = omega arith
    above-positive ((port, server) ∷ l) = omega (arith, above-positive l)

unused : (l : List (ℕ × ℕ)) → lookup (above l) l ≡ none
unused l = subst (λ p. lookup p l ≡ none) (omega arith) (above_all 0 l)

abbrev fetch : Bytes → Option (List Bytes)
fetch key = some (codes "search" ∷ codes "HTTP" ∷ [])

abbrev info : ForwardInfo
info = record { service_name = codes "old"; service_type = custom_service; port = 7 }

abbrev mgr : PortForwardMgr
mgr = record { forward_service_list = (7, info) ∷ []; forward_server_list = (7, 7) ∷ [] }

-- The agent of the only port has withdrawn its key.
abbrev watcher : ForwardWatcher
watcher = record {
  last_ports = (7, codes "0123456789" ∷ []) ∷ [];
  service_port_map = (codes "old3", 7) ∷ [];
  previous_keys = [];
  ports_used_by_agent = (codes "0123456789", 7 ∷ []) ∷ [];
  mgr = mgr;
}

abbrev answer : Option (List Bytes)
answer = some (codes "abcdefghij-search" ∷ [])

agrees : Consistent digit fetch above unused ((codes "old3", 7) ∷ []) mgr
unfolding lookup get_forward_service
agrees u port e = elim (Bool-cases (bytes_eq (codes "old3") u)) [
  | inl same ↦
      subst (λ v. Forwards digit fetch above unused mgr v port)
        ((bytes_eq_iff (codes "old3") u).0 same)
        (subst (Forwards digit fetch above unused mgr (codes "old3")) (at_seven (rw same at e))
          (record { info = info; server = 7; registered = refl; same = refl; listens = refl }))
  | inr other ↦ absurd (let n : none ≡ some port = rw other at e in cc)
]
  where
    at_seven : some 7 ≡ some port → 7 ≡ port
    at_seven q = ground arith

forward_round-Consistent_example :
    Consistent digit fetch above unused
      (forward_round digit fetch above answer watcher).service_port_map
      (forward_round digit fetch above answer watcher).mgr
forward_round-Consistent_example =
    forward_round-Consistent digit fetch above unused answer watcher agrees

-- The port of an agent was stopped, and the system gives it to a service that another agent asks for.
abbrev again : List (ℕ × ℕ) → ℕ
again l = 7

abbrev lapsed : ForwardWatcher
lapsed = record watcher {
  last_ports = [];
  service_port_map = [];
  mgr = record { forward_service_list = []; forward_server_list = [] };
}

abbrev new_info : ForwardInfo
new_info = record { service_name = codes "search"; service_type = http_service; port = 7 }

reused : get_forward_service 7 (forward_round digit fetch again answer lapsed).mgr ≡ some new_info
unfolding forward_round get_forward_service lookup bytes_eq stop_unused handle_keys handle_key
    key_info use_service insert add start_port_forward update_forward_service start_server
reused = refl

told_of_lapsed : contains 7 (get_related_forward_ports (codes "0123456789") lapsed) ≡ true
unfolding contains get_related_forward_ports lookup bytes_eq
told_of_lapsed = refl

forward_round-tells_again_example : Memᴰ new_info (
    get_all_port_forward_services
      (codes "0123456789")
      (forward_round digit fetch again answer lapsed))
forward_round-tells_again_example =
    forward_round-tells_again digit fetch again answer lapsed (codes "0123456789") 7 new_info
      told_of_lapsed reused

-- The service is only known as an HTTP service. The connect to its host fails, and in the second
-- round the resolver throws.
abbrev address : ℕ → Bytes → ℕ → Option HostPair
address b name type = if type == http_service then some (codes "h", codes "80") else none

abbrev falters : ℕ → HostPair → Attempt
falters b h = record {
  ending = if b == 6 then failed eof else threw;
  opened = false;
  throws = false;
}

known_port : lookup 7 mgr.forward_service_list ≡ some info
unfolding lookup
known_port = refl

-- The client of the second round is returned, and its socket is not open.
connected_to_nothing : create_forward_connection address falters 4 7 mgr ≡ (
  connected (codes "h", codes "80") new_session,
  (codes "h", codes "80") ∷ (codes "h", codes "80") ∷ [],
)
unfolding create_forward_connection connect_loop forward_address lookup async_connect shutdown
connected_to_nothing = refl

create_forward_connection-GoodEnd_example :
    GoodEnd address falters info 2 (create_forward_connection address falters 4 7 mgr)
create_forward_connection-GoodEnd_example =
    create_forward_connection-GoodEnd address falters 4 7 mgr info known_port

read_frame-pack_example :
    read_frame (pack 5 (codes "hi") ++ codes "x") ≡ some (5, codes "hi", codes "x")
read_frame-pack_example = read_frame-pack 5 (codes "hi") (codes "x") (omega arith) (omega arith)

-- Two requests wait.
abbrev client : RawClient
client = record {
  fid = 2;
  future_list = (1, 10) ∷ (2, 11) ∷ [];
  heap = (10, new_future) ∷ (11, new_future) ∷ [];
  reading = true;
}

first_waits : lookup 1 client.future_list ≡ some 10
unfolding lookup
first_waits = refl

first_new : lookup 10 client.heap ≡ some new_future
unfolding lookup
first_new = refl

cut_off : read_frame (codes "abc") ≡ none
unfolding read_frame
cut_off = refl

apart : Distinct client.future_list
apart = ((λ a. elim a [ inl e ↦ absurd (omega arith) | inr n ↦ n ]), ((λ n. n), tt))

handle_read-outcome_example :
    lookup 10
      (handle_read 3
        (codes "End of file")
        (packed ((2, codes "b") ∷ (1, codes "a") ∷ []) ++ codes "abc")
        client).heap
    ≡ some (set_result (codes "a") true false new_future)
handle_read-outcome_example =
    handle_read-outcome ((2, codes "b") ∷ (1, codes "a") ∷ []) 3 (codes "End of file") (codes "abc")
      client 1 10 new_future ((omega arith, omega arith), ((omega arith, omega arith), tt)) cut_off
      (omega arith) apart first_waits first_new

-- The client has sent one request, and waits.
abbrev sent_one : RawClient
sent_one = (begin_request 10 (codes "q") new_client).0

sent_waits : lookup 1 sent_one.future_list ≡ some 10
unfolding lookup begin_request insert
sent_waits = refl

no_future : lookup 10 new_client.heap ≡ none
unfolding lookup
no_future = refl

Reach-outcome_example :
    (f : Future) × (lookup 10 sent_one.heap ≡ some f)
    × (lookup 10
          (handle_read 3
            (codes "End of file")
            (packed ((1, codes "a") ∷ []) ++ codes "abc")
            sent_one).heap
        ≡ some (outcome (codes "End of file") 1 ((1, codes "a") ∷ []) f))
Reach-outcome_example =
    Reach-outcome ((1, codes "a") ∷ []) 3 (codes "End of file") (codes "abc") 1 10
      (next here (request 10 (codes "q") no_future refl)) ((omega arith, omega arith), tt) cut_off
      (omega arith) sent_waits
