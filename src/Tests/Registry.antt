-- ===== src/Tests/Registry.antt =====
-- An answer of consul with one healthy node, and the tables that it leads to.
use fiberproxy.Prelude.{
  ℕ, true, List, length, [], ◌∷◌, none, some, Bytes, codes, bytes_eq, ◌≡◌, refl, arith, ◌==◌, ◌||◌,
  if◌then◌else◌, ◌<◌, any, lookup, insert, erase, get_or, contains, add, bytes_key, pair_key,
  bytes_lt,
}
use fiberproxy.Types.{http_service, end_service}
use fiberproxy.Json.{Json}
use fiberproxy.ServiceMgr.{
  HostPair, HostMap, ServiceMgr, Watcher, watch_round, get_service_address, service_key,
}
use fiberproxy.ServiceMgr.Parse.{Node, read_node}
use fiberproxy.ServiceMgr.Nodes.{parse_service_info_rsp, add_nodes, add_kept, add_node}
use fiberproxy.ServiceMgr.Nodes.Table.{listed, node_offers, parse_service_info_rsp-listed}
use fiberproxy.ServiceMgr.Watch.{or_else, last_before, watch_round-lookup}
use fiberproxy.ServiceMgr.Healthy.{get_service_address-node_offers}

-- The values of one answer, by number:
-- [{"Node": {"Address": "h"}, "Service": {"Service": "s", "Port": 80, "Tags": ["http", "dev"]},
--   "Checks": [{"Status": "passing"}]}]
abbrev answer : Json ℕ
answer = record {
  parse = λ s. some 0;
  is_object = λ v. v == 1 || v == 2 || v == 3 || v == 8;
  is_array = λ v. v == 0 || v == 4 || v == 7;
  members = λ v.
      if v == 1
      then (codes "Node", 2) ∷ (codes "Service", 3) ∷ (codes "Checks", 7) ∷ []
      else if v == 2
      then (codes "Address", 9) ∷ []
      else if v == 3
      then (codes "Service", 10) ∷ (codes "Port", 11) ∷ (codes "Tags", 4) ∷ []
      else if v == 8
      then (codes "Status", 12) ∷ []
      else [];
  elements =
      λ v. if v == 0 then 1 ∷ [] else if v == 4 then 5 ∷ 6 ∷ [] else if v == 7 then 8 ∷ [] else [];
  get_string = λ v.
      if v == 5
      then codes "http"
      else if v == 6
      then codes "dev"
      else if v == 9
      then codes "h"
      else if v == 10
      then codes "s"
      else codes "passing";
  int_string = λ v. codes "80";
}

abbrev address : HostPair
address = (codes "h", codes "80")

abbrev key : Bytes
key = codes "s-dev"

abbrev old_table : HostMap
old_table = (key, (codes "old", codes "1") ∷ []) ∷ []

abbrev mgr : ServiceMgr
mgr = record {
  reg_service_host_info = old_table ∷ [] ∷ [] ∷ [] ∷ [];
  cur_cluster_name = codes "dev";
}

abbrev watcher : Watcher
watcher = record { last_service_names = key ∷ []; mgr = mgr }

abbrev healthy : Node
healthy = record {
  host = codes "h";
  port = codes "80";
  service_name = codes "s";
  service_type = http_service;
  service_tags = codes "dev" ∷ [];
  is_passing = true;
}

read : read_node answer 1 ≡ some healthy
unfolding read_node bytes_eq
read = refl

given :
    get_service_address
      (watch_round (parse_service_info_rsp answer []) watcher).mgr
      7
      (codes "s")
      http_service
    ≡ some address
unfolding get_service_address watch_round parse_service_info_rsp read_node add_nodes lookup insert
    erase contains bytes_eq bytes_lt add_kept add_node add
given = refl

known : contains (service_key (codes "s") (codes "dev")) (key ∷ []) ≡ true
unfolding contains bytes_eq
known = refl

get_service_address-node_offers_example :
    any (node_offers answer http_service key address) (1 ∷ []) ≡ true
unfolding watch_round parse_service_info_rsp
get_service_address-node_offers_example =
    get_service_address-node_offers answer [] 0 refl refl watcher refl http_service (omega arith) 7
      (codes "s") address known given

parse_service_info_rsp-listed_example :
    (node_list : List HostMap) × (parse_service_info_rsp answer [] ≡ some node_list)
    × (length node_list ≡ end_service)
    × ((type : ℕ) (key : Bytes) (hp : HostPair)
        → type < end_service
        → listed type key hp node_list ≡ any (node_offers answer type key hp) (1 ∷ []))
parse_service_info_rsp-listed_example = parse_service_info_rsp-listed answer [] 0 refl refl

watch_round-lookup_example :
    lookup key (
      get_or
        (watch_round (some ([] ∷ [] ∷ [] ∷ [] ∷ [])) watcher).mgr.reg_service_host_info
        http_service
        [])
    ≡ or_else (lookup key []) (
        if contains key (last_before ([] ∷ [] ∷ [] ∷ [] ∷ []) http_service (key ∷ []))
        then none
        else lookup key old_table)
watch_round-lookup_example =
    watch_round-lookup ([] ∷ [] ∷ [] ∷ [] ∷ []) watcher http_service key (tt, (tt, (tt, (tt, tt))))
      (omega arith) (omega arith)
