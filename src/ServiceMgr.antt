-- ===== src/ServiceMgr.antt =====
-- source/core/forward-manager/FibpServiceMgr.{h,cpp}: the registry of services that the proxy reads
-- from consul. ServiceMgr/Parse has the parsing of its answers, this file the tables that the
-- watching fibers keep and the choice of an address.
pub mod Parse
pub mod Nodes
pub mod Keys
pub mod Watch
pub mod Polling
pub mod Setup
pub mod Services
pub mod Cluster
pub mod Healthy
pub mod Balance
use fiberproxy.Prelude.{
  ℕ, zero, suc, ◌+◌, ◌%◌, Bool, true, false, List, [], ◌∷◌, ◌++◌, Option, none, some, Bytes, codes,
  leb, if◌then◌else◌, is_empty, length, get_elem?, set, lookup, insert, erase, add, keys, bytes_key,
  bytes_eq,
}

abbrev pub HostPair : Type 0
HostPair = Bytes × Bytes

-- ServiceHostMapT
abbrev pub HostMap : Type 0
HostMap = List (Bytes × List HostPair)

-- The fields of FibpServiceMgr that address look-ups read. `reg_service_host_info` has one table
-- for each service type, End_Service of them.
pub record ServiceMgr : Type 0 where
  pub reg_service_host_info : List HostMap
  pub cur_cluster_name : Bytes

abbrev pub connector : Bytes
connector = codes "-"

abbrev pub service_key : Bytes → Bytes → Bytes
service_key name tag = name ++ connector ++ tag

-- host_it->second[balance_index % host_it->second.size()]
unfoldable pub pick : ℕ → List HostPair → Option HostPair
pick balance_index hosts = get_elem? hosts (balance_index % length hosts)

-- the answer for a look-up in the table of a type
unfoldable pub find_address : ℕ → Option (List HostPair) → Option HostPair
unfolding pick
find_address balance_index none = none
find_address balance_index (some []) = none
find_address balance_index (some (h ∷ hs)) = pick balance_index (h ∷ hs)

unfoldable pub get_service_address : ServiceMgr → ℕ → Bytes → ℕ → Option HostPair
unfolding find_address
get_service_address m balance_index service_name type =
    elim (get_elem? m.reg_service_host_info type) [
      | none ↦ none
      | some table ↦
          find_address balance_index (lookup (service_key service_name m.cur_cluster_name) table)
    ]

unfoldable pub change_cluster : Bytes → ServiceMgr → ServiceMgr
change_cluster new_cluster_name m =
    if is_empty new_cluster_name then m else record m { cur_cluster_name = new_cluster_name }

-- What the fiber that watches one service keeps between its rounds.
pub record Watcher : Type 0 where
  pub last_service_names : List Bytes
  pub mgr : ServiceMgr

-- reg_service_host_info_[i].erase(*lastit) for each of the last names
unfoldable pub erase_all : List Bytes → HostMap → HostMap
erase_all [] t = t
erase_all (n ∷ ns) t = erase_all ns (erase n t)

-- host_list.clear() and host_list.insert(...) for each service of the answer
unfoldable pub insert_all : HostMap → HostMap → HostMap
insert_all [] t = t
insert_all ((n, hosts) ∷ nodes) t = insert_all nodes (insert n hosts t)

unfoldable pub add_all : List Bytes → List Bytes → List Bytes
add_all [] s = s
add_all (n ∷ ns) s = add_all ns (add n s)

-- one round of the loop over `node_list`, under the lock
unfoldable pub update_table : List Bytes → HostMap → HostMap → HostMap × List Bytes
unfolding erase_all insert_all add_all
update_table last nodes table = (insert_all nodes (erase_all last table), add_all (keys nodes) last)

-- for(i = 0; i < node_list.size(); ++i)
unfoldable pub update_tables : List HostMap → List HostMap → List Bytes → List HostMap × List Bytes
unfolding update_table
update_tables (nodes ∷ rest) (table ∷ tables) last =
    let (table', last') = update_table last nodes table in
    let (tables', last'') = update_tables rest tables last' in (table' ∷ tables', last'')
update_tables [] tables last = (tables, last)
update_tables (nodes ∷ rest) [] last = ([], last)

-- The body of watchServiceNodeChangeFunc behind the answer's parse; `none` is an answer that did
-- not parse.
unfoldable pub watch_round : Option (List HostMap) → Watcher → Watcher
unfolding update_tables
watch_round none w = w
watch_round (some node_list) w =
    let (tables, last) = update_tables node_list w.mgr.reg_service_host_info w.last_service_names in
    record { last_service_names = last; mgr = record (w.mgr) { reg_service_host_info = tables } }
