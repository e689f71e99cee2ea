-- ===== src/ServiceMgr/Watch.antt =====
-- source/core/forward-manager/FibpServiceMgr.cpp, watchServiceNodeChangeFunc: what a round does to
-- the tables that look-ups read.
use fiberproxy.Prelude.{
  Sorted, lookup-Above, ℕ, zero, suc, ◌<◌, true, List, [], ◌∷◌, Option, none, some, Bytes, ◌≡◌,
  refl, ◌∙◌, arith, bytes_eq_iff, bytes_key, if◌then◌else◌, length, get_or, keys, All, lookup,
  insert, erase, add, contains, contains-add, lookup-insert, lookup-erase,
}
use fiberproxy.ServiceMgr.Keys.{All-get_or}
use fiberproxy.ServiceMgr.{
  HostPair, HostMap, Watcher, erase_all, insert_all, add_all, update_table, update_tables,
  watch_round,
}

abbrev pub or_else : Option (List HostPair) → Option (List HostPair) → Option (List HostPair)
or_else none b = b
or_else (some a) b = some a

lookup-erase_all :
    (key : Bytes) (ns : List Bytes) (t : HostMap)
    → lookup key (erase_all ns t) ≡ (if contains key ns then none else lookup key t)
unfolding erase_all contains
lookup-erase_all key [] t = refl
lookup-erase_all key (n ∷ ns) t =
    ground (arith, lookup-erase_all key ns (erase n t), lookup-erase n key t)

lookup-insert_all :
    (key : Bytes) (nodes t : HostMap)
    → Sorted nodes
    → lookup key (insert_all nodes t) ≡ or_else (lookup key nodes) (lookup key t)
unfolding insert_all lookup
lookup-insert_all key [] t d = refl
lookup-insert_all key ((n, hosts) ∷ nodes) t d = ground (
  arith,
  lookup-insert_all key nodes (insert n hosts t) d.1,
  lookup-Above n nodes d.0,
  lookup-insert n key hosts t,
  bytes_eq_iff n key,
)

-- The names that are erased from the table of a type: those of the rounds before, and those of the
-- tables before it in this answer.
abbrev pub last_before : List HostMap → ℕ → List Bytes → List Bytes
last_before nodes zero last = last
last_before [] (suc i) last = last
last_before (n ∷ nodes) (suc i) last = last_before nodes i (add_all (keys n) last)

contains-add_all :
    (key : Bytes) (ns last : List Bytes)
    → contains key last ≡ true
    → contains key (add_all ns last) ≡ true
unfolding add_all
contains-add_all key [] last h = h
contains-add_all key (n ∷ ns) last h =
    contains-add_all key ns (add n last) (ground (arith, contains-add n key last))

pub contains-last_before :
    (key : Bytes) (nodes : List HostMap) (i : ℕ) (last : List Bytes)
    → contains key last ≡ true
    → contains key (last_before nodes i last) ≡ true
contains-last_before key nodes zero last h = h
contains-last_before key [] (suc i) last h = h
contains-last_before key (n ∷ nodes) (suc i) last h =
    contains-last_before key nodes i _ (contains-add_all key (keys n) last h)

update_tables_at :
    (nodes ts : List HostMap) (last : List Bytes) (i : ℕ)
    → i < length nodes
    → i < length ts
    → get_or (update_tables nodes ts last).0 i []
      ≡ insert_all (get_or nodes i []) (erase_all (last_before nodes i last) (get_or ts i []))
unfolding update_tables update_table
update_tables_at [] ts last i h k = elim h [ ]
update_tables_at (n ∷ nodes) [] last i h k = elim k [ ]
update_tables_at (n ∷ nodes) (t ∷ ts) last zero h k = refl
update_tables_at (n ∷ nodes) (t ∷ ts) last (suc i) h k =
    update_tables_at nodes ts (add_all (keys n) last) i (omega arith) (omega arith)

-- For an answer whose tables are in the order of their keys, and a type that has a table in it and
-- in the registry: a round of the watching fiber leaves there the hosts that the answer gives for a
-- key; a key that the answer does not have is removed if the fiber has seen it before, and is left
-- alone otherwise.
pub watch_round-lookup :
    (nodes : List HostMap) (w : Watcher) (type : ℕ) (key : Bytes)
    → All Sorted nodes
    → type < length nodes
    → type < length w.mgr.reg_service_host_info
    → lookup key (get_or (watch_round (some nodes) w).mgr.reg_service_host_info type [])
      ≡ or_else (lookup key (get_or nodes type [])) (
          if contains key (last_before nodes type w.last_service_names)
          then none
          else lookup key (get_or w.mgr.reg_service_host_info type []))
unfolding watch_round
watch_round-lookup nodes w type key s h k =
    let last = last_before nodes type w.last_service_names in
    let table = get_or w.mgr.reg_service_host_info type [] in
    rw (update_tables_at nodes w.mgr.reg_service_host_info w.last_service_names type h k) (
      lookup-insert_all key (get_or nodes type []) (erase_all last table)
        (All-get_or Sorted nodes type [] s tt)
      ∙ rw (lookup-erase_all key last table))

length-update_tables :
    (nodes ts : List HostMap) (last : List Bytes)
    → length (update_tables nodes ts last).0 ≡ length ts
unfolding update_tables
length-update_tables [] ts last = refl
length-update_tables (n ∷ nodes) [] last = refl
length-update_tables (n ∷ nodes) (t ∷ ts) last =
    omega (arith, length-update_tables nodes ts (update_table last n t).1)

pub length-watch_round :
    (nodes : List HostMap) (w : Watcher)
    → length (watch_round (some nodes) w).mgr.reg_service_host_info
      ≡ length w.mgr.reg_service_host_info
unfolding watch_round
length-watch_round nodes w =
    length-update_tables nodes w.mgr.reg_service_host_info w.last_service_names
