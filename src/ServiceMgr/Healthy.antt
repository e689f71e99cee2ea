-- ===== src/ServiceMgr/Healthy.antt =====
-- source/core/forward-manager/FibpServiceMgr.cpp: from an answer of consul to the address of a call.
use fiberproxy.Prelude.{
  ℕ, ◌<◌, true, List, [], Option, none, some, Bytes, ◌≡◌, refl, sym, subst, ◌∙◌, any, length,
  get_or, get_elem?-get_or, lookup, lookup_or, contains, bytes_key, pair_key,
}
use fiberproxy.Types.{end_service}
use fiberproxy.Json.{Json}
use fiberproxy.ServiceMgr.{
  HostPair, HostMap, Watcher, watch_round, service_key, get_service_address,
}
use fiberproxy.ServiceMgr.Nodes.{parse_service_info_rsp}
use fiberproxy.ServiceMgr.Nodes.Table.{
  node_offers, tables, length-tables, parse_service_info_rsp-tables, listed-tables,
}
use fiberproxy.ServiceMgr.Keys.{tables-Sorted}
use fiberproxy.ServiceMgr.Balance.{get_service_address-contains}
use fiberproxy.ServiceMgr.Watch.{
  or_else, contains-last_before, watch_round-lookup, length-watch_round,
}

or_else-none : (a : Option (List HostPair)) → or_else a none ≡ a
or_else-none none = refl
or_else-none (some a) = refl

module _ {J : Type 0} (json : Json J) (json_rsp : Bytes) (doc : J)
    (parsed : json.parse json_rsp ≡ some doc) (is_array : json.is_array doc ≡ true) (w : Watcher)
    (tables_sized : length w.mgr.reg_service_host_info ≡ end_service) (type : ℕ)
    (in_range : type < end_service) where
  abbrev next : Watcher
  next = watch_round (parse_service_info_rsp json json_rsp) w

  -- What is to be shown of the round for this outcome of the parse.
  abbrev Shown : Option (List HostMap) → Type 0
  Shown o =
      let m = (watch_round o w).mgr in
      (b : ℕ) (name : Bytes) (hp : HostPair)
      → contains (service_key name m.cur_cluster_name) w.last_service_names ≡ true
      → get_service_address m b name type ≡ some hp
      → any (node_offers json type (service_key name m.cur_cluster_name) hp) (json.elements doc)
        ≡ true

  -- In the new table a known key has the hosts of the answer or none.
  known-eq :
      (key : Bytes)
      → contains key w.last_service_names ≡ true
      → lookup key
          (get_or (watch_round (some (tables json doc)) w).mgr.reg_service_host_info type [])
        ≡ lookup key (get_or (tables json doc) type [])
  known-eq key known =
      watch_round-lookup (tables json doc) w type key (tables-Sorted json (json.elements doc))
        (rw (length-tables json doc) in_range) (rw tables_sized in_range)
      ∙ rw (contains-last_before key (tables json doc) type w.last_service_names known)
          (or_else-none (lookup key (get_or (tables json doc) type [])))

  shown : Shown (some (tables json doc))
  shown b name hp known given =
      let m = (watch_round (some (tables json doc)) w).mgr in
      let key = service_key name m.cur_cluster_name in
      let sized : type < length m.reg_service_host_info =
        rw (length-watch_round (tables json doc) w, tables_sized) in_range in
      let (hs, found, inside) =
        get_service_address-contains m name type (get_or m.reg_service_host_info type [])
          (get_elem?-get_or m.reg_service_host_info type [] sized) b hp given in
      sym (listed-tables json type key hp doc in_range)
      ∙ rw (sym (known-eq key known) ∙ found, lookup_or) inside

  -- For an answer that parses as a list, a type that has a table, and a service that a watching
  -- fiber has seen: behind the fiber's next round a look-up of the service only gives addresses of
  -- nodes of the answer that pass their checks and have this type and cluster. A node passes its
  -- checks when it has a member "Checks" and the last of these is no list or a list in which no
  -- check has a member "Status" other than "passing".
  pub get_service_address-node_offers :
      (b : ℕ) (name : Bytes) (hp : HostPair)
      → contains (service_key name next.mgr.cur_cluster_name) w.last_service_names ≡ true
      → get_service_address next.mgr b name type ≡ some hp
      → any
          (node_offers json type (service_key name next.mgr.cur_cluster_name) hp)
          (json.elements doc)
        ≡ true
  get_service_address-node_offers =
      subst Shown (sym (parse_service_info_rsp-tables json json_rsp doc parsed is_array)) shown
