-- ===== src/ServiceMgr/Nodes.antt =====
-- source/core/forward-manager/FibpServiceMgr.cpp, parseServiceInfoRsp: the table of healthy nodes
-- that an answer of consul gives.
pub mod Passing
pub mod Table
pub mod Range
use fiberproxy.Prelude.{
  ℕ, Bool, not, List, [], ◌∷◌, Option, none, some, Bytes, if◌then◌else◌, get_or, set, replicate,
  lookup_or, insert, add, bytes_key, pair_key,
}
use fiberproxy.Types.{end_service}
use fiberproxy.Json.{Json}
use fiberproxy.ServiceMgr.{HostMap, HostPair, service_key}
use fiberproxy.ServiceMgr.Parse.{Node, read_node}

-- server_info[service_name + connector + tag].insert(std::make_pair(host, port)) for each tag
unfoldable pub add_tags : Node → List Bytes → HostMap → HostMap
add_tags n [] table = table
add_tags n (tag ∷ tags) table =
    let key = service_key n.service_name tag in
    add_tags n tags (insert key (add (n.host, n.port) (lookup_or key [] table)) table)

-- node_list[type]
unfoldable pub add_node : Node → List HostMap → List HostMap
unfolding add_tags
add_node n node_list =
    set node_list n.service_type (add_tags n n.service_tags (get_or node_list n.service_type []))

unfoldable pub add_kept : Option Node → List HostMap → List HostMap
add_kept none node_list = node_list
add_kept (some n) node_list = add_node n node_list

module _ {J : Type 0} (json : Json J) where
  open json use {parse, is_array, elements}

  -- the loop over the nodes; a node that did not parse or does not pass its checks is skipped
  unfoldable pub add_nodes : List J → List HostMap → List HostMap
  add_nodes [] node_list = node_list
  add_nodes (v ∷ vs) node_list = add_nodes vs (add_kept (read_node json v) node_list)

  unfoldable pub parse_service_info_rsp : Bytes → Option (List HostMap)
  parse_service_info_rsp json_rsp = elim (parse json_rsp) [
    | none ↦ none
    | some doc ↦
        if not (is_array doc)
        then none
        else some (add_nodes (elements doc) (replicate end_service []))
  ]
