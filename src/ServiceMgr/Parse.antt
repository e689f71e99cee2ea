-- ===== src/ServiceMgr/Parse.antt =====
-- source/core/forward-manager/FibpServiceMgr.cpp: what is read from the answers of consul.
use fiberproxy.Prelude.{
  ℕ, Bool, true, false, ◌&&◌, not, List, [], ◌∷◌, ◌++◌, Option, none, some, map, Bytes, codes,
  bytes_eq, bytes_key, pair_key, is_empty, lower_byte, if◌then◌else◌,
}
use fiberproxy.Types.{http_service, rpc_service, raw_service, custom_service}
use fiberproxy.Json.{Json}

-- boost::algorithm::to_lower in the "C" locale
abbrev pub to_lower : Bytes → Bytes
to_lower s = map lower_byte s

-- What parseServiceInfoRsp gathers of one node.
pub record Node : Type 0 where
  pub host : Bytes
  pub port : Bytes
  pub service_name : Bytes
  pub service_type : ℕ
  pub service_tags : List Bytes
  pub is_passing : Bool

abbrev pub new_node : Node
new_node = record {
  host = [];
  port = [];
  service_name = [];
  service_type = custom_service;
  service_tags = [];
  is_passing = false;
}

-- one tag of "Tags"
unfoldable pub read_tag : Bytes → Node → Node
read_tag tag n =
    if bytes_eq tag (codes "http")
    then record n { service_type = http_service }
    else if bytes_eq tag (codes "raw")
    then record n { service_type = raw_service }
    else if bytes_eq tag (codes "rpc")
    then record n { service_type = rpc_service }
    else record n { service_tags = n.service_tags ++ tag ∷ [] }

module _ {J : Type 0} (json : Json J) where
  open json use {parse, is_object, is_array, members, elements, get_string, int_string}

  unfoldable pub names : List (Bytes × J) → List Bytes
  names [] = []
  names ((name, v) ∷ ms) = name ∷ names ms

  -- false, with no services, or true with the names
  unfoldable pub parse_query_services_rsp : Bytes → Bool × List Bytes
  unfolding names
  parse_query_services_rsp json_rsp = elim (parse json_rsp) [
    | none ↦ (false, [])
    | some doc ↦ if not (is_object doc) then (false, []) else (true, names (members doc))
  ]

  -- the first member with the key "Address"
  unfoldable pub find_address_member : List (Bytes × J) → Option Bytes
  find_address_member [] = none
  find_address_member ((key, v) ∷ ms) =
      if bytes_eq key (codes "Address") then some (get_string v) else find_address_member ms

  unfoldable pub parse_service_node_info : J → Option Bytes
  unfolding find_address_member
  parse_service_node_info v = if not (is_object v) then none else find_address_member (members v)

  unfoldable pub read_tags : List J → Node → Node
  unfolding read_tag
  read_tags [] n = n
  read_tags (t ∷ ts) n = read_tags ts (read_tag (to_lower (get_string t)) n)

  unfoldable pub read_service_member : Bytes → J → Node → Node
  unfolding read_tags
  read_service_member key v n =
      if bytes_eq key (codes "Port")
      then record n { port = int_string v }
      else if bytes_eq key (codes "Tags")
      then (if not (is_array v) then n else read_tags (elements v) n)
      else if bytes_eq key (codes "Service")
      then record n { service_name = get_string v }
      else n

  unfoldable pub read_service_members : List (Bytes × J) → Node → Node
  unfolding read_service_member
  read_service_members [] n = n
  read_service_members ((key, v) ∷ ms) n = read_service_members ms (read_service_member key v n)

  -- A service with a name and no tag is in the cluster "dev".
  unfoldable pub default_tag : Node → Node
  default_tag n = elim n.service_tags [
    | [] ↦ if not (is_empty n.service_name) then record n { service_tags = codes "dev" ∷ [] } else n
    | t ∷ ts ↦ n
  ]

  unfoldable pub parse_service_info : J → Node → Option Node
  unfolding read_service_members default_tag
  parse_service_info v n =
      if not (is_object v)
      then none
      else some (
          default_tag (
            read_service_members (members v)
              (record n { service_type = custom_service; service_tags = []; service_name = [] })))

  -- the members of one check: false at the first status that is not "passing"
  unfoldable pub check_passing : List (Bytes × J) → Bool
  check_passing [] = true
  check_passing ((name, v) ∷ ms) =
      if bytes_eq name (codes "Status") && not (bytes_eq (get_string v) (codes "passing"))
      then false
      else check_passing ms

  unfoldable pub checks_passing : List J → Bool
  unfolding check_passing
  checks_passing [] = true
  checks_passing (c ∷ cs) = if check_passing (members c) then checks_passing cs else false

  unfoldable pub parse_service_check_info : J → Bool
  unfolding checks_passing
  parse_service_check_info v = if not (is_array v) then true else checks_passing (elements v)

  -- one member of a node; `none` is the `break` of a failed parse
  unfoldable pub read_node_member : Bytes → J → Node → Option Node
  unfolding parse_service_node_info parse_service_info parse_service_check_info
  read_node_member key v n =
      if bytes_eq key (codes "Node")
      then (elim (parse_service_node_info v) [
        | none ↦ none
        | some h ↦ some (record n { host = h })
      ])
      else if bytes_eq key (codes "Service")
      then parse_service_info v n
      else if bytes_eq key (codes "Checks")
      then some (record n { is_passing = parse_service_check_info v })
      else some n

  unfoldable pub read_node_members : List (Bytes × J) → Node → Option Node
  unfolding read_node_member
  read_node_members [] n = some n
  read_node_members ((key, v) ∷ ms) n = elim (read_node_member key v n) [
    | none ↦ none
    | some n' ↦ read_node_members ms n'
  ]

  -- A node that is kept: it parsed, and its checks pass.
  unfoldable pub read_node : J → Option Node
  unfolding read_node_members
  read_node v = elim (read_node_members (members v) new_node) [
    | none ↦ none
    | some n ↦ if not n.is_passing then none else some n
  ]
