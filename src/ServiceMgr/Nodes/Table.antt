-- ===== src/ServiceMgr/Nodes/Table.antt =====
-- Which addresses the table of an answer holds.
use fiberproxy.Prelude.{
  ℕ, ◌<◌, Bool, true, false, ◌&&◌, ◌||◌, List, [], ◌∷◌, Option, none, some, Bytes, ◌≡◌, refl, ap,
  ◌∙◌, arith, ◌==◌, bytes_eq, bytes_eq_iff, length, length-set, get_or, replicate, any, get_or-set,
  get_or-replicate, lookup, lookup_or, insert, add, contains, contains-add, bytes_key, pair_key,
  lookup-insert, pair_eq, Bool-cases, inl, inr,
}
use fiberproxy.Types.{end_service}
use fiberproxy.Json.{Json}
use fiberproxy.ServiceMgr.{HostMap, HostPair, service_key}
use fiberproxy.ServiceMgr.Parse.{Node, read_node}
use fiberproxy.ServiceMgr.Nodes.Passing.{passes, gathered, read_node_if}
use fiberproxy.ServiceMgr.Nodes.{add_tags, add_node, add_kept, add_nodes, parse_service_info_rsp}

-- The table of one type lists the address under the key.
abbrev pub lists : HostPair → Bytes → HostMap → Bool
lists hp key table = contains hp (lookup_or key [] table)

-- The node has this address, and one of its tags gives the key.
abbrev pub has_tag : Bytes → Node → List Bytes → Bool
has_tag key n tags = any (λ tag. bytes_eq (service_key n.service_name tag) key) tags

abbrev pub offers : ℕ → Bytes → HostPair → Node → Bool
offers type key hp n =
    n.service_type == type && (pair_eq (n.host, n.port) hp && has_tag key n n.service_tags)

lists-insert :
    (hp p : HostPair) (key k : Bytes) (table : HostMap)
    → lists hp key (insert k (add p (lookup_or k [] table)) table)
      ≡ ((pair_eq p hp && bytes_eq k key) || lists hp key table)
lists-insert hp p key k table = ground (
  arith,
  lookup-insert k key (add p (lookup_or k [] table)) table,
  contains-add p hp (lookup_or k [] table),
  bytes_eq_iff k key,
)

-- The tags of a node add its address under their keys and change nothing else.
lists-add_tags :
    (hp : HostPair) (key : Bytes) (n : Node) (tags : List Bytes) (table : HostMap)
    → lists hp key (add_tags n tags table)
      ≡ ((pair_eq (n.host, n.port) hp && has_tag key n tags) || lists hp key table)
unfolding add_tags
lists-add_tags hp key n [] table = ground arith
lists-add_tags hp key n (tag ∷ tags) table =
    let k = service_key n.service_name tag in
    ground (
      arith,
      lists-add_tags hp key n tags (insert k (add (n.host, n.port) (lookup_or k [] table)) table),
      lists-insert hp (n.host, n.port) key k table,
    )

-- The tables of an answer list the address under the key, in the table of the type.
abbrev pub listed : ℕ → Bytes → HostPair → List HostMap → Bool
listed type key hp node_list = lists hp key (get_or node_list type [])

listed-add_node :
    (type : ℕ) (key : Bytes) (hp : HostPair) (n : Node) (node_list : List HostMap)
    → type < length node_list
    → listed type key hp (add_node n node_list)
      ≡ (offers type key hp n || listed type key hp node_list)
unfolding add_node
listed-add_node type key hp n node_list h =
    let table = get_or node_list n.service_type [] in
    ground (
      arith,
      get_or-set node_list n.service_type type (add_tags n n.service_tags table) [] h,
      lists-add_tags hp key n n.service_tags table,
    )

length-add_node :
    (n : Node) (node_list : List HostMap) → length (add_node n node_list) ≡ length node_list
unfolding add_node
length-add_node n node_list = length-set node_list n.service_type _

abbrev pub maybe_offers : ℕ → Bytes → HostPair → Option Node → Bool
maybe_offers type key hp none = false
maybe_offers type key hp (some n) = offers type key hp n

listed-add_kept :
    (type : ℕ) (key : Bytes) (hp : HostPair) (o : Option Node) (node_list : List HostMap)
    → type < length node_list
    → listed type key hp (add_kept o node_list)
      ≡ (maybe_offers type key hp o || listed type key hp node_list)
unfolding add_kept
listed-add_kept type key hp none node_list h = refl
listed-add_kept type key hp (some n) node_list h = listed-add_node type key hp n node_list h

length-add_kept :
    (o : Option Node) (node_list : List HostMap) → length (add_kept o node_list) ≡ length node_list
unfolding add_kept
length-add_kept none node_list = refl
length-add_kept (some n) node_list = length-add_node n node_list

listed_none :
    (type : ℕ) (key : Bytes) (hp : HostPair) (n : ℕ) → listed type key hp (replicate n []) ≡ false
unfolding lookup contains
listed_none type key hp n = rw (get_or-replicate {A = HostMap} n type [])

or_regroup : (a b c d : Bool) → c ≡ (b || d) → (a || c) ≡ ((b || a) || d)
or_regroup a b c d e = ground arith

module _ {J : Type 0} (json : Json J) where
  -- The node passes its checks, and what its members give offers the address.
  abbrev pub node_offers : ℕ → Bytes → HostPair → J → Bool
  node_offers type key hp v = passes json v && maybe_offers type key hp (gathered json v)

  maybe_offers-read_node :
      (type : ℕ) (key : Bytes) (hp : HostPair) (v : J)
      → maybe_offers type key hp (read_node json v) ≡ node_offers type key hp v
  maybe_offers-read_node type key hp v = elim (Bool-cases (passes json v)) [
    | inl e ↦ rw (read_node_if json v true e, e) refl
    | inr e ↦ rw (read_node_if json v false e, e) refl
  ]

  listed-add_nodes :
      (type : ℕ) (key : Bytes) (hp : HostPair) (vs : List J) (node_list : List HostMap)
      → type < length node_list
      → listed type key hp (add_nodes json vs node_list)
        ≡ (any (node_offers type key hp) vs || listed type key hp node_list)
  unfolding add_nodes
  listed-add_nodes type key hp [] node_list h = refl
  listed-add_nodes type key hp (v ∷ vs) node_list h =
      listed-add_nodes type key hp vs (add_kept (read_node json v) node_list)
        (rw (length-add_kept (read_node json v) node_list) h)
      ∙ or_regroup _ _ _ _ (
          listed-add_kept type key hp (read_node json v) node_list h
          ∙ ap (λ b. b || listed type key hp node_list) (maybe_offers-read_node type key hp v))

  -- The tables that an answer gives.
  abbrev pub tables : J → List HostMap
  tables doc = add_nodes json (json.elements doc) (replicate end_service [])

  length-add_nodes :
      (vs : List J) (node_list : List HostMap)
      → length (add_nodes json vs node_list) ≡ length node_list
  unfolding add_nodes
  length-add_nodes [] node_list = refl
  length-add_nodes (v ∷ vs) node_list =
      length-add_nodes vs _ ∙ length-add_kept (read_node json v) node_list

  pub length-tables : (doc : J) → length (tables doc) ≡ end_service
  length-tables doc = length-add_nodes (json.elements doc) (replicate end_service [])

  pub parse_service_info_rsp-tables :
      (json_rsp : Bytes) (doc : J)
      → json.parse json_rsp ≡ some doc
      → json.is_array doc ≡ true
      → parse_service_info_rsp json json_rsp ≡ some (tables doc)
  unfolding parse_service_info_rsp
  parse_service_info_rsp-tables json_rsp doc p a = rw (p, parse_service_info_rsp) (rw a)

  pub listed-tables :
      (type : ℕ) (key : Bytes) (hp : HostPair) (doc : J)
      → type < end_service
      → listed type key hp (tables doc) ≡ any (node_offers type key hp) (json.elements doc)
  listed-tables type key hp doc h =
      listed-add_nodes type key hp (json.elements doc) (replicate end_service []) h
      ∙ ground (arith, listed_none type key hp end_service)

  -- An answer that parses as a list gives a table for each type of service, and the table of a type
  -- lists an address under a key exactly when some node of the answer passes its checks and its
  -- members parse to this type, this address and a tag that gives the key. A node passes its checks
  -- when it has a member "Checks" and the last of these is no list or a list in which no check has
  -- a member "Status" other than "passing".
  pub parse_service_info_rsp-listed :
      (json_rsp : Bytes) (doc : J)
      → json.parse json_rsp ≡ some doc
      → json.is_array doc ≡ true
      → (node_list : List HostMap) × (parse_service_info_rsp json json_rsp ≡ some node_list)
        × (length node_list ≡ end_service)
        × ((type : ℕ) (key : Bytes) (hp : HostPair)
            → type < end_service
            → listed type key hp node_list ≡ any (node_offers type key hp) (json.elements doc))
  parse_service_info_rsp-listed json_rsp doc p a = (
    tables doc,
    parse_service_info_rsp-tables json_rsp doc p a,
    length-tables doc,
    λ type key hp h. listed-tables type key hp doc h,
  )
