-- ===== src/PortForward/Keys.antt =====
-- source/core/forward-manager/FibpServiceMgr.cpp, watchPortForwardChangeFunc: the fiber that keeps
-- a port for each service that some agent has asked for, by the keys that consul lists. A key is
-- the agent's identifier of ten bytes and a name.
use fiberproxy.Prelude.{
  ℕ, not, List, [], ◌∷◌, ◌++◌, Option, none, some, map, Bytes, codes, bytes_eq, bytes_key, nat_key,
  ◌==◌, if◌then◌else◌, leb, length, take, drop, add, lookup, lookup_or, insert, erase,
}
use fiberproxy.Types.{ForwardInfo, http_service, rpc_service, raw_service, custom_service}
use fiberproxy.Json.{Json}
use fiberproxy.ServiceMgr.Parse.{to_lower}
use fiberproxy.PortForward.{
  PortForwardMgr, get_forward_service, start_port_forward, stop_port_forward,
}

abbrev pub agent_id_len : ℕ
agent_id_len = 10

abbrev pub forward_prefix : Bytes
forward_prefix = codes "fibp-forward-port/"

unfoldable pub strip_keys : List Bytes → List Bytes
strip_keys [] = []
strip_keys (s ∷ ss) =
    if leb (length s) (length forward_prefix)
    then strip_keys ss
    else drop (length forward_prefix) s ∷ strip_keys ss

-- parseForwardPortListRsp
unfoldable pub parse_forward_port_list_rsp : {J : Type 0} → Json J → Bytes → Option (List Bytes)
unfolding strip_keys
parse_forward_port_list_rsp json json_rsp = elim (json.parse json_rsp) [
  | none ↦ none
  | some doc ↦
      if not (json.is_array doc)
      then none
      else some (strip_keys (map json.get_string (json.elements doc)))
]

pub record ServiceInfo : Type 0 where
  pub service_name : Bytes
  pub type : ℕ

abbrev pub type_of : Bytes → ℕ
type_of s =
    if bytes_eq s (codes "http")
    then http_service
    else if bytes_eq s (codes "rpc")
    then rpc_service
    else if bytes_eq s (codes "raw")
    then raw_service
    else custom_service

-- getForwardPortInfo behind the request, on the elements of the answer
unfoldable pub read_port_info : List Bytes → Option ServiceInfo
read_port_info (name ∷ type ∷ rest) =
    some (record { service_name = name; type = type_of (to_lower type) })
read_port_info (name ∷ []) = none
read_port_info [] = none

-- The locals of the fiber, the ports of each agent, and the port manager.
pub record ForwardWatcher : Type 0 where
  pub last_ports : List (ℕ × List Bytes)
  pub service_port_map : List (Bytes × ℕ)
  pub previous_keys : List (Bytes × ServiceInfo)
  pub ports_used_by_agent : List (Bytes × List ℕ)
  pub mgr : PortForwardMgr

unfoldable pub clear_agents : List (ℕ × List Bytes) → List (ℕ × List Bytes)
clear_agents [] = []
clear_agents ((port, agents) ∷ l) = (port, []) ∷ clear_agents l

-- ports_used_by_agent_[*it2].insert(port)
unfoldable pub use_port : ℕ → List Bytes → List (Bytes × List ℕ) → List (Bytes × List ℕ)
use_port port [] used = used
use_port port (a ∷ agents) used =
    use_port port agents (insert a (add port (lookup_or a [] used)) used)

unfoldable pub use_ports : List (ℕ × List Bytes) → List (Bytes × List ℕ) → List (Bytes × List ℕ)
unfolding use_port
use_ports [] used = used
use_ports ((port, agents) ∷ l) used = use_ports l (use_port port agents used)

-- get_related_forward_ports
unfoldable pub get_related_forward_ports : Bytes → ForwardWatcher → List ℕ
get_related_forward_ports agentid w = lookup_or agentid [] w.ports_used_by_agent

-- the loop of getAllPortForwardServices over the ports
unfoldable pub forward_services : List ℕ → PortForwardMgr → List ForwardInfo
forward_services [] m = []
forward_services (p ∷ ps) m =
    let rest = forward_services ps m in
    elim (get_forward_service p m) [ none ↦ rest | some info ↦ info ∷ rest ]

-- getAllPortForwardServices of FibpForwardManager.cpp
unfoldable pub get_all_port_forward_services : Bytes → ForwardWatcher → List ForwardInfo
unfolding get_related_forward_ports forward_services
get_all_port_forward_services agentid w =
    forward_services (get_related_forward_ports agentid w) w.mgr

-- `text` is lexical_cast of an int, `fetch` the answer for a key split at its commas (`none` when
-- the request failed), and `new_port` the port that the system binds, given those that listen.
module _ (text : ℕ → Bytes) (fetch : Bytes → Option (List Bytes))
    (new_port : List (ℕ × ℕ) → ℕ) where
  abbrev pub unique_text : Bytes → ℕ → Bytes
  unique_text name type = name ++ text type

  -- the information on a key, old or new
  unfoldable pub key_info : Bytes → ForwardWatcher → Option ServiceInfo
  unfolding read_port_info
  key_info key w = elim (lookup key w.previous_keys) [
    | some si ↦ some si
    | none ↦ elim (fetch key) [ none ↦ none | some elems ↦ read_port_info elems ]
  ]

  abbrev pub add_agent : ℕ → Bytes → List (ℕ × List Bytes) → List (ℕ × List Bytes)
  add_agent port agent ports = insert port (add agent (lookup_or port [] ports)) ports

  -- an agent asks for a service
  unfoldable pub use_service : Bytes → ServiceInfo → ForwardWatcher → ForwardWatcher
  use_service agentid si w =
      let unique = unique_text si.service_name si.type in
      elim (lookup unique w.service_port_map) [
        | some port ↦ record w { last_ports = add_agent port agentid w.last_ports }
        | none ↦
            let port = new_port w.mgr.forward_server_list in
            record w {
              mgr = start_port_forward port si.service_name si.type w.mgr;
              service_port_map = insert unique port w.service_port_map;
              last_ports = add_agent port agentid w.last_ports;
            }
      ]

  -- one round of the loop over the keys; the new keys are gathered beside the state
  unfoldable pub handle_key :
      Bytes
      → ForwardWatcher × List (Bytes × ServiceInfo)
      → ForwardWatcher × List (Bytes × ServiceInfo)
  handle_key key (w, new_keys) =
      if leb (length key) agent_id_len then (w, new_keys) else (elim (key_info key w) [
        | none ↦ (w, new_keys)
        | some si ↦ (use_service (take agent_id_len key) si w, insert key si new_keys)
      ])

  unfoldable pub handle_keys :
      List Bytes
      → ForwardWatcher × List (Bytes × ServiceInfo)
      → ForwardWatcher × List (Bytes × ServiceInfo)
  handle_keys [] s = s
  handle_keys (key ∷ keys) s = handle_keys keys (handle_key key s)

  -- a port that no agent uses any more
  unfoldable pub stop_port : ℕ → ForwardWatcher → ForwardWatcher
  stop_port port w = record w {
    service_port_map = elim (get_forward_service port w.mgr) [
      | none ↦ w.service_port_map
      | some info ↦ erase (unique_text info.service_name info.service_type) w.service_port_map
    ];
    mgr = stop_port_forward port w.mgr;
    last_ports = erase port w.last_ports;
  }

  unfoldable pub stop_unused : List (ℕ × List Bytes) → ForwardWatcher → ForwardWatcher
  stop_unused [] w = w
  stop_unused ((port, agents) ∷ l) w =
      stop_unused l (if length agents == 0 then stop_port port w else w)

  -- The body of the loop behind the parse; `none` is an answer that did not parse.
  unfoldable pub forward_round : Option (List Bytes) → ForwardWatcher → ForwardWatcher
  unfolding clear_agents use_ports
  forward_round none w = w
  forward_round (some []) w = record w { previous_keys = [] }
  forward_round (some (key ∷ keys)) w =
      let (w₁, new_keys) =
        handle_keys (key ∷ keys) (record w { last_ports = clear_agents w.last_ports }, []) in
      let w₂ = stop_unused w₁.last_ports (record w₁ { previous_keys = new_keys }) in
      record w₂ { ports_used_by_agent = use_ports w₂.last_ports w₂.ports_used_by_agent }
