-- ===== src/PortForward.antt =====
-- source/core/forward-manager/FibpPortForwardMgr.cpp and the port forwarding of
-- FibpForwardManager.cpp. A listening server is its port; `new_port` is the port that the system
-- binds for port 0, given those that listen. PortForward/Keys has the fiber of FibpServiceMgr.cpp
-- that starts and stops the ports.
pub mod Copy
pub mod Connect
pub mod Keys
pub mod Consistent
pub mod Agents
use fiberproxy.Prelude.{
  ℕ, Bool, true, false, List, [], ◌∷◌, ◌++◌, Option, none, some, Bytes, if◌then◌else◌, contains,
  add, lookup, insert, erase, nat_key, bytes_key,
}
use fiberproxy.Types.{ForwardInfo}

pub record PortForwardMgr : Type 0 where
  pub forward_service_list : List (ℕ × ForwardInfo)
  pub forward_server_list : List (ℕ × ℕ)

unfoldable pub get_forward_service : ℕ → PortForwardMgr → Option ForwardInfo
get_forward_service port m = lookup port m.forward_service_list

abbrev pub infos : List (ℕ × ForwardInfo) → List ForwardInfo
infos [] = []
infos ((port, info) ∷ l) = info ∷ infos l

unfoldable pub get_all_forward_services : PortForwardMgr → List ForwardInfo
get_all_forward_services m = infos m.forward_service_list

unfoldable pub update_forward_service : ℕ → Bytes → ℕ → PortForwardMgr → PortForwardMgr
update_forward_service port name type m = record m {
  forward_service_list =
      insert port (record { service_name = name; service_type = type; port = port })
        m.forward_service_list;
}

-- FibpPortForwardMgr::startPortForward: a server at `port` with its thread
unfoldable pub start_server : ℕ → PortForwardMgr → PortForwardMgr
start_server port m = record m { forward_server_list = insert port port m.forward_server_list }

-- FibpForwardManager::startPortForward; the server's start always succeeds
unfoldable pub start_port_forward : ℕ → Bytes → ℕ → PortForwardMgr → PortForwardMgr
start_port_forward port name type m = update_forward_service port name type (start_server port m)

unfoldable pub stop_port_forward : ℕ → PortForwardMgr → PortForwardMgr
stop_port_forward port m = elim (lookup port m.forward_server_list) [
  | none ↦ m
  | some server ↦ record {
    forward_service_list = erase port m.forward_service_list;
    forward_server_list = erase port m.forward_server_list;
  }
]

unfoldable pub stop_all : PortForwardMgr → PortForwardMgr
stop_all m = record { forward_service_list = []; forward_server_list = [] }

-- run_server when the server throws
unfoldable pub server_failed : ℕ → PortForwardMgr → PortForwardMgr
server_failed port m = record m { forward_server_list = erase port m.forward_server_list }
