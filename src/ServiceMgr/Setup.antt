-- ===== src/ServiceMgr/Setup.antt =====
-- source/core/forward-manager/FibpServiceMgr.cpp: the constructor and stop. `split_list` is boost::split at
-- "," with compressed separators, `split_pair` boost::split at ":".
use fiberproxy.Prelude.{ℕ, Bool, true, false, List, [], ◌∷◌, Bytes, codes, replicate, ◌≡◌, refl}
use fiberproxy.Types.{end_service}
use fiberproxy.ServiceMgr.{HostPair, ServiceMgr}

-- The fields of FibpServiceMgr that its constructor sets; `watching` is whether the thread of the
-- watching fibers was started.
pub record Registry : Type 0 where
  pub tables : ServiceMgr
  pub reg_address_list : List HostPair
  pub local_ip : Bytes
  pub local_port : ℕ
  pub report_ip : Bytes
  pub report_port : Bytes
  pub need_stop : Bool
  pub watching : Bool

module _ (split_list split_pair : Bytes → List Bytes) where
  -- an entry that is not of two parts is left out
  abbrev pub add_address : List Bytes → List HostPair → List HostPair
  add_address (ip ∷ port ∷ []) l = (ip, port) ∷ l
  add_address parts l = l

  unfoldable pub addresses : List Bytes → List HostPair
  addresses [] = []
  addresses (a ∷ l) = add_address (split_pair a) (addresses l)

  abbrev pub has_any : List HostPair → Bool
  has_any [] = false
  has_any (a ∷ l) = true

  unfoldable pub new_service_mgr : Bytes → Bytes → ℕ → Bytes → Bytes → Registry
  unfolding addresses
  new_service_mgr reg_address_list local_ip local_port report_ip report_port =
      let list = addresses (split_list reg_address_list) in
      record {
        tables = record {
          reg_service_host_info = replicate end_service [];
          cur_cluster_name = codes "dev";
        };
        reg_address_list = list;
        local_ip = local_ip;
        local_port = local_port;
        report_ip = report_ip;
        report_port = report_port;
        need_stop = false;
        watching = has_any list;
      }

  -- A list in which no entry is an address starts no thread.
  new_service_mgr_idle :
      (reg_address_list local_ip : Bytes) (local_port : ℕ) (report_ip report_port : Bytes)
      → addresses (split_list reg_address_list) ≡ []
      → (new_service_mgr reg_address_list local_ip local_port report_ip report_port).watching
        ≡ false
  unfolding new_service_mgr
  new_service_mgr_idle reg_address_list local_ip local_port report_ip report_port h = rw h refl

-- FibpServiceMgr::stop, which waits for the end of the thread
unfoldable pub stop : Registry → Registry
stop r = record r { need_stop = true; watching = false }
