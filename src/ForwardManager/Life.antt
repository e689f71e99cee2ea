-- ===== src/ForwardManager/Life.antt =====
-- source/core/forward-manager/FibpForwardManager.cpp: init, stop, and the way of a batch to the fibers of
-- a thread. The cache, of izenelib, has no part in them but its clear.
use fiberproxy.Prelude.{
  ℕ, ◌<◌, ◌^◌, List, [], Option, none, some, Bytes, ◌≡◌, refl, sym, ap, ◌∙◌, subst,
}
use fiberproxy.PortForward.{PortForwardMgr, stop_all, get_all_forward_services}
use fiberproxy.ServiceMgr.{ServiceMgr}
use fiberproxy.ServiceMgr.Setup.{Registry, new_service_mgr, stop as stop_registry}
use fiberproxy.ThreadObjects.{
  ThreadObjects, new_objects, init as init_objects, clear, get_thread_obj, get_all,
}
use fiberproxy.ThreadObjects.Own.{get_thread_obj-Owned}

-- `logger_mgr` is what setServiceMgr has given to the log.
pub record Manager : Type 0 where
  pub client_mgr_list : ThreadObjects
  pub fiber_pool_list : ThreadObjects
  pub service_mgr : Option Registry
  pub port_forward_mgr : PortForwardMgr
  pub logger_mgr : Option ServiceMgr

abbrev pub new_manager : Manager
new_manager = record {
  client_mgr_list = new_objects;
  fiber_pool_list = new_objects;
  service_mgr = none;
  port_forward_mgr = record { forward_service_list = []; forward_server_list = [] };
  logger_mgr = none;
}

unfoldable pub init :
    (Bytes → List Bytes)
    → (Bytes → List Bytes)
    → Bytes
    → Bytes
    → ℕ
    → Bytes
    → Bytes
    → ℕ
    → Manager
    → Manager
unfolding new_service_mgr init_objects
init split_list split_pair dns_host_list local_ip local_port report_ip report_port thread_size m =
    let mgr =
      new_service_mgr split_list split_pair dns_host_list local_ip local_port report_ip
        report_port in
    record {
      client_mgr_list = init_objects thread_size m.client_mgr_list;
      fiber_pool_list = init_objects thread_size m.fiber_pool_list;
      service_mgr = some mgr;
      port_forward_mgr = record { forward_service_list = []; forward_server_list = [] };
      logger_mgr = some mgr.tables;
    }

abbrev pub stopped : Option Registry → Option Registry
stopped none = none
stopped (some r) = some (stop_registry r)

unfoldable pub stop : Manager → Manager
unfolding stop_all clear stop_registry
stop m = record {
  client_mgr_list = clear m.client_mgr_list;
  fiber_pool_list = clear m.fiber_pool_list;
  service_mgr = stopped m.service_mgr;
  port_forward_mgr = stop_all m.port_forward_mgr;
  logger_mgr = none;
}

module _ (hash : ℕ → ℕ) where
  abbrev pub with_clients : Manager → Option (ℕ × ThreadObjects) → Option (ℕ × Manager)
  with_clients m none = none
  with_clients m (some (c, list)) = some (c, record m { client_mgr_list = list })

  abbrev pub with_pool : ℕ → Manager → Option (ℕ × ThreadObjects) → Option (ℕ × ℕ × Manager)
  with_pool c m none = none
  with_pool c m (some (pool, list)) = some (c, pool, record m { fiber_pool_list = list })

  -- post_to_fiber_pool, with the clients `c`, in the thread that runs the posted call
  unfoldable pub post_to_fiber_pool : ℕ → ℕ → Manager → Option (ℕ × ℕ × Manager)
  unfolding get_thread_obj
  post_to_fiber_pool thread c m = with_pool c m (get_thread_obj hash thread m.fiber_pool_list)

  abbrev pub then_post : ℕ → Option (ℕ × Manager) → Option (ℕ × ℕ × Manager)
  then_post thread none = none
  then_post thread (some (c, m)) = post_to_fiber_pool thread c m

  -- call_services_in_fiber: the clients and the pool of a batch that a thread starts. `none` is the
  -- division by the number of buckets before init.
  unfoldable pub start_batch : ℕ → Manager → Option (ℕ × ℕ × Manager)
  unfolding get_thread_obj post_to_fiber_pool
  start_batch thread m =
      then_post thread (with_clients m (get_thread_obj hash thread m.client_mgr_list))

  -- A manager that is made for some threads has clients and a pool for the first batch of any.
  pub start_batch-init :
      (split_list split_pair : Bytes → List Bytes) (dns_host_list local_ip : Bytes) (local_port : ℕ)
      (report_ip report_port : Bytes) (thread_size thread : ℕ)
      → 0 < thread_size
      → thread_size < 2 ^ 62
      → (c : ℕ) × (pool : ℕ) × (m : Manager) × (start_batch thread (
            init split_list split_pair dns_host_list local_ip local_port report_ip report_port
              thread_size new_manager)
          ≡ some (c, pool, m))
  unfolding start_batch post_to_fiber_pool init get_all
  start_batch-init split_list split_pair dns local_ip local_port rip rport n thread h b =
      let (s, e, o) = get_thread_obj-Owned hash n [] [] thread thread h b in
      let built = init split_list split_pair dns local_ip local_port rip rport n new_manager in
      let is_made : s ≡ init_objects n new_objects =
        sym (ap (λ x. elim x [ none ↦ s | some y ↦ y ]) e) in
      let first = subst (λ x. get_thread_obj hash thread x ≡ some (o.mine, o.s1)) is_made o.first in
      (
        o.mine,
        o.mine,
        record built { client_mgr_list = o.s1; fiber_pool_list = o.s1 },
        ap (λ g. then_post thread (with_clients built g)) first
            ∙ ap (with_pool o.mine (record built { client_mgr_list = o.s1 })) first,
      )

  -- Behind a stop nothing is forwarded, and a thread finds no object: the batch divides by zero.
  pub start_batch-stop :
      (m : Manager) (thread : ℕ)
      → (get_all_forward_services (stop m).port_forward_mgr ≡ [])
        × (start_batch thread (stop m) ≡ none)
  unfolding start_batch stop get_all_forward_services
  start_batch-stop m thread = (refl, refl)
