-- ===== src/Config/Common.antt =====
-- FibpConfig::parseDistributedCommon: what it has read when it throws nothing.
use fiberproxy.Prelude.{ℕ, Bool, true, false, Option, none, Bytes, codes, ◌≡◌, refl, ◌≢◌, [], ◌∷◌}
use fiberproxy.Config.{Xml, FibpConfig, BrokerAgentConfig, DistributedCommonConfig}
use fiberproxy.Config.Attributes.{get_attribute, check_value}
use fiberproxy.Config.Settings.{
  in_common, use_local_host, put_local_host, use_interface, parse_local_host,
  parse_distributed_common, take_ba_port,
}
use fiberproxy.Config.Runs.{Runs, >>-Runs, HoldsUint, read_string-Runs, read_uint-Runs}
use fiberproxy.Config.System.{Given}

module _ {E : Type 0} (xml : Xml E) (int64_of : Bytes → Option ℕ)
    (local_host_ip : Bytes → Bytes → Bool × Bytes) where
  -- the address: what is detected, or else the attribute, which must have a value
  abbrev pub LocalHost : E → Bytes → Bool × Bytes → Type 0
  LocalHost e host (true, ip) = host ≡ ip
  LocalHost e host (false, ip) = Given xml e (codes "localhost") host

  -- `ba_port` is the port of the broker agent, as it is held when the element is read.
  pub record CommonLoaded (e : E) (agent : BrokerAgentConfig) (old new : DistributedCommonConfig)
      : Type 0 where
    pub user_given : Given xml e (codes "username") new.user_name
    pub worker_stands : xml.attribute e (codes "workerport") ≢ []
    pub worker_read :
        HoldsUint int64_of 32 (xml.attribute e (codes "workerport")) old.worker_port new.worker_port
    pub master_stands : xml.attribute e (codes "masterport") ≢ []
    pub master_read :
        HoldsUint int64_of 32 (xml.attribute e (codes "masterport")) old.master_port new.master_port
    pub interface_stands : xml.attribute e (codes "localinterface") ≢ []
    pub host_read :
        LocalHost e new.local_host
          (local_host_ip (xml.attribute e (codes "localinterface")) old.local_host)
    pub ba_port_taken : new.ba_port ≡ agent.port

  use_local_host-Runs :
      (e : E) (r : Bool × Bytes) (c c' : FibpConfig)
      → Runs (use_local_host xml int64_of e r) c c'
      → (host : Bytes) × LocalHost e host r × (c' ≡ put_local_host host c)
  use_local_host-Runs e (true, ip) c c' h = (ip, refl, cc)
  use_local_host-Runs e (false, ip) c c' h =
      let (s, q) = read_string-Runs xml e (codes "localhost") true _ _ c' h in
      (xml.attribute e (codes "localhost"), (s, refl), q)

  -- The port of the broker agent is taken once the interface stands.
  parse_local_host-Runs :
      (e : E) (c c' : FibpConfig)
      → Runs (parse_local_host xml int64_of local_host_ip e) c c'
      → (xml.attribute e (codes "localinterface") ≢ [])
        × ((host : Bytes) × LocalHost e host (
              local_host_ip
                (xml.attribute e (codes "localinterface"))
                c.distributed_common.local_host)
            × (c' ≡ put_local_host host (take_ba_port c)))
  unfolding parse_local_host get_attribute
  parse_local_host-Runs e c c' h = go (xml.attribute e (codes "localinterface")) h
    where
      go :
          (val : Bytes)
          → use_interface xml int64_of local_host_ip e
              (check_value xml e (codes "localinterface") true val)
              c
            ≡ (none, c')
          → (val ≢ [])
            × ((host : Bytes) × LocalHost e host (local_host_ip val c.distributed_common.local_host)
                × (c' ≡ put_local_host host (take_ba_port c)))
      go [] h = cc
      go (x ∷ val) h = (λ e. cc, use_local_host-Runs e _ _ c' h)

  common_steps-Loaded :
      (e : E) (c c1 c2 c3 c' : FibpConfig) (w m : ℕ) (host : Bytes)
      → xml.attribute e (codes "username") ≢ []
      → xml.attribute e (codes "workerport") ≢ []
      → HoldsUint int64_of 32
          (xml.attribute e (codes "workerport"))
          c1.distributed_common.worker_port
          w
      → xml.attribute e (codes "masterport") ≢ []
      → HoldsUint int64_of 32
          (xml.attribute e (codes "masterport"))
          c2.distributed_common.master_port
          m
      → xml.attribute e (codes "localinterface") ≢ []
      → LocalHost e host (
          local_host_ip (xml.attribute e (codes "localinterface")) c3.distributed_common.local_host)
      → (c1 ≡ in_common (λ d. record d { user_name = xml.attribute e (codes "username") }) c)
      → (c2 ≡ in_common (λ d. record d { worker_port = w }) c1)
      → (c3 ≡ in_common (λ d. record d { master_port = m }) c2)
      → (c' ≡ put_local_host host (take_ba_port c3))
      → CommonLoaded e c.broker_agent c.distributed_common c'.distributed_common
        × (c' ≡ in_common (λ d. c'.distributed_common) c)
  common_steps-Loaded e c c1 c2 c3 c' w m host s1 s2 h2 s3 h3 s4 h4 q1 q2 q3 q4 =
      rw (q4, q3, q2, q1)
        (
          record {
            user_given = (s1, refl);
            worker_stands = s2;
            worker_read = rw q1 at h2;
            master_stands = s3;
            master_read = rw (q2, q1) at h3;
            interface_stands = s4;
            host_read = rw (q3, q2, q1) at h4;
            ba_port_taken = refl;
          },
          refl,
        )

  pub parse_distributed_common-Loaded :
      (e : E) (c c' : FibpConfig)
      → Runs (parse_distributed_common xml int64_of local_host_ip e) c c'
      → CommonLoaded e c.broker_agent c.distributed_common c'.distributed_common
        × (c' ≡ in_common (λ d. c'.distributed_common) c)
  unfolding parse_distributed_common
  parse_distributed_common-Loaded e c c' h =
      let (c3, h3, r4) = >>-Runs _ _ c c' h in
      let (c2, h2, r3) = >>-Runs _ _ c c3 h3 in
      let (c1, r1, r2) = >>-Runs _ _ c c2 h2 in
      let (s1, q1) = read_string-Runs xml e _ true _ c c1 r1 in
      let (s2, (w, k2, q2)) =
        read_uint-Runs xml e _ true c1 c2 int64_of 32 _ c1.distributed_common.worker_port refl r2 in
      let (s3, (m, k3, q3)) =
        read_uint-Runs xml e _ true c2 c3 int64_of 32 _ c2.distributed_common.master_port refl r3 in
      let (s4, (host, k4, q4)) = parse_local_host-Runs e c3 c' r4 in
      common_steps-Loaded e c c1 c2 c3 c' w m host s1 s2 k2 s3 k3 s4 k4 q1 q2 q3 q4
