-- ===== src/Config/Util.antt =====
-- FibpConfig::parseDistributedUtil: what it has read when it throws nothing.
use fiberproxy.Prelude.{ℕ, Bool, true, false, Option, Bytes, codes, ◌≡◌, refl, ◌≢◌, []}
use fiberproxy.Config.{Xml, FibpConfig, DistributedUtilConfig, ZooKeeperConfig, DfsConfig}
use fiberproxy.Config.Settings.{in_util, in_zk, in_dfs, read_zk, read_dfs, parse_distributed_util}
use fiberproxy.Config.Runs.{
  Runs, >>-Runs, Unique, HoldsBool, HoldsUint, with_unique_child-Runs, read_string-Runs,
  read_bool-Runs, read_uint-Runs,
}
use fiberproxy.Config.System.{Given, GivenIn, GivesIn, read_child-Runs}

module _ {E : Type 0} (xml : Xml E) (int64_of : Bytes → Option ℕ) where
  pub record ZkLoaded (zk : E) (old new : ZooKeeperConfig) : Type 0 where
    pub disable_stands : xml.attribute zk (codes "disable") ≢ []
    pub disable_read : HoldsBool (xml.attribute zk (codes "disable")) old.disabled new.disabled
    pub servers_given : Given xml zk (codes "servers") new.zk_hosts
    pub timeout_stands : xml.attribute zk (codes "sessiontimeout") ≢ []
    pub timeout_read :
        HoldsUint int64_of 32
          (xml.attribute zk (codes "sessiontimeout"))
          old.zk_recv_timeout
          new.zk_recv_timeout

  -- An optional text is emptied where its attribute is; a flag and a port keep their values.
  pub record DfsLoaded (dfs : E) (old new : DfsConfig) : Type 0 where
    pub type_read : new.type_name ≡ xml.attribute dfs (codes "type")
    pub fuse_read :
        HoldsBool (xml.attribute dfs (codes "supportfuse")) old.is_support_fuse new.is_support_fuse
    pub mount_read : new.mount_dir ≡ xml.attribute dfs (codes "mountdir")
    pub server_read : new.server ≡ xml.attribute dfs (codes "server")
    pub port_read : HoldsUint int64_of 32 (xml.attribute dfs (codes "port")) old.port new.port

  pub record UtilLoaded (util : E) (old new : DistributedUtilConfig) : Type 0 where
    pub zk_loaded :
        (zk : E) × Unique xml util (codes "ZooKeeper") zk × ZkLoaded zk old.zk_config new.zk_config
    pub dns_given : GivenIn xml util (codes "ServiceDiscovery") (codes "servers") new.dns_servers
    pub dfs_loaded :
        (dfs : E) × Unique xml util (codes "DFS") dfs × DfsLoaded dfs old.dfs_config new.dfs_config

  zk_steps-Loaded :
      (e : E) (c c1 c2 c' : FibpConfig) (b : Bool) (n : ℕ)
      → xml.attribute e (codes "disable") ≢ []
      → HoldsBool (xml.attribute e (codes "disable")) c.distributed_util.zk_config.disabled b
      → xml.attribute e (codes "servers") ≢ []
      → xml.attribute e (codes "sessiontimeout") ≢ []
      → HoldsUint int64_of 32
          (xml.attribute e (codes "sessiontimeout"))
          c2.distributed_util.zk_config.zk_recv_timeout
          n
      → (c1 ≡ in_zk (λ z. record z { disabled = b }) c)
      → (c2 ≡ in_zk (λ z. record z { zk_hosts = xml.attribute e (codes "servers") }) c1)
      → (c' ≡ in_zk (λ z. record z { zk_recv_timeout = n }) c2)
      → ZkLoaded e c.distributed_util.zk_config c'.distributed_util.zk_config
        × (c' ≡ in_zk (λ z. c'.distributed_util.zk_config) c)
  zk_steps-Loaded e c c1 c2 c' b n s1 h1 s2 s3 h3 q1 q2 q3 =
      rw (q3, q2, q1)
        (
          record {
            disable_stands = s1;
            disable_read = h1;
            servers_given = (s2, refl);
            timeout_stands = s3;
            timeout_read = rw (q2, q1) at h3;
          },
          refl,
        )

  dfs_steps-Loaded :
      (e : E) (c c1 c2 c3 c4 c' : FibpConfig) (b : Bool) (n : ℕ)
      → HoldsBool
          (xml.attribute e (codes "supportfuse"))
          c1.distributed_util.dfs_config.is_support_fuse
          b
      → HoldsUint int64_of 32 (xml.attribute e (codes "port")) c4.distributed_util.dfs_config.port n
      → (c1 ≡ in_dfs (λ d. record d { type_name = xml.attribute e (codes "type") }) c)
      → (c2 ≡ in_dfs (λ d. record d { is_support_fuse = b }) c1)
      → (c3 ≡ in_dfs (λ d. record d { mount_dir = xml.attribute e (codes "mountdir") }) c2)
      → (c4 ≡ in_dfs (λ d. record d { server = xml.attribute e (codes "server") }) c3)
      → (c' ≡ in_dfs (λ d. record d { port = n }) c4)
      → DfsLoaded e c.distributed_util.dfs_config c'.distributed_util.dfs_config
        × (c' ≡ in_dfs (λ d. c'.distributed_util.dfs_config) c)
  dfs_steps-Loaded e c c1 c2 c3 c4 c' b n h2 h5 q1 q2 q3 q4 q5 =
      rw (q5, q4, q3, q2, q1)
        (
          record {
            type_read = refl;
            fuse_read = rw q1 at h2;
            mount_read = refl;
            server_read = refl;
            port_read = rw (q4, q3, q2, q1) at h5;
          },
          refl,
        )

  read_zk-Loaded :
      (e : E) (c c' : FibpConfig)
      → Runs (read_zk xml int64_of e) c c'
      → ZkLoaded e c.distributed_util.zk_config c'.distributed_util.zk_config
        × (c' ≡ in_zk (λ z. c'.distributed_util.zk_config) c)
  unfolding read_zk
  read_zk-Loaded e c c' h =
      let (c2, h2, r3) = >>-Runs _ _ c c' h in
      let (c1, r1, r2) = >>-Runs _ _ c c2 h2 in
      let (s1, (b, h1, q1)) =
        read_bool-Runs xml e _ true c c1 _ c.distributed_util.zk_config.disabled refl r1 in
      let (s2, q2) = read_string-Runs xml e _ true _ c1 c2 r2 in
      let (s3, (n, h3, q3)) =
        read_uint-Runs xml e _ true c2 c' int64_of 32 _
          c2.distributed_util.zk_config.zk_recv_timeout refl r3 in
      zk_steps-Loaded e c c1 c2 c' b n s1 h1 s2 s3 h3 q1 q2 q3

  read_dfs-Loaded :
      (e : E) (c c' : FibpConfig)
      → Runs (read_dfs xml int64_of e) c c'
      → DfsLoaded e c.distributed_util.dfs_config c'.distributed_util.dfs_config
        × (c' ≡ in_dfs (λ d. c'.distributed_util.dfs_config) c)
  unfolding read_dfs
  read_dfs-Loaded e c c' h =
      let (c4, h4, r5) = >>-Runs _ _ c c' h in
      let (c3, h3, r4) = >>-Runs _ _ c c4 h4 in
      let (c2, h2, r3) = >>-Runs _ _ c c3 h3 in
      let (c1, r1, r2) = >>-Runs _ _ c c2 h2 in
      let (s1, q1) = read_string-Runs xml e _ false _ c c1 r1 in
      let (s2, (b, k2, q2)) =
        read_bool-Runs xml e _ false c1 c2 _ c1.distributed_util.dfs_config.is_support_fuse refl
          r2 in
      let (s3, q3) = read_string-Runs xml e _ false _ c2 c3 r3 in
      let (s4, q4) = read_string-Runs xml e _ false _ c3 c4 r4 in
      let (s5, (n, k5, q5)) =
        read_uint-Runs xml e _ false c4 c' int64_of 32 _ c4.distributed_util.dfs_config.port refl
          r5 in
      dfs_steps-Loaded e c c1 c2 c3 c4 c' b n k2 k5 q1 q2 q3 q4 q5

  util_steps-Loaded :
      (util zk dfs : E) (c c1 c2 c' : FibpConfig) (z : ZooKeeperConfig) (d : DfsConfig)
      → Unique xml util (codes "ZooKeeper") zk
      → ZkLoaded zk c.distributed_util.zk_config z
      → (c1 ≡ in_zk (λ x. z) c)
      → GivesIn xml util
          (codes "ServiceDiscovery")
          (codes "servers")
          (λ v. in_util (λ u. record u { dns_servers = v }))
          c1
          c2
      → Unique xml util (codes "DFS") dfs
      → DfsLoaded dfs c2.distributed_util.dfs_config d
      → (c' ≡ in_dfs (λ x. d) c2)
      → UtilLoaded util c.distributed_util c'.distributed_util
        × (c' ≡ in_util (λ u. c'.distributed_util) c)
  util_steps-Loaded util zk dfs c c1 c2 c' z d u1 l1 q1 (v, g, q2) u3 l3 q3 =
      rw (q3, q2, q1)
        (
          record {
            zk_loaded = (zk, u1, l1);
            dns_given = g;
            dfs_loaded = (dfs, u3, rw (q2, q1) at l3);
          },
          refl,
        )

  pub parse_distributed_util-Loaded :
      (util : E) (c c' : FibpConfig)
      → Runs (parse_distributed_util xml int64_of util) c c'
      → UtilLoaded util c.distributed_util c'.distributed_util
        × (c' ≡ in_util (λ u. c'.distributed_util) c)
  unfolding parse_distributed_util
  parse_distributed_util-Loaded util c c' h =
      let (c2, h2, r3) = >>-Runs _ _ c c' h in
      let (c1, r1, r2) = >>-Runs _ _ c c2 h2 in
      let (zk, u1, r1') = with_unique_child-Runs xml util _ _ c c1 r1 in
      let (l1, q1) = read_zk-Loaded zk c c1 r1' in
      let (dfs, u3, r3') = with_unique_child-Runs xml util _ _ c2 c' r3 in
      let (l3, q3) = read_dfs-Loaded dfs c2 c' r3' in
      util_steps-Loaded util zk dfs c c1 c2 c' _ _ u1 l1 q1
        (read_child-Runs xml util _ _ _ c1 c2 r2) u3 l3 q3
