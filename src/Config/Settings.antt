-- ===== src/Config/Settings.antt =====
-- FibpConfig: the settings that are read from the elements of the configuration file, in the order
-- of the code. `local_host_ip` is net::distribute::Util::getLocalHostIp, by the interface and the
-- value of the member before.
use fiberproxy.Prelude.{ℕ, Bool, true, false, Option, none, some, Bytes, codes}
use fiberproxy.Config.{
  Xml, Fault, FibpConfig, LogServerConnectionConfig, BrokerAgentConfig, DistributedCommonConfig,
  DistributedUtilConfig, ZooKeeperConfig, DfsConfig,
}
use fiberproxy.Config.Attributes.{
  Action, ◌>>◌, with_unique_child, read_string, read_bool, read_uint, get_attribute,
}

-- the members of a member
abbrev pub in_log_server :
    (LogServerConnectionConfig → LogServerConnectionConfig) → FibpConfig → FibpConfig
in_log_server f c = record c { log_server = f c.log_server }

abbrev pub in_broker_agent : (BrokerAgentConfig → BrokerAgentConfig) → FibpConfig → FibpConfig
in_broker_agent f c = record c { broker_agent = f c.broker_agent }

abbrev pub in_common : (DistributedCommonConfig → DistributedCommonConfig) → FibpConfig → FibpConfig
in_common f c = record c { distributed_common = f c.distributed_common }

abbrev pub put_local_host : Bytes → FibpConfig → FibpConfig
put_local_host ip = in_common (λ d. record d { local_host = ip })

abbrev pub take_ba_port : FibpConfig → FibpConfig
take_ba_port c = in_common (λ d. record d { ba_port = c.broker_agent.port }) c

abbrev pub in_util : (DistributedUtilConfig → DistributedUtilConfig) → FibpConfig → FibpConfig
in_util f c = record c { distributed_util = f c.distributed_util }

abbrev pub in_zk : (ZooKeeperConfig → ZooKeeperConfig) → FibpConfig → FibpConfig
in_zk f = in_util (λ u. record u { zk_config = f u.zk_config })

abbrev pub in_dfs : (DfsConfig → DfsConfig) → FibpConfig → FibpConfig
in_dfs f = in_util (λ u. record u { dfs_config = f u.dfs_config })

module _ {E : Type 0} (xml : Xml E) where
  abbrev pub log_setting :
      E → Bytes → (Bytes → LogServerConnectionConfig → LogServerConnectionConfig) → Action E
  log_setting system name put =
      with_unique_child xml system (codes "LogServerConnection")
        (λ e. read_string xml e name true (λ v. in_log_server (put v)))

  unfoldable pub parse_system_settings : E → Action E
  parse_system_settings system =
      with_unique_child xml system (codes "Resource")
        (λ e. read_string xml e (codes "path") true (λ v c. record c { resource_dir = v }))
      >> with_unique_child xml system (codes "WorkingDir")
          (λ e. read_string xml e (codes "path") true (λ v c. record c { working_dir = v }))
      >> log_setting system (codes "host") (λ v l. record l { host = v })
      >> log_setting system (codes "port") (λ v l. record l { port = v })
      >> log_setting system (codes "log_service") (λ v l. record l { log_service = v })
      >> log_setting system (codes "log_tag") (λ v l. record l { log_tag = v })

  module _ (int64_of : Bytes → Option ℕ) where
    unfoldable pub parse_broker_agent : E → Action E
    parse_broker_agent e =
        read_bool xml e (codes "enabletest") false
          (λ v. in_broker_agent (λ b. record b { enable_test = v }))
        >> read_uint xml int64_of 64 e (codes "threadnum") false
            (λ v. in_broker_agent (λ b. record b { thread_num = v }))
        >> read_uint xml int64_of 32 e (codes "port") false
            (λ v. in_broker_agent (λ b. record b { port = v }))

    -- the statements over the element ZooKeeper
    unfoldable pub read_zk : E → Action E
    read_zk zk =
        read_bool xml zk (codes "disable") true (λ v. in_zk (λ z. record z { disabled = v }))
        >> read_string xml zk (codes "servers") true (λ v. in_zk (λ z. record z { zk_hosts = v }))
        >> read_uint xml int64_of 32 zk (codes "sessiontimeout") true
            (λ v. in_zk (λ z. record z { zk_recv_timeout = v }))

    -- and over the element DFS
    unfoldable pub read_dfs : E → Action E
    read_dfs dfs =
        read_string xml dfs (codes "type") false (λ v. in_dfs (λ d. record d { type_name = v }))
        >> read_bool xml dfs (codes "supportfuse") false
            (λ v. in_dfs (λ d. record d { is_support_fuse = v }))
        >> read_string xml dfs (codes "mountdir") false
            (λ v. in_dfs (λ d. record d { mount_dir = v }))
        >> read_string xml dfs (codes "server") false (λ v. in_dfs (λ d. record d { server = v }))
        >> read_uint xml int64_of 32 dfs (codes "port") false
            (λ v. in_dfs (λ d. record d { port = v }))

    unfoldable pub parse_distributed_util : E → Action E
    parse_distributed_util util =
        with_unique_child xml util (codes "ZooKeeper") read_zk
        >> with_unique_child xml util (codes "ServiceDiscovery") (λ dns.
          read_string xml dns (codes "servers") true
            (λ v. in_util (λ u. record u { dns_servers = v })))
        >> with_unique_child xml util (codes "DFS") read_dfs

    -- the address that is detected, or the attribute where none is; the member has been assigned
    abbrev pub use_local_host : E → Bool × Bytes → Action E
    use_local_host e (true, ip) c = (none, put_local_host ip c)
    use_local_host e (false, ip) c =
        read_string xml e (codes "localhost") true put_local_host (put_local_host ip c)

    module _ (local_host_ip : Bytes → Bytes → Bool × Bytes) where
      -- from the interface on, which is a variable of the function
      abbrev pub use_interface : E → Option (Fault E) × Bytes × Bool → Action E
      use_interface e (some f, interface, found) c = (some f, c)
      use_interface e (none, interface, found) c =
          use_local_host e (local_host_ip interface c.distributed_common.local_host)
            (take_ba_port c)

      unfoldable pub parse_local_host : E → Action E
      parse_local_host e = use_interface e (get_attribute xml e (codes "localinterface") true)

      unfoldable pub parse_distributed_common : E → Action E
      parse_distributed_common e =
          read_string xml e (codes "username") true
            (λ v. in_common (λ d. record d { user_name = v }))
          >> read_uint xml int64_of 32 e (codes "workerport") true
              (λ v. in_common (λ d. record d { worker_port = v }))
          >> read_uint xml int64_of 32 e (codes "masterport") true
              (λ v. in_common (λ d. record d { master_port = v }))
          >> parse_local_host e

      unfoldable pub parse_deployment_settings : E → Action E
      parse_deployment_settings deploy =
          with_unique_child xml deploy (codes "BrokerAgent") parse_broker_agent
          >> with_unique_child xml deploy (codes "DistributedCommon") parse_distributed_common
          >> with_unique_child xml deploy (codes "DistributedUtil") parse_distributed_util

      -- what parseConfigFile does with the element FibpConfig
      unfoldable pub parse_settings : E → Action E
      parse_settings config =
          with_unique_child xml config (codes "System") parse_system_settings
          >> with_unique_child xml config (codes "Deployment") parse_deployment_settings
