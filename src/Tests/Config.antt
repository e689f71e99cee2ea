-- ===== src/Tests/Config.antt =====
-- A whole configuration file, and the start of the program with it.
use fiberproxy.Prelude.{
  ℕ, ◌+◌, ◌-◌, ◌*◌, Bool, true, false, ◌&&◌, List, [], ◌∷◌, Option, none, some, Bytes, codes, ◌≡◌,
  refl, inr, lookup, lookup_or, bytes_key, nat_key, bytes_eq, if◌then◌else◌, leb,
}
use fiberproxy.Config.{Xml, FibpConfig}
use fiberproxy.Config.Attributes.{
  down_case, parse_truth, with_unique_child, get_attribute, read_string, read_with, read_bool,
  read_uint, to_bool, to_uint, ◌>>◌,
}
use fiberproxy.Config.Settings.{
  parse_settings, parse_system_settings, parse_deployment_settings, parse_broker_agent,
  parse_distributed_common, parse_distributed_util, parse_local_host, read_zk, read_dfs,
}
use fiberproxy.Config.File.{Files, returned, parse_config_file}
use fiberproxy.Config.Explained.{Explained, parse_config_file-Explained}

-- elements by number, with the names and numbers of their children
abbrev pub test_children : List (ℕ × List (Bytes × ℕ))
test_children =
    (0, (codes "System", 1) ∷ (codes "Deployment", 2) ∷ [])
    ∷ (1, (codes "Resource", 3) ∷ (codes "WorkingDir", 4) ∷ (codes "LogServerConnection", 5) ∷ [])
    ∷ (
      2,
      (codes "BrokerAgent", 6) ∷ (codes "DistributedCommon", 7) ∷ (codes "DistributedUtil", 8) ∷ [],
    )
    ∷ (8, (codes "ZooKeeper", 9) ∷ (codes "ServiceDiscovery", 10) ∷ (codes "DFS", 11) ∷ [])
    ∷ []

abbrev pub test_attributes : List (ℕ × List (Bytes × Bytes))
test_attributes =
    (3, (codes "path", codes "/r") ∷ [])
    ∷ (4, (codes "path", codes "/w") ∷ [])
    ∷ (
      5,
      (codes "host", codes "log")
          ∷ (codes "port", codes "7000")
          ∷ (codes "log_service", codes "ls")
          ∷ (codes "log_tag", codes "dev")
          ∷ [],
    )
    ∷ (
      6,
      (codes "enabletest", codes "Y")
          ∷ (codes "threadnum", codes "4")
          ∷ (codes "port", codes "18281")
          ∷ [],
    )
    ∷ (
      7,
      (codes "username", codes "u")
          ∷ (codes "workerport", codes "18251")
          ∷ (codes "masterport", codes "18231")
          ∷ (codes "localinterface", codes "eth0")
          ∷ (codes "localhost", codes "10.0.0.1")
          ∷ [],
    )
    ∷ (
      9,
      (codes "disable", codes "yes")
          ∷ (codes "servers", codes "zk:2181")
          ∷ (codes "sessiontimeout", codes "5000")
          ∷ [],
    )
    ∷ (10, (codes "servers", codes "consul:8500") ∷ [])
    ∷ (
      11,
      (codes "type", codes "hdfs")
          ∷ (codes "supportfuse", codes "n")
          ∷ (codes "port", codes "9000")
          ∷ [],
    )
    ∷ []

abbrev pub test_xml : Xml ℕ
test_xml = record {
  tag = λ e. codes "element";
  first_child = λ e name. lookup name (lookup_or e [] test_children);
  next_sibling = λ e name. none;
  attribute = λ e name. lookup_or name [] (lookup_or e [] test_attributes);
}

-- numbers without a sign
abbrev pub test_digits : Bytes → ℕ → Option ℕ
test_digits [] n = some n
test_digits (c ∷ s) n =
    let rest = test_digits s (n * 10 + (c - 48)) in if leb 48 c && leb c 57 then rest else none

abbrev pub test_int64 : Bytes → Option ℕ
test_int64 [] = none
test_int64 (c ∷ s) = test_digits (c ∷ s) 0

abbrev pub test_host_ip : Bytes → Bytes → Bool × Bytes
test_host_ip interface old = (false, old)

abbrev pub test_files : Files ℕ
test_files = record {
  exists = λ f. some true;
  schema_path = λ f. codes "schema/config.xsd";
  validate = λ s f. true;
  load = λ f. inr (some 0);
}

abbrev pub no_config : FibpConfig
no_config = record {
  resource_dir = [];
  working_dir = [];
  log_server = record { host = codes "localhost"; port = []; log_service = []; log_tag = [] };
  broker_agent = record { thread_num = 0; enable_test = false; port = 0 };
  distributed_common = record {
    user_name = [];
    local_host = [];
    ba_port = 0;
    worker_port = 0;
    master_port = 0;
  };
  distributed_util = record {
    zk_config = record { disabled = false; zk_hosts = []; zk_recv_timeout = 0 };
    dfs_config = record {
      type_name = [];
      is_support_fuse = true;
      mount_dir = [];
      server = [];
      port = 0;
    };
    dns_servers = [];
  };
}

abbrev pub test_config : FibpConfig
test_config = record {
  resource_dir = codes "/r";
  working_dir = codes "/w";
  log_server = record {
    host = codes "log";
    port = codes "7000";
    log_service = codes "ls";
    log_tag = codes "dev";
  };
  broker_agent = record { thread_num = 4; enable_test = true; port = 18281 };
  distributed_common = record {
    user_name = codes "u";
    local_host = codes "10.0.0.1";
    ba_port = 18281;
    worker_port = 18251;
    master_port = 18231;
  };
  distributed_util = record {
    zk_config = record { disabled = true; zk_hosts = codes "zk:2181"; zk_recv_timeout = 5000 };
    dfs_config = record {
      type_name = codes "hdfs";
      is_support_fuse = false;
      mount_dir = [];
      server = [];
      port = 9000;
    };
    dns_servers = codes "consul:8500";
  };
}

pub test_read :
    parse_config_file test_xml test_int64 test_host_ip test_files (codes "config.xml") no_config
    ≡ (returned true, test_config)
unfolding parse_config_file parse_settings parse_system_settings parse_deployment_settings
    parse_broker_agent parse_distributed_common parse_distributed_util parse_local_host read_zk
    read_dfs with_unique_child get_attribute read_string read_with read_bool read_uint to_bool
    to_uint ◌>>◌ parse_truth down_case lookup bytes_eq
test_read = refl

parse_config_file-Explained_example :
    Explained test_xml test_int64 test_host_ip test_files
      (codes "config.xml")
      no_config
      (parse_config_file test_xml test_int64 test_host_ip test_files (codes "config.xml") no_config)
parse_config_file-Explained_example =
    parse_config_file-Explained test_xml test_int64 test_host_ip test_files (codes "config.xml")
      no_config
