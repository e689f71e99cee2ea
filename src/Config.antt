-- ===== src/Config.antt =====
-- source/process/common/XmlConfigParser.{h,cpp} and the structs of source/core/configuration-manager:
-- the configuration file. The elements of ticpp are a parameter; an exception is a value, and the
-- members that were assigned before it keep what they were given.
pub mod Attributes
pub mod Settings
pub mod File
pub mod Runs
pub mod System
pub mod Agent
pub mod Util
pub mod Common
pub mod Loaded
pub mod Faults
pub mod Comma
pub mod Words
pub mod Explained
use fiberproxy.Prelude.{ℕ, Bool, List, [], ◌∷◌, ◌++◌, Option, none, some, Bytes, codes}

-- What the code asks of an element of ticpp. The attribute is empty where there is none.
pub record Xml (E : Type 0) : Type 0 where
  -- Value(), the name of the tag
  pub tag : E → Bytes
  -- FirstChildElement(name, false) and NextSibling(name, false)
  pub first_child : E → Bytes → Option E
  pub next_sibling : E → Bytes → Option E
  -- GetAttribute(name)
  pub attribute : E → Bytes → Bytes

-- What the parsing throws: an XmlConfigParserException, by the call that made its text, or the
-- bad_lexical_cast of a text that is no integer.
pub data Fault (E : Type 0) : Type 0 where
  no_element : Bytes → Fault E
  multiple_element : Bytes → Fault E
  no_attribute : E → Bytes → Fault E
  type_mismatch : E → Bytes → Bytes → Fault E
  bad_cast : Bytes → Fault E

pub record LogServerConnectionConfig : Type 0 where
  pub host : Bytes
  pub port : Bytes
  pub log_service : Bytes
  pub log_tag : Bytes

pub record BrokerAgentConfig : Type 0 where
  pub thread_num : ℕ
  pub enable_test : Bool
  pub port : ℕ

pub record DistributedCommonConfig : Type 0 where
  pub user_name : Bytes
  pub local_host : Bytes
  pub ba_port : ℕ
  pub worker_port : ℕ
  pub master_port : ℕ

pub record ZooKeeperConfig : Type 0 where
  pub disabled : Bool
  pub zk_hosts : Bytes
  pub zk_recv_timeout : ℕ

pub record DfsConfig : Type 0 where
  pub type_name : Bytes
  pub is_support_fuse : Bool
  pub mount_dir : Bytes
  pub server : Bytes
  pub port : ℕ

pub record DistributedUtilConfig : Type 0 where
  pub zk_config : ZooKeeperConfig
  pub dfs_config : DfsConfig
  pub dns_servers : Bytes

pub record FibpConfig : Type 0 where
  pub resource_dir : Bytes
  pub working_dir : Bytes
  pub log_server : LogServerConnectionConfig
  pub broker_agent : BrokerAgentConfig
  pub distributed_common : DistributedCommonConfig
  pub distributed_util : DistributedUtilConfig

-- The text of an XmlConfigParserException; a bad_lexical_cast is another exception.
unfoldable pub message : {E : Type 0} → Xml E → Fault E → Option Bytes
message xml (no_element name) =
    some (codes "Definitions of element <" ++ name ++ codes "> is missing")
message xml (multiple_element name) =
    some (codes "Multiple definitions of <" ++ name ++ codes "> element")
message xml (no_attribute e name) =
    some (codes "<" ++ xml.tag e ++ codes ">, requires attribute \"" ++ name ++ codes "\"")
message xml (type_mismatch e name text) = some (
    codes "<"
    ++ xml.tag e
    ++ codes ">, wrong data type is given for attribute \""
    ++ name
    ++ codes "\""
    ++ value_part text)
  where
    value_part : Bytes → Bytes
    value_part [] = []
    value_part (c ∷ s) = codes " value: " ++ (c ∷ s)
message xml (bad_cast text) = none
