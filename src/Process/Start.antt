-- ===== src/Process/Start.antt =====
-- source/process/FibpServerProcess.cpp and FibpServerMain.cpp: from the command line to the servers.
-- The servers and the singletons are seen through the calls that are made of them, with the arguments
-- as the called functions receive them.
use fiberproxy.Prelude.{
  ℕ, ◌+◌, ◌%◌, ◌^◌, Bool, true, false, ◌&&◌, not, List, [], ◌∷◌, ◌++◌, Option, none, some, Bytes,
  codes, if◌then◌else◌, take, drop, is_empty,
}
use fiberproxy.Transaction.{find}
use fiberproxy.Config.{Xml, FibpConfig}
use fiberproxy.Config.File.{Outcome, returned, threw, terminated, Files, parse_config_file}
use fiberproxy.Process.Options.{ProcessOptions, new_options, VariableMap, set_process_args}

pub data Call : Type 0 where
  -- initializeDriverRouter
  map_router : Bool → Call
  -- the ports and the threads of FiberDriverServerV2, FiberHttpServerV2 and FibpRpcServer
  driver_server : ℕ → ℕ → Call
  http_server : ℕ → ℕ → Call
  rpc_server : ℕ → ℕ → Call
  -- FibpForwardManager::init: the registry, the local address, the report server, the threads
  init_forward_manager : Bytes → Bytes → ℕ → Bytes → Bytes → ℕ → Call
  -- addExitHook of stopConnectionServer
  add_stop_hook : Call
  -- FibpLogger::init
  init_logger : Bytes → Bytes → Bytes → Call

abbrev pub registry_servers : ProcessOptions → FibpConfig → Bytes
registry_servers o c =
    if is_empty o.registry_addr then c.distributed_util.dns_servers else o.registry_addr

-- An endpoint and FibpRpcServer take a port of 16 bits, after the sum of unsigned ints.
abbrev pub port_plus : FibpConfig → ℕ → ℕ
port_plus c n = (c.broker_agent.port + n) % 2 ^ 32 % 2 ^ 16

abbrev pub listen_calls : FibpConfig → List Call
listen_calls c =
    map_router c.broker_agent.enable_test
    ∷ driver_server (port_plus c 0) c.broker_agent.thread_num
    ∷ http_server (port_plus c 1) c.broker_agent.thread_num
    ∷ []

-- from the place of the colon in the report address on
abbrev pub after_report : ProcessOptions → FibpConfig → Option ℕ → Bool × List Call
after_report o c none = (false, listen_calls c)
after_report o c (some pos) = (
  true,
  listen_calls c
      ++ (init_forward_manager (registry_servers o c) c.distributed_common.local_host
            (port_plus c 0) (take pos o.report_addr) (drop (pos + 1) o.report_addr)
            c.broker_agent.thread_num
          ∷ rpc_server (port_plus c 2) (c.broker_agent.thread_num % 2 ^ 32)
          ∷ add_stop_hook
          ∷ []),
)

unfoldable pub init_connection_server : ProcessOptions → FibpConfig → Bool × List Call
init_connection_server o c = after_report o c (find o.report_addr (codes ":") 0)

unfoldable pub init_log_manager : FibpConfig → Bool × List Call
init_log_manager c =
    (true, init_logger c.log_server.host c.log_server.port c.log_server.log_service ∷ [])

-- initialize: it returns, lets an XmlConfigParserException through, or the program is ended.
abbrev pub init_log : FibpConfig → List Call → Outcome × FibpConfig × List Call
init_log c calls = let (ok, more) = init_log_manager c in (returned ok, c, calls ++ more)

abbrev pub init_servers : FibpConfig → Bool × List Call → Outcome × FibpConfig × List Call
init_servers c (false, calls) = (returned false, c, calls)
init_servers c (true, calls) = init_log c calls

abbrev pub after_config : ProcessOptions → Outcome × FibpConfig → Outcome × FibpConfig × List Call
after_config o (returned true, c) = init_servers c (init_connection_server o c)
after_config o (returned false, c) = (returned false, c, [])
after_config o (threw msg, c) = (threw msg, c, [])
after_config o (terminated, c) = (terminated, c, [])

pub data Exit : Type 0 where
  exit_code : ℕ → Exit
  aborted : Exit

-- what the process asks of the system: exists and is_directory, which are taken not to throw, the path of config.xml, whether the
-- pid file could be written, and whether an exception left the servers
pub record System : Type 0 where
  pub is_directory : Bytes → Bool
  pub config_path : Bytes → Bytes
  pub save_pid : Bytes → Bool
  pub servers_throw : List Call → Bool

module _ {E : Type 0} (xml : Xml E) (int64_of : Bytes → Option ℕ)
    (local_host_ip : Bytes → Bytes → Bool × Bytes) where
  module _ (files : Files E) (sys : System) where
    unfoldable pub initialize :
        Bytes → ProcessOptions → FibpConfig → Outcome × FibpConfig × List Call
    initialize dir o c =
        if not (sys.is_directory dir)
        then (returned false, c, [])
        else after_config o
            (parse_config_file xml int64_of local_host_ip files (sys.config_path dir) c)

    -- run
    unfoldable pub run_servers : List Call → ℕ
    run_servers calls = if sys.servers_throw calls then 1 else 0

    abbrev pub after_initialize : Outcome × FibpConfig × List Call → Exit × FibpConfig × List Call
    after_initialize (returned true, c, calls) = (exit_code (run_servers calls), c, calls)
    after_initialize (returned false, c, calls) = (exit_code 1, c, calls)
    after_initialize (threw msg, c, calls) = (exit_code 1, c, calls)
    after_initialize (terminated, c, calls) = (aborted, c, calls)

    -- the block of the if in main; savePid ends the process itself
    abbrev pub with_options : Bool × ProcessOptions → FibpConfig → Exit × FibpConfig × List Call
    with_options (false, o) c = (exit_code 1, c, [])
    with_options (true, o) c =
        if not (is_empty o.pid_file) && not (sys.save_pid o.pid_file)
        then (exit_code 1, c, [])
        else after_initialize (initialize o.config_file_dir o c)

    unfoldable pub main_run :
        (List Bytes → Option VariableMap) → List Bytes → FibpConfig → Exit × FibpConfig × List Call
    main_run read args c = with_options (set_process_args read args new_options) c
