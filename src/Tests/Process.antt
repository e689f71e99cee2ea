-- ===== src/Tests/Process.antt =====
-- The start of the program at the command line `-F conf`, and its signals.
use fiberproxy.Prelude.{
  ℕ, Bool, true, false, List, [], ◌∷◌, ◌++◌, Option, none, some, Bytes, codes, ◌≡◌, refl, lookup,
  bytes_key, bytes_eq, contains, if◌then◌else◌, subst, sym, ◌==◌,
}
use fiberproxy.Transaction.{find, find_list, is_prefix}
use fiberproxy.Process.Options.{
  ProcessOptions, new_options, VariableMap, string_options, validate_string, set_process_options,
  shows_usage, set_process_args,
}
use fiberproxy.Process.Signals.{
  add_hook, signal, new_signals, is_interrupt, run_events, sigpipe, sigterm, sighup,
}
use fiberproxy.Process.Start.{
  Call, System, exit_code, init_connection_server, init_log_manager, initialize, run_servers,
  main_run,
}
use fiberproxy.Process.Registry.{with_dns_servers, init_connection_server-set_process_args}
use fiberproxy.Process.Hooks.{run_events-until_throw}
use fiberproxy.Tests.Config.{
  test_xml, test_int64, test_host_ip, test_files, no_config, test_config, test_read,
}

abbrev test_args : List Bytes
test_args = codes "-F" ∷ codes "conf" ∷ []

abbrev test_vm : VariableMap
test_vm = (codes "config-directory", codes "conf") ∷ []

abbrev test_variables : List Bytes → Option VariableMap
test_variables args = some test_vm

abbrev one_value : List Bytes → Option Bytes
one_value (s ∷ []) = some s
one_value other = none

abbrev test_options : ProcessOptions
test_options = record {
  config_file_dir = codes "conf";
  config_file = [];
  is_verbose_on = false;
  log_prefix = [];
  pid_file = [];
  report_addr = codes "127.0.0.1:18001";
  registry_addr = codes "127.0.0.1:8500";
}

test_accepted : set_process_args test_variables test_args new_options ≡ (true, test_options)
unfolding set_process_args set_process_options shows_usage lookup bytes_eq
test_accepted = refl

conf_passes : validate_string one_value true (codes "conf" ∷ []) ≡ some (codes "conf")
unfolding validate_string
conf_passes = refl

some_injective : (a b : VariableMap) → (some a ≡ some b) → a ≡ b
some_injective a b h = cc

test_valid :
    (vm : VariableMap) (name text : Bytes)
    → test_variables test_args ≡ some vm
    → contains name string_options ≡ true
    → lookup name vm ≡ some text
    → (values : List Bytes) × (validate_string one_value true values ≡ some text)
unfolding lookup
test_valid vm name text e k h =
    (codes "conf" ∷ [], rw (go (bytes_eq (codes "config-directory") name) looked_up) conf_passes)
  where
    looked_up : lookup name test_vm ≡ some text
    looked_up = subst (λ m. lookup name m ≡ some text) (some_injective _ _ (sym e)) h

    go :
        (b : Bool)
        → (let r : Option Bytes = (if b then some (codes "conf") else none) in r ≡ some text)
        → text ≡ codes "conf"
    go true e = cc
    go false e = cc

init_connection_server-set_process_args_example :
    init_connection_server test_options (with_dns_servers (codes "other:8500") test_config)
    ≡ init_connection_server test_options test_config
init_connection_server-set_process_args_example =
    init_connection_server-set_process_args one_value test_variables test_args test_valid
      new_options test_options test_config (codes "other:8500") test_accepted

abbrev test_calls : List Call
test_calls = (init_connection_server test_options test_config).1

test_set_up : init_connection_server test_options test_config ≡ (true, test_calls)
unfolding init_connection_server find find_list is_prefix
test_set_up = refl

-- Hook 1 is added, a broken pipe is ignored, hook 2 throws, and hook 3 comes too late.
abbrev second_throws : ℕ → ℕ → Bool
second_throws h sig = h == 2

pipe_ignored : is_interrupt sigpipe ≡ false
unfolding is_interrupt
pipe_ignored = refl

term_interrupts : is_interrupt sigterm ≡ true
unfolding is_interrupt
term_interrupts = refl

run_events-until_throw_example :
    (run_events second_throws
      (add_hook 1 ∷ signal sigpipe ∷ add_hook 2 ∷ signal sigterm ∷ add_hook 3 ∷ signal sighup ∷ [])
      new_signals).ran
    ≡ (1, sigterm) ∷ (2, sigterm) ∷ []
run_events-until_throw_example =
    run_events-until_throw second_throws (add_hook 1 ∷ signal sigpipe ∷ add_hook 2 ∷ [])
      (add_hook 3 ∷ signal sighup ∷ []) sigterm (pipe_ignored, tt) term_interrupts

abbrev test_system : System
test_system = record {
  is_directory = λ d. bytes_eq d (codes "conf");
  config_path = λ d. codes "config.xml";
  save_pid = λ f. false;
  servers_throw = λ calls. false;
}

test_main :
    main_run test_xml test_int64 test_host_ip test_files test_system test_variables test_args
      no_config
    ≡ (exit_code 0, test_config, test_calls ++ (init_log_manager test_config).1)
unfolding main_run initialize run_servers init_log_manager bytes_eq
test_main = rw (test_accepted, test_read, test_set_up) refl
