-- ===== src/Process/Registry.antt =====
-- Where the address of the service registry comes from: the command line and its default, never the
-- configuration file.
use fiberproxy.Prelude.{
  ℕ, Bool, true, false, ◌||◌, List, [], ◌∷◌, Option, none, some, Bytes, codes, bind, ◌≡◌, refl, ◌≢◌,
  if◌then◌else◌, lookup, bytes_key, bytes_eq, contains, is_empty, arith,
}
use fiberproxy.Transaction.{find}
use fiberproxy.Config.{FibpConfig}
use fiberproxy.Config.Settings.{in_util}
use fiberproxy.Process.Options.{
  ProcessOptions, VariableMap, string_options, validate_string, starts_with_hyphen, value_or,
  set_process_options, shows_usage, process_args, set_process_args,
}
use fiberproxy.Process.Start.{registry_servers, after_report, init_connection_server}

validate_string-not_empty :
    (single : List Bytes → Option Bytes) (values : List Bytes) (text : Bytes)
    → validate_string single true values ≡ some text
    → text ≢ []
unfolding validate_string
validate_string-not_empty single values text h = go (single values) h
  where
    go :
        (o : Option Bytes)
        → bind o (λ value. if is_empty value || starts_with_hyphen value then none else some value)
          ≡ some text
        → text ≢ []
    go none h = cc
    go (some []) h = cc
    go (some (c ∷ s)) h = ground arith

registry_addr_known : contains (codes "registryAddr") string_options ≡ true
unfolding contains bytes_eq
registry_addr_known = refl

process_args-accepted :
    (vm : VariableMap) (o o' : ProcessOptions)
    → process_args (some vm) o ≡ (true, o')
    → o' ≡ set_process_options vm o
process_args-accepted vm o o' h = go (shows_usage vm) h
  where
    go :
        (b : Bool)
        → (let r : Bool × ProcessOptions =
              (if b then (false, o) else (true, set_process_options vm o)) in
            r ≡ (true, o'))
        → o' ≡ set_process_options vm o
    go true h = cc
    go false h = cc

-- Each value of a string option has passed `validate`, as boost::program_options has it.
module _ (single : List Bytes → Option Bytes) (read : List Bytes → Option VariableMap)
    (args : List Bytes)
    (valid : (vm : VariableMap) (name text : Bytes)
      → read args ≡ some vm
      → contains name string_options ≡ true
      → lookup name vm ≡ some text
      → (values : List Bytes) × (validate_string single true values ≡ some text)) where
  -- The command line that is accepted leaves an address of the registry.
  pub set_process_args-registry_addr :
      (o o' : ProcessOptions) → set_process_args read args o ≡ (true, o') → o'.registry_addr ≢ []
  unfolding set_process_args set_process_options
  set_process_args-registry_addr o o' h = go (read args) refl h
    where
      go_value :
          (vm : VariableMap) (v : Option Bytes)
          → read args ≡ some vm
          → lookup (codes "registryAddr") vm ≡ v
          → value_or (codes "127.0.0.1:8500") v ≢ []
      go_value vm none p q = λ e. cc
      go_value vm (some text) p q =
          let (values, r) = valid vm _ text p registry_addr_known q in
          validate_string-not_empty single values text r

      go :
          (r : Option VariableMap)
          → read args ≡ r
          → process_args r o ≡ (true, o')
          → o'.registry_addr ≢ []
      go none p e = cc
      go (some vm) p e = rw (process_args-accepted vm o o' e) (go_value vm _ p refl)

abbrev pub with_dns_servers : Bytes → FibpConfig → FibpConfig
with_dns_servers servers = in_util (λ u. record u { dns_servers = servers })

registry_servers-with_dns_servers :
    (o : ProcessOptions) (c : FibpConfig) (servers : Bytes)
    → o.registry_addr ≢ []
    → registry_servers o (with_dns_servers servers c) ≡ registry_servers o c
registry_servers-with_dns_servers o c servers h = go o.registry_addr h
  where
    go :
        (addr : Bytes)
        → addr ≢ []
        → (if is_empty addr then servers else addr)
          ≡ (if is_empty addr then c.distributed_util.dns_servers else addr)
    go [] h = absurd (h refl)
    go (x ∷ addr) h = refl

pub init_connection_server-with_dns_servers :
    (o : ProcessOptions) (c : FibpConfig) (servers : Bytes)
    → o.registry_addr ≢ []
    → init_connection_server o (with_dns_servers servers c) ≡ init_connection_server o c
unfolding init_connection_server
init_connection_server-with_dns_servers o c servers h = go (find o.report_addr (codes ":") 0)
  where
    go : (r : Option ℕ) → after_report o (with_dns_servers servers c) r ≡ after_report o c r
    go none = refl
    go (some pos) = simp (registry_servers-with_dns_servers o c servers h)

-- What the configuration file gives for the registry is never used.
module _ (single : List Bytes → Option Bytes) (read : List Bytes → Option VariableMap)
    (args : List Bytes)
    (valid : (vm : VariableMap) (name text : Bytes)
      → read args ≡ some vm
      → contains name string_options ≡ true
      → lookup name vm ≡ some text
      → (values : List Bytes) × (validate_string single true values ≡ some text)) where
  -- Provided each value of an option has passed validate: whatever command line is accepted, the
  -- servers are set up in the same way for any address of the registry in the configuration file.
  pub init_connection_server-set_process_args :
      (o o' : ProcessOptions) (c : FibpConfig) (servers : Bytes)
      → set_process_args read args o ≡ (true, o')
      → init_connection_server o' (with_dns_servers servers c) ≡ init_connection_server o' c
  init_connection_server-set_process_args o o' c servers h =
      init_connection_server-with_dns_servers o' c servers
        (set_process_args-registry_addr single read args valid o o' h)
