-- ===== src/Process/Ports.antt =====
-- The ports at which the servers listen.
use fiberproxy.Prelude.{
  ℕ, ◌+◌, ◌%◌, ◌^◌, true, List, [], ◌∷◌, Option, none, some, ◌≡◌, refl, ap, ◌≢◌, arith,
}
use fiberproxy.Config.{FibpConfig}
use fiberproxy.Process.Options.{ProcessOptions}
use fiberproxy.Process.Start.{
  Call, map_router, driver_server, http_server, rpc_server, init_forward_manager, add_stop_hook,
  init_logger, port_plus, after_report, init_connection_server,
}

abbrev pub listening : List Call → List ℕ
listening [] = []
listening (map_router t ∷ calls) = listening calls
listening (driver_server p n ∷ calls) = p ∷ listening calls
listening (http_server p n ∷ calls) = p ∷ listening calls
listening (rpc_server p n ∷ calls) = p ∷ listening calls
listening (init_forward_manager d l p i r n ∷ calls) = listening calls
listening (add_stop_hook ∷ calls) = listening calls
listening (init_logger h p s ∷ calls) = listening calls

abbrev pub Differ : ℕ → ℕ → ℕ → Type 0
Differ p q r = (p ≢ q) × (q ≢ r) × (p ≢ r)

port_plus-Differ : (c : FibpConfig) → Differ (port_plus c 0) (port_plus c 1) (port_plus c 2)
port_plus-Differ c = (λ e. omega arith, λ e. omega arith, λ e. omega arith)

port_plus-mod : (c : FibpConfig) (n : ℕ) → port_plus c n ≡ (c.broker_agent.port + n) % 2 ^ 16
port_plus-mod c n = omega arith

after_report-listening :
    (o : ProcessOptions) (c : FibpConfig) (r : Option ℕ) (calls : List Call)
    → after_report o c r ≡ (true, calls)
    → listening calls ≡ port_plus c 0 ∷ port_plus c 1 ∷ port_plus c 2 ∷ []
after_report-listening o c none calls h = cc
after_report-listening o c (some pos) calls h = rw⁻¹ (ap (λ r. r.1) h) refl

-- The servers that are set up listen at three different ports: the port of the broker agent and the
-- two behind it, modulo 65536.
pub init_connection_server-listening :
    (o : ProcessOptions) (c : FibpConfig) (calls : List Call)
    → init_connection_server o c ≡ (true, calls)
    → (p : ℕ) × (q : ℕ) × (r : ℕ) × (listening calls ≡ p ∷ q ∷ r ∷ [])
      × Differ p q r
      × (p ≡ c.broker_agent.port % 2 ^ 16)
      × (q ≡ (c.broker_agent.port + 1) % 2 ^ 16)
      × (r ≡ (c.broker_agent.port + 2) % 2 ^ 16)
unfolding init_connection_server
init_connection_server-listening o c calls h = (
  port_plus c 0,
  port_plus c 1,
  port_plus c 2,
  after_report-listening o c _ calls h,
  port_plus-Differ c,
  omega arith,
  port_plus-mod c 1,
  port_plus-mod c 2,
)
