-- ===== src/Config/Agent.antt =====
-- FibpConfig::parseBrokerAgent: what it has read when it throws nothing.
use fiberproxy.Prelude.{ℕ, Bool, false, Option, Bytes, codes, ◌≡◌, refl}
use fiberproxy.Config.{Xml, FibpConfig, BrokerAgentConfig}
use fiberproxy.Config.Settings.{in_broker_agent, parse_broker_agent}
use fiberproxy.Config.Runs.{Runs, >>-Runs, HoldsBool, HoldsUint, read_bool-Runs, read_uint-Runs}

module _ {E : Type 0} (xml : Xml E) (int64_of : Bytes → Option ℕ) where
  -- The attributes are optional: a member keeps its value where its attribute is empty.
  pub record AgentLoaded (e : E) (old new : BrokerAgentConfig) : Type 0 where
    pub enable_test_read :
        HoldsBool (xml.attribute e (codes "enabletest")) old.enable_test new.enable_test
    pub thread_num_read :
        HoldsUint int64_of 64 (xml.attribute e (codes "threadnum")) old.thread_num new.thread_num
    pub port_read : HoldsUint int64_of 32 (xml.attribute e (codes "port")) old.port new.port

  agent_steps-Loaded :
      (e : E) (c c1 c2 c' : FibpConfig) (b : Bool) (n p : ℕ)
      → HoldsBool (xml.attribute e (codes "enabletest")) c.broker_agent.enable_test b
      → HoldsUint int64_of 64 (xml.attribute e (codes "threadnum")) c1.broker_agent.thread_num n
      → HoldsUint int64_of 32 (xml.attribute e (codes "port")) c2.broker_agent.port p
      → (c1 ≡ in_broker_agent (λ a. record a { enable_test = b }) c)
      → (c2 ≡ in_broker_agent (λ a. record a { thread_num = n }) c1)
      → (c' ≡ in_broker_agent (λ a. record a { port = p }) c2)
      → AgentLoaded e c.broker_agent c'.broker_agent
        × (c' ≡ in_broker_agent (λ a. c'.broker_agent) c)
  agent_steps-Loaded e c c1 c2 c' b n p h1 h2 h3 q1 q2 q3 =
      rw (q3, q2, q1)
        (
          record {
            enable_test_read = h1;
            thread_num_read = rw q1 at h2;
            port_read = rw (q2, q1) at h3;
          },
          refl,
        )

  pub parse_broker_agent-Loaded :
      (e : E) (c c' : FibpConfig)
      → Runs (parse_broker_agent xml int64_of e) c c'
      → AgentLoaded e c.broker_agent c'.broker_agent
        × (c' ≡ in_broker_agent (λ a. c'.broker_agent) c)
  unfolding parse_broker_agent
  parse_broker_agent-Loaded e c c' h =
      let (c2, h2, r3) = >>-Runs _ _ c c' h in
      let (c1, r1, r2) = >>-Runs _ _ c c2 h2 in
      let (s1, (b, h1, q1)) =
        read_bool-Runs xml e _ false c c1 _ c.broker_agent.enable_test refl r1 in
      let (s2, (n, h2, q2)) =
        read_uint-Runs xml e _ false c1 c2 int64_of 64 _ c1.broker_agent.thread_num refl r2 in
      let (s3, (p, h3, q3)) =
        read_uint-Runs xml e _ false c2 c' int64_of 32 _ c2.broker_agent.port refl r3 in
      agent_steps-Loaded e c c1 c2 c' b n p h1 h2 h3 q1 q2 q3
