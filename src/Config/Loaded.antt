-- ===== src/Config/Loaded.antt =====
-- The settings as a whole: what a parse that throws nothing has read of the file.
use fiberproxy.Prelude.{ℕ, Bool, Option, Bytes, codes, ◌≡◌, refl}
use fiberproxy.Config.{
  Xml, FibpConfig, BrokerAgentConfig, DistributedCommonConfig, DistributedUtilConfig,
}
use fiberproxy.Config.Settings.{
  in_broker_agent, in_common, in_util, parse_deployment_settings, parse_settings,
}
use fiberproxy.Config.Runs.{Runs, >>-Runs, Unique, with_unique_child-Runs}
use fiberproxy.Config.System.{SystemLoaded, Rest, parse_system_settings-Loaded}
use fiberproxy.Config.Agent.{AgentLoaded, parse_broker_agent-Loaded}
use fiberproxy.Config.Util.{UtilLoaded, parse_distributed_util-Loaded}
use fiberproxy.Config.Common.{CommonLoaded, parse_distributed_common-Loaded}

module _ {E : Type 0} (xml : Xml E) (int64_of : Bytes → Option ℕ)
    (local_host_ip : Bytes → Bytes → Bool × Bytes) where
  pub record DeploymentLoaded (deploy : E) (old new : FibpConfig) : Type 0 where
    pub agent_loaded :
        (a : E) × Unique xml deploy (codes "BrokerAgent") a
        × AgentLoaded xml int64_of a old.broker_agent new.broker_agent
    pub common_loaded :
        (d : E) × Unique xml deploy (codes "DistributedCommon") d
        × CommonLoaded xml int64_of local_host_ip d new.broker_agent old.distributed_common
            new.distributed_common
    pub util_loaded :
        (u : E) × Unique xml deploy (codes "DistributedUtil") u
        × UtilLoaded xml int64_of u old.distributed_util new.distributed_util

  pub record Loaded (config : E) (old new : FibpConfig) : Type 0 where
    pub system_loaded : (s : E) × Unique xml config (codes "System") s × SystemLoaded xml s new
    pub deployment_loaded :
        (d : E) × Unique xml config (codes "Deployment") d × DeploymentLoaded d old new

  deployment_steps-Loaded :
      (deploy a d u : E) (c c1 c2 c' : FibpConfig) (agent : BrokerAgentConfig)
      (common : DistributedCommonConfig) (util : DistributedUtilConfig)
      → Unique xml deploy (codes "BrokerAgent") a
      → AgentLoaded xml int64_of a c.broker_agent agent
      → (c1 ≡ in_broker_agent (λ x. agent) c)
      → Unique xml deploy (codes "DistributedCommon") d
      → CommonLoaded xml int64_of local_host_ip d c1.broker_agent c1.distributed_common common
      → (c2 ≡ in_common (λ x. common) c1)
      → Unique xml deploy (codes "DistributedUtil") u
      → UtilLoaded xml int64_of u c2.distributed_util util
      → (c' ≡ in_util (λ x. util) c2)
      → DeploymentLoaded deploy c c'
        × (c'.resource_dir ≡ c.resource_dir)
        × (c'.working_dir ≡ c.working_dir)
        × (c'.log_server ≡ c.log_server)
  deployment_steps-Loaded deploy a d u c c1 c2 c' agent common util u1 l1 q1 u2 l2 q2 u3 l3 q3 =
      rw (q3, q2, q1)
        (
          record {
            agent_loaded = (a, u1, l1);
            common_loaded = (d, u2, rw q1 at l2);
            util_loaded = (u, u3, rw (q2, q1) at l3);
          },
          refl,
          refl,
          refl,
        )

  parse_deployment_settings-Loaded :
      (deploy : E) (c c' : FibpConfig)
      → Runs (parse_deployment_settings xml int64_of local_host_ip deploy) c c'
      → DeploymentLoaded deploy c c'
        × (c'.resource_dir ≡ c.resource_dir)
        × (c'.working_dir ≡ c.working_dir)
        × (c'.log_server ≡ c.log_server)
  unfolding parse_deployment_settings
  parse_deployment_settings-Loaded deploy c c' h =
      let (c2, h2, r3) = >>-Runs _ _ c c' h in
      let (c1, r1, r2) = >>-Runs _ _ c c2 h2 in
      let (a, u1, r1') = with_unique_child-Runs xml deploy _ _ c c1 r1 in
      let (l1, q1) = parse_broker_agent-Loaded xml int64_of a c c1 r1' in
      let (d, u2, r2') = with_unique_child-Runs xml deploy _ _ c1 c2 r2 in
      let (l2, q2) = parse_distributed_common-Loaded xml int64_of local_host_ip d c1 c2 r2' in
      let (u, u3, r3') = with_unique_child-Runs xml deploy _ _ c2 c' r3 in
      let (l3, q3) = parse_distributed_util-Loaded xml int64_of u c2 c' r3' in
      deployment_steps-Loaded deploy a d u c c1 c2 c' _ _ _ u1 l1 q1 u2 l2 q2 u3 l3 q3

  system_of-Loaded :
      (s : E) (c1 c' : FibpConfig)
      → SystemLoaded xml s c1
      → c'.resource_dir ≡ c1.resource_dir
      → c'.working_dir ≡ c1.working_dir
      → c'.log_server ≡ c1.log_server
      → SystemLoaded xml s c'
  system_of-Loaded s c1 c' l q1 q2 q3 = record {
    resource_given = rw q1 l.resource_given;
    working_dir_given = rw q2 l.working_dir_given;
    host_given = rw q3 l.host_given;
    port_given = rw q3 l.port_given;
    service_given = rw q3 l.service_given;
    tag_given = rw q3 l.tag_given;
  }

  deployment_of-Loaded :
      (d : E) (c c1 c' : FibpConfig)
      → DeploymentLoaded d c1 c'
      → Rest xml c c1
      → DeploymentLoaded d c c'
  deployment_of-Loaded d c c1 c' l (q1, q2, q3) =
      let (a, u1, l1) = l.agent_loaded in
      let (k, u2, l2) = l.common_loaded in
      let (u, u3, l3) = l.util_loaded in
      record {
        agent_loaded = (a, u1, rw q1 at l1);
        common_loaded = (k, u2, rw q2 at l2);
        util_loaded = (u, u3, rw q3 at l3);
      }

  pub parse_settings-Loaded :
      (config : E) (c c' : FibpConfig)
      → Runs (parse_settings xml int64_of local_host_ip config) c c'
      → Loaded config c c'
  unfolding parse_settings
  parse_settings-Loaded config c c' h =
      let (c1, r1, r2) = >>-Runs _ _ c c' h in
      let (s, u1, r1') = with_unique_child-Runs xml config _ _ c c1 r1 in
      let (l1, rest) = parse_system_settings-Loaded xml s c c1 r1' in
      let (d, u2, r2') = with_unique_child-Runs xml config _ _ c1 c' r2 in
      let (l2, q1, q2, q3) = parse_deployment_settings-Loaded d c1 c' r2' in
      record {
        system_loaded = (s, u1, system_of-Loaded s c1 c' l1 q1 q2 q3);
        deployment_loaded = (d, u2, deployment_of-Loaded d c c1 c' l2 rest);
      }
