-- ===== src/Config/System.antt =====
-- FibpConfig::parseSystemSettings: what it has read when it throws nothing.
use fiberproxy.Prelude.{true, Bytes, codes, ◌≡◌, refl, ◌≢◌, []}
use fiberproxy.Config.{Xml, FibpConfig, LogServerConnectionConfig}
use fiberproxy.Config.Attributes.{with_unique_child, read_string}
use fiberproxy.Config.Settings.{in_log_server, parse_system_settings}
use fiberproxy.Config.Runs.{Runs, >>-Runs, Unique, with_unique_child-Runs, read_string-Runs}

module _ {E : Type 0} (xml : Xml E) where
  -- the attribute has a value, which is `v`
  abbrev pub Given : E → Bytes → Bytes → Type 0
  Given e name v = (xml.attribute e name ≢ []) × (xml.attribute e name ≡ v)

  -- the same of an attribute of the only child of that name
  abbrev pub GivenIn : E → Bytes → Bytes → Bytes → Type 0
  GivenIn e child_name name v = (child : E) × Unique xml e child_name child × Given child name v

  pub record SystemLoaded (system : E) (c : FibpConfig) : Type 0 where
    pub resource_given : GivenIn system (codes "Resource") (codes "path") c.resource_dir
    pub working_dir_given : GivenIn system (codes "WorkingDir") (codes "path") c.working_dir
    pub host_given : GivenIn system (codes "LogServerConnection") (codes "host") c.log_server.host
    pub port_given : GivenIn system (codes "LogServerConnection") (codes "port") c.log_server.port
    pub service_given :
        GivenIn system (codes "LogServerConnection") (codes "log_service") c.log_server.log_service
    pub tag_given :
        GivenIn system (codes "LogServerConnection") (codes "log_tag") c.log_server.log_tag

  -- one string read into a member that `put` sets
  abbrev pub GivesIn :
      E → Bytes → Bytes → (Bytes → FibpConfig → FibpConfig) → FibpConfig → FibpConfig → Type 0
  GivesIn e child_name name put c c' = (v : Bytes) × GivenIn e child_name name v × (c' ≡ put v c)

  pub read_child-Runs :
      (e : E) (child_name name : Bytes) (put : Bytes → FibpConfig → FibpConfig) (c c' : FibpConfig)
      → Runs (with_unique_child xml e child_name (λ ch. read_string xml ch name true put)) c c'
      → GivesIn e child_name name put c c'
  read_child-Runs e child_name name put c c' h =
      let (child, u, r) = with_unique_child-Runs xml e child_name _ c c' h in
      let (s, q) = read_string-Runs xml child name true put c c' r in
      (xml.attribute child name, (child, u, (s, refl)), q)

  -- the members that the settings of the system leave
  abbrev pub Rest : FibpConfig → FibpConfig → Type 0
  Rest c c' =
      (c'.broker_agent ≡ c.broker_agent)
      × (c'.distributed_common ≡ c.distributed_common)
      × (c'.distributed_util ≡ c.distributed_util)

  module _ (system : E) (c c1 c2 c3 c4 c5 c' : FibpConfig) where
    abbrev GivesLog :
        Bytes
        → (Bytes → LogServerConnectionConfig → LogServerConnectionConfig)
        → FibpConfig
        → FibpConfig
        → Type 0
    GivesLog name put =
        GivesIn system (codes "LogServerConnection") name (λ v. in_log_server (put v))

    system_steps-Loaded :
        GivesIn system (codes "Resource") (codes "path") (λ v c. record c { resource_dir = v }) c c1
        → GivesIn system
            (codes "WorkingDir")
            (codes "path")
            (λ v c. record c { working_dir = v })
            c1
            c2
        → GivesLog (codes "host") (λ v l. record l { host = v }) c2 c3
        → GivesLog (codes "port") (λ v l. record l { port = v }) c3 c4
        → GivesLog (codes "log_service") (λ v l. record l { log_service = v }) c4 c5
        → GivesLog (codes "log_tag") (λ v l. record l { log_tag = v }) c5 c'
        → SystemLoaded system c' × Rest c c'
    system_steps-Loaded (v1, g1, q1) (v2, g2, q2) (v3, g3, q3) (v4, g4, q4) (v5, g5, q5)
          (v6, g6, q6) =
        rw (q6, q5, q4, q3, q2, q1)
          (
            record {
              resource_given = g1;
              working_dir_given = g2;
              host_given = g3;
              port_given = g4;
              service_given = g5;
              tag_given = g6;
            },
            (refl, refl, refl),
          )

  pub parse_system_settings-Loaded :
      (system : E) (c c' : FibpConfig)
      → Runs (parse_system_settings xml system) c c'
      → SystemLoaded system c' × Rest c c'
  unfolding parse_system_settings
  parse_system_settings-Loaded system c c' h =
      let (c5, h5, r6) = >>-Runs _ _ c c' h in
      let (c4, h4, r5) = >>-Runs _ _ c c5 h5 in
      let (c3, h3, r4) = >>-Runs _ _ c c4 h4 in
      let (c2, h2, r3) = >>-Runs _ _ c c3 h3 in
      let (c1, r1, r2) = >>-Runs _ _ c c2 h2 in
      system_steps-Loaded system c c1 c2 c3 c4 c5 c' (read_child-Runs system _ _ _ c c1 r1)
        (read_child-Runs system _ _ _ c1 c2 r2) (read_child-Runs system _ _ _ c2 c3 r3)
        (read_child-Runs system _ _ _ c3 c4 r4) (read_child-Runs system _ _ _ c4 c5 r5)
        (read_child-Runs system _ _ _ c5 c' r6)
