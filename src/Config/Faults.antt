-- ===== src/Config/Faults.antt =====
-- The faults of the settings: each complains of what is so.
use fiberproxy.Prelude.{
  ℕ, Bool, true, false, Option, none, some, Bytes, codes, ◌≡◌, refl, [], ◌∷◌, ◌⊎◌, inl, inr,
}
use fiberproxy.Config.{
  Xml, FibpConfig, Fault, no_element, multiple_element, no_attribute, type_mismatch, bad_cast,
}
use fiberproxy.Config.Attributes.{
  Action, ◌>>◌, continue, with_unique_child, unique, alone, read_string, read_bool, read_uint,
  read_with, get_attribute, check_value, assign, assign_found, to_bool, to_uint, switch, narrow,
  Truth, truly, falsely, neither, parse_truth,
}
use fiberproxy.Config.Settings.{
  read_zk, read_dfs, parse_system_settings, parse_broker_agent, parse_distributed_util,
  parse_local_host, parse_distributed_common, parse_deployment_settings, parse_settings,
  use_local_host, use_interface, put_local_host,
}

module _ {E : Type 0} (xml : Xml E) (int64_of : Bytes → Option ℕ) where
  abbrev pub Justified : Fault E → Type 0
  Justified (no_element name) = (e : E) × (xml.first_child e name ≡ none)
  Justified (multiple_element name) =
      (e : E) × (child : E) × (again : E) × (xml.first_child e name ≡ some child)
      × (xml.next_sibling child name ≡ some again)
  Justified (no_attribute e name) = xml.attribute e name ≡ []
  Justified (type_mismatch e name text) =
      (xml.attribute e name ≡ text) × (parse_truth text ≡ neither)
  Justified (bad_cast text) =
      (e : E) × (name : Bytes) × (xml.attribute e name ≡ text) × (int64_of text ≡ none)

  abbrev pub JustifiedAll : Option (Fault E) → Type 0
  JustifiedAll none = Unit
  JustifiedAll (some f) = Justified f

  -- An action throws only what is justified.
  abbrev pub Sound : Action E → Type 0
  Sound m = (c : FibpConfig) → JustifiedAll (m c).0

  >>-Sound : (m k : Action E) → Sound m → Sound k → Sound (m >> k)
  unfolding ◌>>◌
  >>-Sound m k sm sk c = go (m c) (sm c)
    where
      go : (r : Option (Fault E) × FibpConfig) → JustifiedAll r.0 → JustifiedAll (continue r k).0
      go (none, c1) j = sk c1
      go (some f, c1) j = j

  with_unique_child-Sound :
      (e : E) (name : Bytes) (k : E → Action E)
      → ((child : E) → Sound (k child))
      → Sound (with_unique_child xml e name k)
  unfolding with_unique_child
  with_unique_child-Sound e name k sk c = go (xml.first_child e name) refl
    where
      go_alone :
          (child : E) (o : Option E)
          → xml.first_child e name ≡ some child
          → xml.next_sibling child name ≡ o
          → JustifiedAll (alone xml name k child o c).0
      go_alone child none p q = sk child c
      go_alone child (some again) p q = (e, child, again, p, q)

      go : (o : Option E) → xml.first_child e name ≡ o → JustifiedAll (unique xml name k o c).0
      go none p = (e, p)
      go (some child) p = go_alone child _ p refl

  read_string-Sound :
      (e : E) (name : Bytes) (required : Bool) (put : Bytes → FibpConfig → FibpConfig)
      → Sound (read_string xml e name required put)
  unfolding read_string get_attribute
  read_string-Sound e name required put c = go required (xml.attribute e name) refl
    where
      go :
          (required : Bool) (val : Bytes)
          → xml.attribute e name ≡ val
          → JustifiedAll (check_value xml e name required val).0
      go true [] p = p
      go false [] p = tt
      go required (x ∷ val) p = tt

  module _ {A : Type 0} (put : A → FibpConfig → FibpConfig) (convert : Bytes → Fault E ⊎ A) (e : E)
      (name : Bytes) where
    -- what is thrown where the conversion of the attribute fails
    abbrev Converts : Fault E ⊎ A → Type 0
    Converts (inl f) = Justified f
    Converts (inr a) = Unit

    read_with-Sound :
        (required : Bool)
        → Converts (convert (xml.attribute e name))
        → Sound (read_with xml put convert e name required)
    unfolding read_with get_attribute
    read_with-Sound required k c = go required (xml.attribute e name) refl k
      where
        go_assign : (r : Fault E ⊎ A) → Converts r → JustifiedAll (assign xml put r c).0
        go_assign (inl f) j = j
        go_assign (inr a) j = tt

        go :
            (required : Bool) (val : Bytes)
            → xml.attribute e name ≡ val
            → Converts (convert val)
            → JustifiedAll
                (let (fault, v, found) = check_value xml e name required val in
                  assign_found xml put fault found (convert v) c).0
        go true [] p j = p
        go false [] p j = tt
        go true (x ∷ val) p j = go_assign _ j
        go false (x ∷ val) p j = go_assign _ j

  read_bool-Sound :
      (e : E) (name : Bytes) (required : Bool) (put : Bool → FibpConfig → FibpConfig)
      → Sound (read_bool xml e name required put)
  unfolding read_bool to_bool
  read_bool-Sound e name required put =
      read_with-Sound put _ e name required (go (parse_truth (xml.attribute e name)) refl)
    where
      go :
          (t : Truth)
          → parse_truth (xml.attribute e name) ≡ t
          → Converts put (to_bool xml e name) e name (switch xml e name (xml.attribute e name) t)
      go truly p = tt
      go falsely p = tt
      go neither p = (refl, p)

  read_uint-Sound :
      (width : ℕ) (e : E) (name : Bytes) (required : Bool) (put : ℕ → FibpConfig → FibpConfig)
      → Sound (read_uint xml int64_of width e name required put)
  unfolding read_uint to_uint
  read_uint-Sound width e name required put =
      read_with-Sound put _ e name required (go (int64_of (xml.attribute e name)) refl)
    where
      go :
          (o : Option ℕ)
          → int64_of (xml.attribute e name) ≡ o
          → Converts put
              (to_uint xml int64_of width)
              e
              name
              (narrow xml int64_of width (xml.attribute e name) o)
      go none p = (e, name, refl, p)
      go (some n) p = tt

  ruleset sounds =
      (>>-Sound, with_unique_child-Sound, read_string-Sound, read_bool-Sound, read_uint-Sound)

  parse_system_settings-Sound : (system : E) → Sound (parse_system_settings xml system)
  unfolding parse_system_settings
  parse_system_settings-Sound system = search sounds depth 16

  parse_broker_agent-Sound : (e : E) → Sound (parse_broker_agent xml int64_of e)
  unfolding parse_broker_agent
  parse_broker_agent-Sound e = search sounds depth 16

  read_zk-Sound : (e : E) → Sound (read_zk xml int64_of e)
  unfolding read_zk
  read_zk-Sound e = search sounds depth 16

  read_dfs-Sound : (e : E) → Sound (read_dfs xml int64_of e)
  unfolding read_dfs
  read_dfs-Sound e = search sounds depth 16

  parse_distributed_util-Sound : (e : E) → Sound (parse_distributed_util xml int64_of e)
  unfolding parse_distributed_util
  parse_distributed_util-Sound e = search (sounds, read_zk-Sound, read_dfs-Sound) depth 16

  module _ (local_host_ip : Bytes → Bytes → Bool × Bytes) where
    use_local_host-Sound : (e : E) (r : Bool × Bytes) → Sound (use_local_host xml int64_of e r)
    use_local_host-Sound e (true, ip) c = tt
    use_local_host-Sound e (false, ip) c = read_string-Sound e _ true put_local_host _

    parse_local_host-Sound : (e : E) → Sound (parse_local_host xml int64_of local_host_ip e)
    unfolding parse_local_host get_attribute
    parse_local_host-Sound e c = go (xml.attribute e (codes "localinterface")) refl
      where
        go :
            (val : Bytes)
            → xml.attribute e (codes "localinterface") ≡ val
            → JustifiedAll
                (use_interface xml int64_of local_host_ip e
                  (check_value xml e (codes "localinterface") true val)
                  c).0
        go [] p = p
        go (x ∷ val) p = use_local_host-Sound e _ _

    parse_distributed_common-Sound :
        (e : E) → Sound (parse_distributed_common xml int64_of local_host_ip e)
    unfolding parse_distributed_common
    parse_distributed_common-Sound e = search (sounds, parse_local_host-Sound) depth 16

    parse_deployment_settings-Sound :
        (e : E) → Sound (parse_deployment_settings xml int64_of local_host_ip e)
    unfolding parse_deployment_settings
    parse_deployment_settings-Sound e =
        search
          (
            sounds, parse_broker_agent-Sound, parse_distributed_common-Sound,
            parse_distributed_util-Sound,
          )
          depth 16

    pub parse_settings-Sound : (e : E) → Sound (parse_settings xml int64_of local_host_ip e)
    unfolding parse_settings
    parse_settings-Sound e =
        search (sounds, parse_system_settings-Sound, parse_deployment_settings-Sound) depth 16
