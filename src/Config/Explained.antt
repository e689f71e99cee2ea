-- ===== src/Config/Explained.antt =====
-- Each outcome of FibpConfig::parseConfigFile, with what the file is like when it comes.
use fiberproxy.Prelude.{
  ℕ, Bool, true, false, Option, none, some, Bytes, codes, ◌≡◌, refl, ◌≢◌, ◌⊎◌, inl, inr, arith,
  Bool-cases, if◌then◌else◌, not,
}
use fiberproxy.Config.{
  Xml, FibpConfig, Fault, no_element, multiple_element, no_attribute, type_mismatch, bad_cast,
  message,
}
use fiberproxy.Config.Settings.{parse_settings}
use fiberproxy.Config.File.{
  Outcome, returned, threw, terminated, Files, rewrite, escape, with_root, if_exists,
  parse_config_file,
}
use fiberproxy.Config.Loaded.{Loaded, parse_settings-Loaded}
use fiberproxy.Config.Faults.{Justified, JustifiedAll, parse_settings-Sound}

module _ {E : Type 0} (xml : Xml E) (int64_of : Bytes → Option ℕ)
    (local_host_ip : Bytes → Bytes → Bool × Bytes) (files : Files E) where
  -- The exception is that of ticpp, told again, or complains of what is so.
  abbrev pub ThrewFor : Bytes → Bytes ⊎ Option E → Type 0
  ThrewFor msg (inl details) = rewrite details ≡ threw msg
  ThrewFor msg (inr none) = message xml (no_element (codes "FibpConfig")) ≡ some msg
  ThrewFor msg (inr (some config)) =
      (f : Fault E) × Justified xml int64_of f × (message xml f ≡ some msg)

  abbrev pub TerminatedFor : Bytes ⊎ Option E → Type 0
  TerminatedFor (inl details) = rewrite details ≡ terminated
  TerminatedFor (inr none) = ⊥
  TerminatedFor (inr (some config)) =
      (text : Bytes) × (e : E) × (name : Bytes) × (xml.attribute e name ≡ text)
      × (int64_of text ≡ none)

  abbrev pub LoadedFor : FibpConfig → FibpConfig → Bytes ⊎ Option E → Type 0
  LoadedFor c c' (inl details) = ⊥
  LoadedFor c c' (inr none) = ⊥
  LoadedFor c c' (inr (some config)) = Loaded xml int64_of local_host_ip config c c'

  -- a file is missing, or breaks the schema
  abbrev pub Unusable : Bytes → Type 0
  Unusable file_name =
      (files.exists file_name ≡ some false)
      ⊎ ((files.exists (files.schema_path file_name) ≡ some false)
          ⊎ (files.validate (files.schema_path file_name) file_name ≡ false))

  -- the file system does not tell whether one of the files exists
  abbrev pub Unknown : Bytes → Type 0
  Unknown file_name =
      (files.exists file_name ≡ none) ⊎ (files.exists (files.schema_path file_name) ≡ none)

  abbrev pub Explained : Bytes → FibpConfig → Outcome × FibpConfig → Type 0
  Explained file_name c (returned true, c') = LoadedFor c c' (files.load file_name)
  Explained file_name c (returned false, c') = (c' ≡ c) × Unusable file_name
  Explained file_name c (threw msg, c') = ThrewFor msg (files.load file_name)
  Explained file_name c (terminated, c') = Unknown file_name ⊎ TerminatedFor (files.load file_name)

  -- the same of what was loaded, when the checks have passed
  abbrev ExplainedBy : Bytes ⊎ Option E → FibpConfig → Outcome × FibpConfig → Type 0
  ExplainedBy l c (returned true, c') = LoadedFor c c' l
  ExplainedBy l c (returned false, c') = ⊥
  ExplainedBy l c (threw msg, c') = ThrewFor msg l
  ExplainedBy l c (terminated, c') = TerminatedFor l

  rewrite-ExplainedBy :
      (details : Bytes) (c : FibpConfig) (o : Outcome)
      → rewrite details ≡ o
      → ((b : Bool) → rewrite details ≢ returned b)
      → ExplainedBy (inl details) c (o, c)
  rewrite-ExplainedBy details c (returned b) p q = absurd (q b p)
  rewrite-ExplainedBy details c (threw msg) p q = p
  rewrite-ExplainedBy details c terminated p q = p

  rewrite-not_returned : (details : Bytes) (b : Bool) → rewrite details ≢ returned b
  unfolding rewrite
  rewrite-not_returned details b = ground arith

  escape-ExplainedBy :
      (config : E) (c c' : FibpConfig) (f : Option (Fault E))
      → parse_settings xml int64_of local_host_ip config c ≡ (f, c')
      → JustifiedAll xml int64_of f
      → ExplainedBy (inr (some config)) c (escape xml f, c')
  unfolding message
  escape-ExplainedBy config c c' none p j =
      parse_settings-Loaded xml int64_of local_host_ip config c c' p
  escape-ExplainedBy config c c' (some (no_element n)) p j = (no_element n, j, refl)
  escape-ExplainedBy config c c' (some (multiple_element n)) p j = (multiple_element n, j, refl)
  escape-ExplainedBy config c c' (some (no_attribute e n)) p j = (no_attribute e n, j, refl)
  escape-ExplainedBy config c c' (some (type_mismatch e n t)) p j = (type_mismatch e n t, j, refl)
  escape-ExplainedBy config c c' (some (bad_cast t)) p j = (t, j.0, j.1, j.2, j.3)

  with_root-ExplainedBy :
      (l : Bytes ⊎ Option E) (c : FibpConfig)
      → ExplainedBy l c (with_root xml int64_of local_host_ip files l c)
  unfolding message
  with_root-ExplainedBy (inl details) c =
      rewrite-ExplainedBy details c _ refl (rewrite-not_returned details)
  with_root-ExplainedBy (inr none) c = refl
  with_root-ExplainedBy (inr (some config)) c =
      escape-ExplainedBy config c _ _ refl
        (parse_settings-Sound xml int64_of local_host_ip config c)

  ExplainedBy-Explained :
      (file_name : Bytes) (c : FibpConfig) (r : Outcome × FibpConfig)
      → ExplainedBy (files.load file_name) c r
      → Explained file_name c r
  ExplainedBy-Explained file_name c (returned true, c') h = h
  ExplainedBy-Explained file_name c (returned false, c') h = absurd h
  ExplainedBy-Explained file_name c (threw msg, c') h = h
  ExplainedBy-Explained file_name c (terminated, c') h = inr h

  -- Each outcome of reading the configuration file is explained by the file. Success: the root
  -- element is there, each required element stands exactly once, each required attribute has a
  -- value, and every member holds what its attribute says, with the low 32 or 64 bits of a number,
  -- and with the port of the broker agent as ba_port. A plain refusal leaves the configuration as
  -- it was, and a file is missing or breaks the schema. An exception comes of ticpp, of a missing
  -- root, or of a fault that the elements have. The program is ended only when the file system does
  -- not tell whether a file exists, for the text of a ticpp exception, or for a text that is no
  -- integer.
  pub parse_config_file-Explained :
      (file_name : Bytes) (c : FibpConfig)
      → Explained file_name c (parse_config_file xml int64_of local_host_ip files file_name c)
  unfolding parse_config_file
  parse_config_file-Explained file_name c =
      go (files.exists file_name) refl (files.exists (files.schema_path file_name)) refl
    where
      go :
          (a : Option Bool)
          → files.exists file_name ≡ a
          → (b : Option Bool) → files.exists (files.schema_path file_name) ≡ b
          → Explained file_name c (
              if_exists xml int64_of local_host_ip files a c (
                if_exists xml int64_of local_host_ip files b c (
                  if not (files.validate (files.schema_path file_name) file_name)
                  then (returned false, c)
                  else with_root xml int64_of local_host_ip files (files.load file_name) c)))
      go none p b q = inl (inl p)
      go (some false) p b q = (refl, inl p)
      go (some true) p none q = inl (inr q)
      go (some true) p (some false) q = (refl, inr (inl q))
      go (some true) p (some true) q =
          elim (Bool-cases (files.validate (files.schema_path file_name) file_name)) [
            | inr v ↦ rw v (refl, inr (inr v))
            | inl v ↦ rw v (ExplainedBy-Explained file_name c _ (with_root-ExplainedBy _ c))
          ]
