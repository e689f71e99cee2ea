-- ===== src/Config/File.antt =====
-- FibpConfig::parseConfigFile: the checks of the files, the settings, and what is made of an
-- exception. The file system, XmlSchema and the loading of ticpp are parameters. The function is
-- declared to throw nothing but an XmlConfigParserException, so that any other exception that leaves
-- it ends the program.
use fiberproxy.Prelude.{
  ℕ, ◌+◌, ◌-◌, ◌%◌, ◌^◌, Bool, true, false, not, [], ◌∷◌, ◌++◌, Option, none, some, Bytes, codes,
  ◌⊎◌, inl, inr, if◌then◌else◌, ◌==◌, ltb, length, drop,
}
use fiberproxy.Config.{Xml, Fault, no_element, FibpConfig, message}
use fiberproxy.Transaction.{find}
use fiberproxy.Config.Settings.{parse_settings}

pub data Outcome : Type 0 where
  returned : Bool → Outcome
  threw : Bytes → Outcome
  terminated : Outcome

pub record Files (E : Type 0) : Type 0 where
  -- boost::filesystem::exists, `none` for a filesystem_error, and the path of the schema beside the
  -- file
  pub exists : Bytes → Option Bool
  pub schema_path : Bytes → Bytes
  -- XmlSchema(schema).validate(file)
  pub validate : Bytes → Bytes → Bool
  -- LoadFile and FirstChildElement("FibpConfig", false), or the m_details of a ticpp::Exception
  pub load : Bytes → Bytes ⊎ Option E

-- the position of std::string::find, or npos
abbrev pub or_npos : Option ℕ → ℕ
or_npos none = 2 ^ 64 - 1
or_npos (some i) = i

abbrev pub description : Bytes
description = codes "\nDescription: "

-- the loop that replaces each newline
unfoldable pub blank_newlines : Bytes → Bytes
blank_newlines [] = []
blank_newlines (c ∷ s) = (if c == 10 then 32 else c) ∷ blank_newlines s

-- The catch of a ticpp::Exception. `substr` throws std::out_of_range past the end.
unfoldable pub rewrite : Bytes → Outcome
rewrite details =
    let substart = (or_npos (find details description 0) + 14) % 2 ^ 64 in
    if ltb (length details) substart
    then terminated
    else threw
        (codes "Exception occured while parsing file: " ++ blank_newlines (drop substart details))

module _ {E : Type 0} (xml : Xml E) where
  -- what the exception specification makes of a fault
  abbrev pub or_terminated : Option Bytes → Outcome
  or_terminated none = terminated
  or_terminated (some msg) = threw msg

  abbrev pub escape : Option (Fault E) → Outcome
  escape none = returned true
  escape (some f) = or_terminated (message xml f)

  module _ (int64_of : Bytes → Option ℕ) (local_host_ip : Bytes → Bytes → Bool × Bytes)
      (files : Files E) where
    abbrev pub with_root : Bytes ⊎ Option E → FibpConfig → Outcome × FibpConfig
    with_root (inl details) c = (rewrite details, c)
    with_root (inr none) c = (escape (some (no_element (codes "FibpConfig"))), c)
    with_root (inr (some config)) c =
        let (fault, c') = parse_settings xml int64_of local_host_ip config c in (escape fault, c')

    -- A check for a file: false when it is missing. The exception of exists may not leave the
    -- function, so that it ends the program.
    abbrev pub if_exists : Option Bool → FibpConfig → Outcome × FibpConfig → Outcome × FibpConfig
    if_exists none c rest = (terminated, c)
    if_exists (some false) c rest = (returned false, c)
    if_exists (some true) c rest = rest

    unfoldable pub parse_config_file : Bytes → FibpConfig → Outcome × FibpConfig
    parse_config_file file_name c = if_exists (files.exists file_name) c (
        if_exists (files.exists (files.schema_path file_name)) c (
          if not (files.validate (files.schema_path file_name) file_name)
          then (returned false, c)
          else with_root (files.load file_name) c))
