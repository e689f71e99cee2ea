-- ===== src/Process/Options.antt =====
-- source/process/common/ProcessOptions.{h,cpp}. The reading of boost::program_options is a parameter:
-- the variables after store and notify, or `none` for an exception; a flag has an empty text.
use fiberproxy.Prelude.{
  ℕ, Bool, true, false, ◌&&◌, ◌||◌, not, List, [], ◌∷◌, Option, none, some, Bytes, codes, bind,
  is_some, if◌then◌else◌, ◌==◌, ltb, leb, length, lookup, bytes_key, is_empty,
}

pub record ProcessOptions : Type 0 where
  pub config_file_dir : Bytes
  pub config_file : Bytes
  pub is_verbose_on : Bool
  pub log_prefix : Bytes
  pub pid_file : Bytes
  pub report_addr : Bytes
  pub registry_addr : Bytes

abbrev pub new_options : ProcessOptions
new_options = record {
  config_file_dir = [];
  config_file = [];
  is_verbose_on = false;
  log_prefix = [];
  pid_file = [];
  report_addr = [];
  registry_addr = [];
}

abbrev pub VariableMap : Type 0
VariableMap = List (Bytes × Bytes)

-- The options with a value of type ProcessOptions::String that the constructor describes.
-- config-file is built, but it is not added to the description.
abbrev pub string_options : List Bytes
string_options =
    codes "log-prefix"
    ∷ codes "config-directory"
    ∷ codes "pid-file"
    ∷ codes "reportAddr"
    ∷ codes "registryAddr"
    ∷ []

abbrev pub starts_with_hyphen : Bytes → Bool
starts_with_hyphen [] = false
starts_with_hyphen (c ∷ s) = c == b'-'

-- The two functions `validate`. `single` is get_single_string, and `v_empty` is what
-- check_first_occurrence asks for; `none` is an exception.
module _ (single : List Bytes → Option Bytes) where
  unfoldable pub validate_string : Bool → List Bytes → Option Bytes
  validate_string v_empty values =
      if not v_empty
      then none
      else bind (single values)
          (λ value. if is_empty value || starts_with_hyphen value then none else some value)

  -- `unsigned_of` is boost::lexical_cast<unsigned>
  unfoldable pub validate_port : (Bytes → Option ℕ) → Bool → List Bytes → Option ℕ
  validate_port unsigned_of v_empty values =
      if not v_empty
      then none
      else bind (single values)
          (λ value. bind (unsigned_of value) (λ port. if leb port 1024 then none else some port))

abbrev pub value_or : Bytes → Option Bytes → Bytes
value_or old none = old
value_or old (some s) = s

unfoldable pub set_process_options : VariableMap → ProcessOptions → ProcessOptions
set_process_options vm o = record o {
  config_file_dir = value_or o.config_file_dir (lookup (codes "config-directory") vm);
  config_file = value_or o.config_file (lookup (codes "config-file") vm);
  is_verbose_on = o.is_verbose_on || is_some (lookup (codes "verbose") vm);
  log_prefix = value_or o.log_prefix (lookup (codes "log-prefix") vm);
  pid_file = value_or [] (lookup (codes "pid-file") vm);
  report_addr = value_or (codes "127.0.0.1:18001") (lookup (codes "reportAddr") vm);
  registry_addr = value_or (codes "127.0.0.1:8500") (lookup (codes "registryAddr") vm);
}

-- the two tests that print the usage
unfoldable pub shows_usage : VariableMap → Bool
shows_usage vm =
    (is_some (lookup (codes "help") vm) || length vm == 0)
    || (ltb (length vm) 1 || (is_some (lookup (codes "verbose") vm) && ltb (length vm) 2))

abbrev pub process_args : Option VariableMap → ProcessOptions → Bool × ProcessOptions
process_args none o = (false, o)
process_args (some vm) o = if shows_usage vm then (false, o) else (true, set_process_options vm o)

unfoldable pub set_process_args :
    (List Bytes → Option VariableMap) → List Bytes → ProcessOptions → Bool × ProcessOptions
set_process_args read args o = process_args (read args) o
