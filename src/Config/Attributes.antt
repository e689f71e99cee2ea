-- ===== src/Config/Attributes.antt =====
-- XmlConfigParser: one child element, one attribute, and what assigns it to a member. A member is
-- seen through the function that sets it; an action leaves a fault, or none, and the members.
use fiberproxy.Prelude.{
  ℕ, ◌%◌, ◌^◌, Bool, true, false, ◌||◌, [], ◌∷◌, Option, none, some, Bytes, codes, ◌⊎◌, inl, inr,
  if◌then◌else◌, bytes_eq, lower_byte, map,
}
use fiberproxy.Config.{
  Xml, Fault, no_element, multiple_element, no_attribute, type_mismatch, bad_cast, FibpConfig,
}

-- downCase, with the tolower of the "C" locale
unfoldable pub down_case : Bytes → Bytes
down_case = map lower_byte

pub data Truth : Type 0 where
  truly falsely neither : Truth

unfoldable pub parse_truth : Bytes → Truth
parse_truth str =
    let temp = down_case str in
    if bytes_eq temp (codes "y") || bytes_eq temp (codes "yes")
    then truly
    else if bytes_eq temp (codes "n") || bytes_eq temp (codes "no")
    then falsely
    else neither

abbrev pub Action : Type 0 → Type 0
Action E = FibpConfig → Option (Fault E) × FibpConfig

module _ {E : Type 0} where
  abbrev pub continue : Option (Fault E) × FibpConfig → Action E → Option (Fault E) × FibpConfig
  continue (none, c) k = k c
  continue (some f, c) k = (some f, c)

  -- one statement after another; a fault skips the rest
  infixl 5 ◌>>◌
  unfoldable pub ◌>>◌ : Action E → Action E → Action E
  (m >> k) c = continue (m c) k

module _ {E : Type 0} (xml : Xml E) where
  -- getUniqChildElement with throwIfNoElement, before what uses the element: the second if, the
  -- first if, and the call
  abbrev pub alone : Bytes → (E → Action E) → E → Option E → Action E
  alone name k child none c = k child c
  alone name k child (some again) c = (some (multiple_element name), c)

  abbrev pub unique : Bytes → (E → Action E) → Option E → Action E
  unique name k none c = (some (no_element name), c)
  unique name k (some child) c = alone name k child (xml.next_sibling child name) c

  unfoldable pub with_unique_child : E → Bytes → (E → Action E) → Action E
  with_unique_child e name k c = unique name k (xml.first_child e name) c

  -- getAttribute of a std::string: the value, and whether it is there
  abbrev pub check_value : E → Bytes → Bool → Bytes → Option (Fault E) × Bytes × Bool
  check_value e name true [] = (some (no_attribute e name), [], false)
  check_value e name false [] = (none, [], false)
  check_value e name required (c ∷ val) = (none, c ∷ val, true)

  unfoldable pub get_attribute : E → Bytes → Bool → Option (Fault E) × Bytes × Bool
  get_attribute e name required = check_value e name required (xml.attribute e name)

  -- The member is the val of the call: it is assigned also before an exception.
  unfoldable pub read_string : E → Bytes → Bool → (Bytes → FibpConfig → FibpConfig) → Action E
  read_string e name required put c =
      let (fault, val, found) = get_attribute e name required in (fault, put val c)

  -- With a temp for the val of the call, the member is assigned what `convert` makes of the temp.
  module _ {A : Type 0} (put : A → FibpConfig → FibpConfig) where
    abbrev pub assign : Fault E ⊎ A → Action E
    assign (inl f) c = (some f, c)
    assign (inr a) c = (none, put a c)

    abbrev pub assign_found : Option (Fault E) → Bool → Fault E ⊎ A → Action E
    assign_found (some f) found a c = (some f, c)
    assign_found none false a c = (none, c)
    assign_found none true a c = assign a c

    unfoldable pub read_with : (Bytes → Fault E ⊎ A) → E → Bytes → Bool → Action E
    read_with convert e name required c =
        let (fault, val, found) = get_attribute e name required in
        assign_found fault found (convert val) c

  -- the switch of the getAttribute of a bool
  abbrev pub switch : E → Bytes → Bytes → Truth → Fault E ⊎ Bool
  switch e name temp truly = inr true
  switch e name temp falsely = inr false
  switch e name temp neither = inl (type_mismatch e name temp)

  unfoldable pub to_bool : E → Bytes → Bytes → Fault E ⊎ Bool
  to_bool e name temp = switch e name temp (parse_truth temp)

  unfoldable pub read_bool : E → Bytes → Bool → (Bool → FibpConfig → FibpConfig) → Action E
  read_bool e name required put = read_with put (to_bool e name) e name required

  -- getAttribute_IntType: `int64_of` is boost::lexical_cast<int64_t>, as the 64-bit pattern of the
  -- number, or `none` for a bad_lexical_cast. A member of `width` bits keeps the low ones.
  module _ (int64_of : Bytes → Option ℕ) where
    abbrev pub narrow : ℕ → Bytes → Option ℕ → Fault E ⊎ ℕ
    narrow width temp none = inl (bad_cast temp)
    narrow width temp (some n) = inr (n % 2 ^ width)

    unfoldable pub to_uint : ℕ → Bytes → Fault E ⊎ ℕ
    to_uint width temp = narrow width temp (int64_of temp)

    unfoldable pub read_uint : ℕ → E → Bytes → Bool → (ℕ → FibpConfig → FibpConfig) → Action E
    read_uint width e name required put = read_with put (to_uint width) e name required
