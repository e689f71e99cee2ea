-- ===== src/Config/Runs.antt =====
-- What the helpers of XmlConfigParser have read when they throw nothing.
use fiberproxy.Prelude.{
  ℕ, ◌%◌, ◌^◌, Bool, true, false, [], ◌∷◌, Option, none, some, Bytes, ◌⊎◌, inl, inr, if◌then◌else◌,
  ◌≡◌, refl, ◌≢◌, ◌∙◌, sym, arith,
}
use fiberproxy.Config.{Xml, Fault, FibpConfig}
use fiberproxy.Config.Attributes.{
  Action, ◌>>◌, continue, with_unique_child, read_string, read_bool, read_uint, get_attribute,
  read_with, alone, unique, check_value, assign, assign_found, to_bool, to_uint, switch, narrow,
  parse_truth, Truth, truly, falsely, neither,
}

-- the members after a run, and that it threw nothing
abbrev pub Runs : {E : Type 0} → Action E → FibpConfig → FibpConfig → Type 0
Runs m c c' = m c ≡ (none, c')

module _ {E : Type 0} where
  continue-Runs :
      (r : Option (Fault E) × FibpConfig) (k : Action E) (c' : FibpConfig)
      → continue r k ≡ (none, c')
      → (c1 : FibpConfig) × (r ≡ (none, c1)) × Runs k c1 c'
  continue-Runs (none, c1) k c' h = (c1, refl, h)
  continue-Runs (some f, c1) k c' h = cc

  pub >>-Runs :
      (m k : Action E) (c c' : FibpConfig)
      → Runs (m >> k) c c'
      → (c1 : FibpConfig) × Runs m c c1 × Runs k c1 c'
  unfolding ◌>>◌
  >>-Runs m k c c' h = continue-Runs (m c) k c' h

-- What an optional or required attribute leaves in a member that held `old`.
abbrev pub HoldsBool : Bytes → Bool → Bool → Type 0
HoldsBool [] old v = v ≡ old
HoldsBool (x ∷ text) old v = parse_truth (x ∷ text) ≡ (if v then truly else falsely)

abbrev pub HoldsUint : (Bytes → Option ℕ) → ℕ → Bytes → ℕ → ℕ → Type 0
HoldsUint int64_of width [] old v = v ≡ old
HoldsUint int64_of width (x ∷ text) old v =
    (n : ℕ) × (int64_of (x ∷ text) ≡ some n) × (v ≡ n % 2 ^ width)

-- a required value stands
abbrev pub Stands : Bool → Bytes → Type 0
Stands true val = val ≢ []
Stands false val = Unit

module _ {E : Type 0} (xml : Xml E) where
  -- `child` is the only child of that name
  abbrev pub Unique : E → Bytes → E → Type 0
  Unique e name child = (xml.first_child e name ≡ some child) × (xml.next_sibling child name ≡ none)

  -- an attribute that must have a value
  abbrev pub Given : E → Bytes → Bytes → Type 0
  Given e name v = (xml.attribute e name ≡ v) × (v ≢ [])

  alone-Runs :
      (name : Bytes) (k : E → Action E) (child : E) (o : Option E) (c c' : FibpConfig)
      → alone xml name k child o c ≡ (none, c')
      → (o ≡ none) × Runs (k child) c c'
  alone-Runs name k child none c c' h = (refl, h)
  alone-Runs name k child (some again) c c' h = cc

  unique-Runs :
      (name : Bytes) (k : E → Action E) (o : Option E) (c c' : FibpConfig)
      → unique xml name k o c ≡ (none, c')
      → (child : E) × ((o ≡ some child) × (xml.next_sibling child name ≡ none))
        × Runs (k child) c c'
  unique-Runs name k none c c' h = cc
  unique-Runs name k (some child) c c' h =
      let (e, r) = alone-Runs name k child _ c c' h in (child, (refl, e), r)

  pub with_unique_child-Runs :
      (e : E) (name : Bytes) (k : E → Action E) (c c' : FibpConfig)
      → Runs (with_unique_child xml e name k) c c'
      → (child : E) × Unique e name child × Runs (k child) c c'
  unfolding with_unique_child
  with_unique_child-Runs e name k c c' h = unique-Runs name k _ c c' h

  pub read_string-Runs :
      (e : E) (name : Bytes) (required : Bool) (put : Bytes → FibpConfig → FibpConfig)
      (c c' : FibpConfig)
      → Runs (read_string xml e name required put) c c'
      → Stands required (xml.attribute e name) × (c' ≡ put (xml.attribute e name) c)
  unfolding read_string get_attribute
  read_string-Runs e name required put c c' h = go required (xml.attribute e name) h
    where
      go :
          (required : Bool) (val : Bytes)
          → (let (fault, v, found) = check_value xml e name required val in
              let r : Option (Fault E) × FibpConfig = (fault, put v c) in r ≡ (none, c'))
          → Stands required val × (c' ≡ put val c)
      go true [] h = cc
      go false [] h = (tt, cc)
      go true (x ∷ val) h = (λ e. cc, cc)
      go false (x ∷ val) h = (tt, cc)

  -- What is converted: the member keeps what it held where the attribute is empty.
  module _ {A : Type 0} (put : A → FibpConfig → FibpConfig) (convert : Bytes → Fault E ⊎ A) (e : E)
      (name : Bytes) (c c' : FibpConfig) where
    assign-Runs :
        (val : Bytes) (r : Fault E ⊎ A)
        → assign xml put r c ≡ (none, c')
        → (a : A) × (r ≡ inr a) × (c' ≡ put a c)
    assign-Runs val (inl f) h = cc
    assign-Runs val (inr a) h = (a, refl, cc)

    pub read_with-Runs :
        (required : Bool)
        → Runs (read_with xml put convert e name required) c c'
        → Stands required (xml.attribute e name)
          × (((xml.attribute e name ≡ []) × (c' ≡ c))
              ⊎ ((xml.attribute e name ≢ [])
                  × ((a : A) × (convert (xml.attribute e name) ≡ inr a) × (c' ≡ put a c))))
    unfolding read_with get_attribute
    read_with-Runs required h = go required (xml.attribute e name) h
      where
        go :
            (required : Bool) (val : Bytes)
            → (let (fault, v, found) = check_value xml e name required val in
                assign_found xml put fault found (convert v) c ≡ (none, c'))
            → Stands required val
              × (((val ≡ []) × (c' ≡ c))
                  ⊎ ((val ≢ []) × ((a : A) × (convert val ≡ inr a) × (c' ≡ put a c))))
        go true [] h = cc
        go false [] h = (tt, inl (refl, cc))
        go true (x ∷ val) h = (λ e. cc, inr (λ e. cc, assign-Runs val (convert (x ∷ val)) h))
        go false (x ∷ val) h = (tt, inr (λ e. cc, assign-Runs val (convert (x ∷ val)) h))

  switch-eq-inr :
      (e : E) (name text : Bytes) (t : Truth) (v : Bool)
      → switch xml e name text t ≡ inr v
      → t ≡ (if v then truly else falsely)
  switch-eq-inr e name text truly v h = ground arith
  switch-eq-inr e name text falsely v h = ground arith
  switch-eq-inr e name text neither v h = cc

  to_bool-eq-inr :
      (e : E) (name text : Bytes) (v : Bool)
      → to_bool xml e name text ≡ inr v
      → parse_truth text ≡ (if v then truly else falsely)
  unfolding to_bool
  to_bool-eq-inr e name text v h = switch-eq-inr e name text _ v h

  to_uint-eq-inr :
      (int64_of : Bytes → Option ℕ) (width : ℕ) (text : Bytes) (v : ℕ)
      → to_uint xml int64_of width text ≡ inr v
      → (n : ℕ) × (int64_of text ≡ some n) × (v ≡ n % 2 ^ width)
  unfolding to_uint
  to_uint-eq-inr int64_of width text v h = go (int64_of text) h
    where
      go :
          (o : Option ℕ)
          → narrow xml int64_of width text o ≡ inr v
          → (n : ℕ) × (o ≡ some n) × (v ≡ n % 2 ^ width)
      go none h = cc
      go (some n) h = (n, refl, cc)

  -- A member that holds `old`, and is set to it again, has not changed.
  module _ (e : E) (name : Bytes) (required : Bool) (c c' : FibpConfig) where
    pub read_bool-Runs :
        (put : Bool → FibpConfig → FibpConfig) (old : Bool)
        → put old c ≡ c
        → Runs (read_bool xml e name required put) c c'
        → Stands required (xml.attribute e name)
          × ((v : Bool) × HoldsBool (xml.attribute e name) old v × (c' ≡ put v c))
    unfolding read_bool
    read_bool-Runs put old keeps h =
        let (s, r) = read_with-Runs put (to_bool xml e name) e name c c' required h in
        (s, go (xml.attribute e name) r)
      where
        go :
            (val : Bytes)
            → ((val ≡ []) × (c' ≡ c))
              ⊎ ((val ≢ []) × ((v : Bool) × (to_bool xml e name val ≡ inr v) × (c' ≡ put v c)))
            → (v : Bool) × HoldsBool val old v × (c' ≡ put v c)
        go [] (inl (h0, h1)) = (old, refl, h1 ∙ sym keeps)
        go (x ∷ val) (inl (h0, h1)) = cc
        go [] (inr (h0, r)) = absurd (h0 refl)
        go (x ∷ val) (inr (h0, (v, r, h1))) = (v, to_bool-eq-inr e name (x ∷ val) v r, h1)

    pub read_uint-Runs :
        (int64_of : Bytes → Option ℕ) (width : ℕ) (put : ℕ → FibpConfig → FibpConfig) (old : ℕ)
        → put old c ≡ c
        → Runs (read_uint xml int64_of width e name required put) c c'
        → Stands required (xml.attribute e name)
          × ((v : ℕ) × HoldsUint int64_of width (xml.attribute e name) old v × (c' ≡ put v c))
    unfolding read_uint
    read_uint-Runs int64_of width put old keeps h =
        let (s, r) = read_with-Runs put (to_uint xml int64_of width) e name c c' required h in
        (s, go (xml.attribute e name) r)
      where
        go :
            (val : Bytes)
            → ((val ≡ []) × (c' ≡ c))
              ⊎ ((val ≢ []) × ((v : ℕ) × (to_uint xml int64_of width val ≡ inr v) × (c' ≡ put v c)))
            → (v : ℕ) × HoldsUint int64_of width val old v × (c' ≡ put v c)
        go [] (inl (h0, h1)) = (old, refl, h1 ∙ sym keeps)
        go (x ∷ val) (inl (h0, h1)) = cc
        go [] (inr (h0, r)) = absurd (h0 refl)
        go (x ∷ val) (inr (h0, (v, r, h1))) = (v, to_uint-eq-inr int64_of width (x ∷ val) v r, h1)
