-- ===== src/ServiceMgr/Nodes/Passing.antt =====
-- Which nodes of an answer pass their checks, told of the answer itself and not of the loops that
-- read it in source/core/forward-manager/FibpServiceMgr.cpp.
use fiberproxy.Prelude.{
  Bool, true, false, ◌&&◌, ◌||◌, not, List, [], ◌∷◌, Option, none, some, Bytes, codes, bytes_eq,
  ◌≡◌, refl, sym, ◌∙◌, subst, bytes_eq_iff, arith, any, all, if◌then◌else◌, Bool-cases, inl, inr,
}
use fiberproxy.Types.{custom_service}
use fiberproxy.Json.{Json}
use fiberproxy.ServiceMgr.Parse.{
  Node, new_node, parse_service_node_info, parse_service_info, default_tag, check_passing,
  checks_passing, parse_service_check_info, read_service_members, read_service_member, read_tags,
  read_tag, read_node_member, read_node_members, read_node,
}

module _ {J : Type 0} (json : Json J) where
  open json use {is_array, members, elements, get_string}

  -- a member "Status" with another value than "passing"
  abbrev pub tells_failure : Bytes × J → Bool
  tells_failure (name, v) =
      bytes_eq name (codes "Status") && not (bytes_eq (get_string v) (codes "passing"))

  -- No check of the list tells of a failure; a value that is no list has no checks.
  abbrev pub checks_pass : J → Bool
  checks_pass v = not (is_array v) || all (λ c. not (any tells_failure (members c))) (elements v)

  -- the last member of the name
  abbrev pub last_member : Bytes → List (Bytes × J) → Option J
  last_member name [] = none
  last_member name ((key, v) ∷ ms) = elim (last_member name ms) [
    | some w ↦ some w
    | none ↦ if bytes_eq key name then some v else none
  ]

  abbrev pub or_checks : Bool → Option J → Bool
  or_checks b none = b
  or_checks b (some v) = checks_pass v

  -- A node passes when it has checks, and the last of them pass.
  abbrev pub passes : J → Bool
  passes v = or_checks false (last_member (codes "Checks") (members v))

  -- What the members of a node give, whatever its checks say.
  abbrev pub gathered : J → Option Node
  gathered v = read_node_members json (members v) new_node

  check_passing-eq : (ms : List (Bytes × J)) → check_passing json ms ≡ not (any tells_failure ms)
  unfolding check_passing
  check_passing-eq [] = refl
  check_passing-eq ((name, v) ∷ ms) = ground (arith, check_passing-eq ms)

  checks_passing-eq :
      (cs : List J) → checks_passing json cs ≡ all (λ c. not (any tells_failure (members c))) cs
  unfolding checks_passing
  checks_passing-eq [] = refl
  checks_passing-eq (c ∷ cs) = ground (arith, check_passing-eq (members c), checks_passing-eq cs)

  parse_service_check_info-eq : (v : J) → parse_service_check_info json v ≡ checks_pass v
  unfolding parse_service_check_info
  parse_service_check_info-eq v = ground (arith, checks_passing-eq (elements v))

  read_tag-is_passing : (tag : Bytes) (n : Node) → (read_tag tag n).is_passing ≡ n.is_passing
  unfolding read_tag
  read_tag-is_passing tag n = ground arith

  read_tags-is_passing : (ts : List J) (n : Node) → (read_tags json ts n).is_passing ≡ n.is_passing
  unfolding read_tags
  read_tags-is_passing [] n = refl
  read_tags-is_passing (t ∷ ts) n = read_tags-is_passing ts _ ∙ read_tag-is_passing _ n

  read_service_member-is_passing :
      (key : Bytes) (v : J) (n : Node)
      → (read_service_member json key v n).is_passing ≡ n.is_passing
  unfolding read_service_member
  read_service_member-is_passing key v n = ground (arith, read_tags-is_passing (elements v) n)

  read_service_members-is_passing :
      (ms : List (Bytes × J)) (n : Node)
      → (read_service_members json ms n).is_passing ≡ n.is_passing
  unfolding read_service_members
  read_service_members-is_passing [] n = refl
  read_service_members-is_passing ((key, v) ∷ ms) n =
      read_service_members-is_passing ms _ ∙ read_service_member-is_passing key v n

  default_tag-is_passing : (n : Node) → (default_tag json n).is_passing ≡ n.is_passing
  unfolding default_tag
  default_tag-is_passing n = ground arith

  -- What the node is to pass behind the members that are read.
  abbrev Reads : Bool → Option Node → Type 0
  Reads b none = Unit
  Reads b (some n) = n.is_passing ≡ b

  parse_service_info-Reads : (v : J) (n : Node) → Reads n.is_passing (parse_service_info json v n)
  unfolding parse_service_info
  parse_service_info-Reads v n = elim (Bool-cases (json.is_object v)) [
    | inl e ↦
        let n₁ : Node = record n {
          service_type = custom_service;
          service_tags = [];
          service_name = [];
        } in
        rw e (
          default_tag-is_passing (read_service_members json (members v) n₁)
          ∙ read_service_members-is_passing (members v) n₁)
    | inr e ↦ rw e tt
  ]

  abbrev checks_of : Bytes → J → Option J
  checks_of key v = if bytes_eq key (codes "Checks") then some v else none

  MemberReads : J → Node → Bytes → Type 0
  MemberReads v n key =
      Reads (or_checks n.is_passing (checks_of key v)) (read_node_member json key v n)

  node-MemberReads : (v : J) (n : Node) → MemberReads v n (codes "Node")
  unfolding MemberReads read_node_member bytes_eq
  node-MemberReads v n = go (parse_service_node_info json v)
    where
      go :
          (o : Option Bytes)
          → Reads n.is_passing
              (elim o as (λ _. Option Node) [ none ↦ none | some h ↦ some (record n { host = h }) ])
      go none = tt
      go (some h) = refl

  service-MemberReads : (v : J) (n : Node) → MemberReads v n (codes "Service")
  unfolding MemberReads read_node_member bytes_eq
  service-MemberReads v n = parse_service_info-Reads v n

  other-MemberReads :
      (key : Bytes) (v : J) (n : Node)
      → bytes_eq key (codes "Node") ≡ false
      → bytes_eq key (codes "Service") ≡ false
      → MemberReads v n key
  unfolding MemberReads read_node_member
  other-MemberReads key v n a b = elim (Bool-cases (bytes_eq key (codes "Checks"))) [
    | inl e ↦ rw (a, b, e) (parse_service_check_info-eq v)
    | inr e ↦ rw (a, b, e) refl
  ]

  read_node_member-Reads : (key : Bytes) (v : J) (n : Node) → MemberReads v n key
  read_node_member-Reads key v n = elim (Bool-cases (bytes_eq key (codes "Node"))) [
    | inl e ↦
        subst (MemberReads v n) (sym ((bytes_eq_iff key (codes "Node")).0 e)) (node-MemberReads v n)
    | inr a ↦ elim (Bool-cases (bytes_eq key (codes "Service"))) [
      | inl e ↦
          subst (MemberReads v n) (sym ((bytes_eq_iff key (codes "Service")).0 e))
            (service-MemberReads v n)
      | inr b ↦ other-MemberReads key v n a b
    ]
  ]

  read_node_members-Reads :
      (ms : List (Bytes × J)) (n : Node)
      → Reads
          (or_checks n.is_passing (last_member (codes "Checks") ms))
          (read_node_members json ms n)
  unfolding read_node_members MemberReads
  read_node_members-Reads [] n = refl
  read_node_members-Reads ((key, v) ∷ ms) n =
      go (read_node_member json key v n) (read_node_member-Reads key v n)
        (λ n'. read_node_members-Reads ms n')
    where
      later :
          (n' : Node) (o : Option J)
          → n'.is_passing ≡ or_checks n.is_passing (checks_of key v)
          → or_checks n'.is_passing o
            ≡ or_checks n.is_passing
                (elim o as (λ _. Option J) [ some w ↦ some w | none ↦ checks_of key v ])
      later n' none h = h
      later n' (some w) h = refl

      go :
          (r : Option Node)
          → Reads (or_checks n.is_passing (checks_of key v)) r
          → ((n' : Node)
              → Reads
                  (or_checks n'.is_passing (last_member (codes "Checks") ms))
                  (read_node_members json ms n'))
          → Reads
              (or_checks n.is_passing (last_member (codes "Checks") ((key, v) ∷ ms)))
              (elim r as (λ _. Option Node) [
                | none ↦ none
                | some n' ↦ read_node_members json ms n'
              ])
      go none h later_members = tt
      go (some n') h later_members =
          subst (λ b. Reads b (read_node_members json ms n'))
            (later n' (last_member (codes "Checks") ms) h) (later_members n')

  -- The code keeps the node exactly when it passes.
  pub read_node-eq : (v : J) → read_node json v ≡ (if passes v then gathered v else none)
  unfolding read_node
  read_node-eq v = go (passes v) (gathered v) (read_node_members-Reads (members v) new_node)
    where
      go :
          (b : Bool) (r : Option Node)
          → Reads b r
          → elim r as (λ _. Option Node) [
            | none ↦ none
            | some n ↦ if not n.is_passing then none else some n
          ]
            ≡ (if b then r else none)
      go true none h = refl
      go false none h = refl
      go true (some n) h = rw h refl
      go false (some n) h = rw h refl

  pub read_node_if :
      (v : J) (b : Bool) → passes v ≡ b → read_node json v ≡ (if b then gathered v else none)
  read_node_if v b e =
      subst (λ b. read_node json v ≡ (if b then gathered v else none)) e (read_node-eq v)
