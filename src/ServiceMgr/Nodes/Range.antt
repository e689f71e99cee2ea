-- ===== src/ServiceMgr/Nodes/Range.antt =====
-- The type of a node that is kept is an index of the tables: `node_list[type]` is in bounds.
use fiberproxy.Prelude.{
  ◌<◌, List, [], ◌∷◌, Option, none, some, Bytes, ◌≡◌, arith, bytes_eq, codes, Bool-cases, inl, inr,
  Option-cases, not, if◌then◌else◌,
}
use fiberproxy.Types.{custom_service, end_service}
use fiberproxy.Json.{Json}
use fiberproxy.ServiceMgr.Parse.{
  Node, new_node, read_tag, to_lower, read_tags, read_service_member, read_service_members,
  default_tag, parse_service_info, read_node_member, read_node_members, read_node,
  parse_service_node_info,
}

abbrev InRange : Node → Type 0
InRange n = n.service_type < end_service

abbrev MaybeInRange : Option Node → Type 0
MaybeInRange none = Unit {0}
MaybeInRange (some n) = InRange n

read_tag-InRange : (tag : Bytes) (n : Node) → InRange n → InRange (read_tag tag n)
unfolding read_tag
read_tag-InRange tag n h = ground arith

module _ {J : Type 0} (json : Json J) where
  read_tags-InRange : (ts : List J) (n : Node) → InRange n → InRange (read_tags json ts n)
  unfolding read_tags
  read_tags-InRange [] n h = h
  read_tags-InRange (t ∷ ts) n h =
      read_tags-InRange ts _ (read_tag-InRange (to_lower (json.get_string t)) n h)

  read_service_member-InRange :
      (key : Bytes) (v : J) (n : Node) → InRange n → InRange (read_service_member json key v n)
  unfolding read_service_member
  read_service_member-InRange key v n h = ground (arith, read_tags-InRange (json.elements v) n h)

  read_service_members-InRange :
      (ms : List (Bytes × J)) (n : Node) → InRange n → InRange (read_service_members json ms n)
  unfolding read_service_members
  read_service_members-InRange [] n h = h
  read_service_members-InRange ((key, v) ∷ ms) n h =
      read_service_members-InRange ms _ (read_service_member-InRange key v n h)

  default_tag-InRange : (n : Node) → InRange n → InRange (default_tag json n)
  unfolding default_tag
  default_tag-InRange n h = ground arith

  parse_service_info-InRange : (v : J) (n : Node) → MaybeInRange (parse_service_info json v n)
  unfolding parse_service_info
  parse_service_info-InRange v n =
      let cleared : Node = record n {
        service_type = custom_service;
        service_tags = [];
        service_name = [];
      } in
      let start : InRange cleared = omega arith in
      elim (Bool-cases (json.is_object v)) [
        | inl object ↦ rw object (
            default_tag-InRange (read_service_members json (json.members v) cleared)
              (read_service_members-InRange (json.members v) cleared start))
        | inr other ↦ rw other tt
      ]

  read_node_member-InRange :
      (key : Bytes) (v : J) (n : Node) → InRange n → MaybeInRange (read_node_member json key v n)
  unfolding read_node_member
  read_node_member-InRange key v n h = elim (Bool-cases (bytes_eq key (codes "Node"))) [
    | inl node ↦ rw node (elim (Option-cases (parse_service_node_info json v)) [
      | inl e ↦ rw (e, read_node_member) tt
      | inr (host, e) ↦ rw (e, read_node_member) h
    ])
    | inr other ↦ rw other (elim (Bool-cases (bytes_eq key (codes "Service"))) [
      | inl service ↦ rw service (parse_service_info-InRange v n)
      | inr neither ↦ rw neither (elim (Bool-cases (bytes_eq key (codes "Checks"))) [
        | inl checks ↦ rw checks h
        | inr no_key ↦ rw no_key h
      ])
    ])
  ]

  read_node_members-InRange :
      (ms : List (Bytes × J)) (n : Node) → InRange n → MaybeInRange (read_node_members json ms n)
  unfolding read_node_members
  read_node_members-InRange [] n h = h
  read_node_members-InRange ((key, v) ∷ ms) n h =
      go (read_node_member json key v n) (read_node_member-InRange key v n h)
        (λ n' h'. read_node_members-InRange ms n' h')
    where
      go :
          (o : Option Node)
          → MaybeInRange o
          → ((n' : Node) → InRange n' → MaybeInRange (read_node_members json ms n'))
          → MaybeInRange (elim o [ none ↦ none | some n' ↦ read_node_members json ms n' ])
      go none h rest = tt
      go (some n') h rest = rest n' h

  -- Each node that is kept has one of the service types, so that its table exists.
  pub read_node-in_range :
      (v : J) (n : Node) → read_node json v ≡ some n → n.service_type < end_service
  unfolding read_node
  read_node-in_range v n e =
      go (read_node_members json (json.members v) new_node)
        (read_node_members-InRange (json.members v) new_node (omega arith)) e
    where
      go :
          (o : Option Node)
          → MaybeInRange o
          → elim o as (λ _. Option Node) [
            | none ↦ none
            | some n ↦ if not n.is_passing then none else some n
          ]
            ≡ some n
          → n.service_type < end_service
      go none h e = cc
      go (some n') h e = ground arith
