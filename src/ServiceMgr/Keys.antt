-- ===== src/ServiceMgr/Keys.antt =====
-- The tables of FibpServiceMgr.cpp are std::maps: their keys rise, so that each stands once.
use fiberproxy.Prelude.{
  ℕ, zero, suc, List, [], ◌∷◌, Option, none, some, Bytes, bytes_key, All, Sorted, Sorted-insert,
  set, get_or, replicate,
}
use fiberproxy.Json.{Json}
use fiberproxy.ServiceMgr.{HostMap}
use fiberproxy.ServiceMgr.Parse.{Node, read_node}
use fiberproxy.ServiceMgr.Nodes.{add_tags, add_node, add_kept, add_nodes}

Sorted-add_tags :
    (n : Node) (tags : List Bytes) (table : HostMap) → Sorted table → Sorted (add_tags n tags table)
unfolding add_tags
Sorted-add_tags n [] table s = s
Sorted-add_tags n (tag ∷ tags) table s = Sorted-add_tags n tags _ (Sorted-insert _ _ table s)

All-set :
    (P : HostMap → Type 0) (ts : List HostMap) (i : ℕ) (t : HostMap)
    → All P ts
    → P t
    → All P (set ts i t)
All-set P [] i t h p = h
All-set P (x ∷ ts) zero t h p = (p, h.1)
All-set P (x ∷ ts) (suc i) t h p = (h.0, All-set P ts i t h.1 p)

pub All-get_or :
    (P : HostMap → Type 0) (ts : List HostMap) (i : ℕ) (d : HostMap)
    → All P ts
    → P d
    → P (get_or ts i d)
All-get_or P [] i d h p = p
All-get_or P (x ∷ ts) zero d h p = h.0
All-get_or P (x ∷ ts) (suc i) d h p = All-get_or P ts i d h.1 p

add_kept-Sorted :
    (o : Option Node) (node_list : List HostMap)
    → All Sorted node_list
    → All Sorted (add_kept o node_list)
unfolding add_kept add_node
add_kept-Sorted none node_list h = h
add_kept-Sorted (some n) node_list h =
    All-set Sorted node_list n.service_type _ h
      (Sorted-add_tags n n.service_tags _ (All-get_or Sorted node_list n.service_type [] h tt))

module _ {J : Type 0} (json : Json J) where
  add_nodes-Sorted :
      (vs : List J) (node_list : List HostMap)
      → All Sorted node_list
      → All Sorted (add_nodes json vs node_list)
  unfolding add_nodes
  add_nodes-Sorted [] node_list h = h
  add_nodes-Sorted (v ∷ vs) node_list h =
      add_nodes-Sorted vs _ (add_kept-Sorted (read_node json v) node_list h)

  pub tables-Sorted : (vs : List J) → All Sorted (add_nodes json vs (replicate 4 []))
  tables-Sorted vs = add_nodes-Sorted vs _ (tt, (tt, (tt, (tt, tt))))
