-- ===== src/ServiceMgr/Balance.antt =====
-- source/core/forward-manager/FibpServiceMgr.cpp, get_service_address: the choice among the hosts of
-- a service, by a counter that the callers advance. The code's counter is a std::size_t; the callers
-- start it at rand(), below 2^31, and take a few steps, so that it never wraps.
use fiberproxy.Prelude.{
  ℕ, zero, suc, ◌%◌, true, List, [], ◌∷◌, Option, none, some, Bytes, ◌≡◌, refl, sym, ◌∙◌, arith,
  length, get_elem?, get_elem?-lt, contains, pair_key, pair_eq_iff, lookup, bytes_key,
}
use native.Mathlib.Nat.{mod-lt}
use fiberproxy.ServiceMgr.{
  HostPair, HostMap, ServiceMgr, service_key, pick, find_address, get_service_address,
}

-- A choice among some hosts is one of them.
pick-some :
    (b : ℕ) (h : HostPair) (hs : List HostPair) → (p : HostPair) × (pick b (h ∷ hs) ≡ some p)
unfolding pick
pick-some b h hs = get_elem?-lt (h ∷ hs) (b % length (h ∷ hs)) (mod-lt b (omega arith))

contains-get_elem? :
    (hs : List HostPair) (i : ℕ) (p : HostPair) → get_elem? hs i ≡ some p → contains p hs ≡ true
unfolding contains
contains-get_elem? [] i p e = cc
contains-get_elem? (x ∷ hs) zero p e = ground (arith, pair_eq_iff x p)
contains-get_elem? (x ∷ hs) (suc i) p e = ground (arith, contains-get_elem? hs i p)

find_address-contains :
    (b : ℕ) (o : Option (List HostPair)) (p : HostPair)
    → find_address b o ≡ some p
    → (hs : List HostPair) × (o ≡ some hs) × (contains p hs ≡ true)
unfolding find_address pick
find_address-contains b none p e = cc
find_address-contains b (some []) p e = cc
find_address-contains b (some (h ∷ hs)) p e =
    (h ∷ hs, refl, contains-get_elem? (h ∷ hs) (b % length (h ∷ hs)) p e)

module _ (m : ServiceMgr) (name : Bytes) (type : ℕ) (table : HostMap)
    (has_table : get_elem? m.reg_service_host_info type ≡ some table) where
  abbrev key : Bytes
  key = service_key name m.cur_cluster_name

  get_service_address_table :
      (b : ℕ) → get_service_address m b name type ≡ find_address b (lookup key table)
  unfolding get_service_address
  get_service_address_table b = rw (has_table, get_service_address)

  -- An address that is given is one of the hosts of the service in the current cluster.
  pub get_service_address-contains :
      (b : ℕ) (p : HostPair)
      → get_service_address m b name type ≡ some p
      → (hs : List HostPair) × (lookup key table ≡ some hs) × (contains p hs ≡ true)
  get_service_address-contains b p e =
      find_address-contains b (lookup key table) p (sym (get_service_address_table b) ∙ e)
