-- ===== src/PortForward/Agents.antt =====
-- The ports that an agent is told.
use fiberproxy.Prelude.{
  ==_iff, ℕ, Bool, true, false, List, [], ◌∷◌, Option, none, some, ◌≡◌, refl, sym, ◌∙◌, subst,
  arith, Bytes, bytes_eq, bytes_eq_iff, ◌==◌, if◌then◌else◌, ◌||◌, Bool-cases, inl, inr, length,
  contains, add, contains-add, lookup, lookup_or, insert, bytes_key, nat_key, lookup-insert,
}
use mathlib.Core.List.{Memᴰ}
use fiberproxy.Types.{ForwardInfo}
use fiberproxy.PortForward.{PortForwardMgr, get_forward_service}
use fiberproxy.PortForward.Keys.{
  ServiceInfo, ForwardWatcher, get_related_forward_ports, get_all_port_forward_services,
  forward_services, use_port, use_ports, use_service, handle_key, handle_keys, stop_port,
  stop_unused, forward_round, clear_agents,
}

abbrev ports : Bytes → List (Bytes × List ℕ) → List ℕ
ports agentid used = lookup_or agentid [] used

use_port-kept :
    (agentid : Bytes) (p port : ℕ) (agents : List Bytes) (used : List (Bytes × List ℕ))
    → contains p (ports agentid used) ≡ true
    → contains p (ports agentid (use_port port agents used)) ≡ true
unfolding use_port
use_port-kept agentid p port [] used h = h
use_port-kept agentid p port (a ∷ agents) used h =
    use_port-kept agentid p port agents (insert a (add port (ports a used)) used) (
      kept (lookup agentid (insert a (add port (ports a used)) used))
        (lookup-insert a agentid (add port (ports a used)) used))
  where
    kept :
        (o : Option (List ℕ))
        → o ≡ (if bytes_eq a agentid then some (add port (ports a used)) else lookup agentid used)
        → contains p (elim o as (λ _. List ℕ) [ none ↦ [] | some l ↦ l ]) ≡ true
    kept o e =
        subst (λ o. contains p (elim o as (λ _. List ℕ) [ none ↦ [] | some l ↦ l ]) ≡ true) (sym e)
          (elim (Bool-cases (bytes_eq a agentid)) [
            | inl same ↦ rw same (contains-add port p (ports a used) ∙ had same)
            | inr other ↦ rw other h
          ])
      where
        had : bytes_eq a agentid ≡ true → (port == p || contains p (ports a used)) ≡ true
        had same =
            let there : contains p (ports a used) ≡ true =
              subst (λ b. contains p (ports b used) ≡ true) (sym ((bytes_eq_iff a agentid).0 same))
                h in
            ground arith

use_ports-kept :
    (agentid : Bytes) (p : ℕ) (l : List (ℕ × List Bytes)) (used : List (Bytes × List ℕ))
    → contains p (ports agentid used) ≡ true
    → contains p (ports agentid (use_ports l used)) ≡ true
unfolding use_ports
use_ports-kept agentid p [] used h = h
use_ports-kept agentid p ((port, agents) ∷ l) used h =
    use_ports-kept agentid p l (use_port port agents used)
      (use_port-kept agentid p port agents used h)

forward_services-Memᴰ :
    (ps : List ℕ) (m : PortForwardMgr) (p : ℕ) (info : ForwardInfo)
    → contains p ps ≡ true
    → get_forward_service p m ≡ some info
    → Memᴰ info (forward_services ps m)
unfolding forward_services contains
forward_services-Memᴰ [] m p info h e = cc
forward_services-Memᴰ (q ∷ ps) m p info h e = elim (Bool-cases (q == p)) [
  | inl same ↦
      subst (λ q. Memᴰ info (forward_services (q ∷ ps) m)) (sym ((==_iff q p).0 same)) first
  | inr other ↦
      behind (get_forward_service q m) (forward_services-Memᴰ ps m p info (rw other at h) e)
]
  where
    first : Memᴰ info (forward_services (p ∷ ps) m)
    first = rw (e, forward_services) (Memᴰ.head refl)

    behind :
        (o : Option ForwardInfo)
        → Memᴰ info (forward_services ps m)
        → Memᴰ info (elim o as (λ _. List ForwardInfo) [
          | none ↦ forward_services ps m
          | some i ↦ i ∷ forward_services ps m
        ])
    behind none k = k
    behind (some i) k = Memᴰ.tail k

-- An agent is told each of its ports that is forwarded.
told :
    (agentid : Bytes) (w : ForwardWatcher) (p : ℕ) (info : ForwardInfo)
    → contains p (get_related_forward_ports agentid w) ≡ true
    → get_forward_service p w.mgr ≡ some info
    → Memᴰ info (get_all_port_forward_services agentid w)
unfolding get_all_port_forward_services
told agentid w p info h e =
    forward_services-Memᴰ (get_related_forward_ports agentid w) w.mgr p info h e

module _ (text : ℕ → Bytes) (fetch : Bytes → Option (List Bytes))
    (new_port : List (ℕ × ℕ) → ℕ) where
  handle_keys-used :
      (keys : List Bytes) (s : ForwardWatcher × List (Bytes × ServiceInfo))
      → (handle_keys text fetch new_port keys s).0.ports_used_by_agent ≡ s.0.ports_used_by_agent
  unfolding handle_keys handle_key use_service
  handle_keys-used [] s = refl
  handle_keys-used (key ∷ keys) s =
      handle_keys-used keys (handle_key text fetch new_port key s) ∙ ground arith

  stop_unused-used :
      (l : List (ℕ × List Bytes)) (w : ForwardWatcher)
      → (stop_unused text fetch new_port l w).ports_used_by_agent ≡ w.ports_used_by_agent
  unfolding stop_unused stop_port
  stop_unused-used [] w = refl
  stop_unused-used ((port, agents) ∷ l) w =
      stop_unused-used l (if length agents == 0 then stop_port text fetch new_port port w else w)
      ∙ go (length agents == 0)
    where
      go :
          (empty : Bool)
          → (if empty then stop_port text fetch new_port port w else w).ports_used_by_agent
            ≡ w.ports_used_by_agent
      go true = refl
      go false = refl

  -- A port that stands among those of an agent stands there behind every round.
  forward_round-never_forgets :
      (answer : Option (List Bytes)) (w : ForwardWatcher) (agentid : Bytes) (p : ℕ)
      → contains p (get_related_forward_ports agentid w) ≡ true
      → contains p (get_related_forward_ports agentid (forward_round text fetch new_port answer w))
        ≡ true
  unfolding forward_round get_related_forward_ports
  forward_round-never_forgets none w agentid p h = h
  forward_round-never_forgets (some []) w agentid p h = h
  forward_round-never_forgets (some (key ∷ keys)) w agentid p h =
      let s =
        handle_keys text fetch new_port (key ∷ keys)
          (record w { last_ports = clear_agents w.last_ports }, []) in
      let w₂ =
        stop_unused text fetch new_port s.0.last_ports (record (s.0) { previous_keys = s.1 }) in
      use_ports-kept agentid p w₂.last_ports w₂.ports_used_by_agent (
        subst (λ used. contains p (ports agentid used) ≡ true)
          (sym (
            stop_unused-used s.0.last_ports (record (s.0) { previous_keys = s.1 })
            ∙ handle_keys-used (key ∷ keys)
                (record w { last_ports = clear_agents w.last_ports }, [])))
          h)

  -- An agent is told every service that is forwarded at a port it has once used: when a port stands
  -- among those of an agent and, behind a round of the watching fiber, forwards a service, the
  -- service is among those that the agent is told then, be it another service than the agent asked
  -- for and the agent's key withdrawn.
  pub forward_round-tells_again :
      (answer : Option (List Bytes)) (w : ForwardWatcher) (agentid : Bytes) (p : ℕ)
      (info : ForwardInfo)
      → contains p (get_related_forward_ports agentid w) ≡ true
      → get_forward_service p (forward_round text fetch new_port answer w).mgr ≡ some info
      → Memᴰ info
          (get_all_port_forward_services agentid (forward_round text fetch new_port answer w))
  forward_round-tells_again answer w agentid p info h e =
      told agentid (forward_round text fetch new_port answer w) p info
        (forward_round-never_forgets answer w agentid p h) e
