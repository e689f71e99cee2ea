-- ===== src/PortForward/Consistent.antt =====
-- The tables of the watching fiber and of the port manager agree.
use fiberproxy.Prelude.{
  ℕ, Bool, true, false, List, [], ◌∷◌, Option, none, some, ◌≡◌, ◌≢◌, refl, sym, ap, ◌∙◌, subst,
  arith, Bytes, bytes_eq, bytes_eq_iff, ◌==◌, ==_iff, if◌then◌else◌, Bool-cases, Option-cases, inl,
  inr, length, leb, take, lookup, insert, erase, bytes_key, nat_key, lookup-insert, lookup-erase,
}
use fiberproxy.Types.{ForwardInfo}
use fiberproxy.PortForward.{
  PortForwardMgr, get_forward_service, update_forward_service, start_server, start_port_forward,
  stop_port_forward,
}
use fiberproxy.PortForward.Keys.{
  ServiceInfo, ForwardWatcher, unique_text, key_info, use_service, handle_key, handle_keys,
  stop_port, stop_unused, forward_round, agent_id_len, clear_agents,
}

module _ (text : ℕ → Bytes) (fetch : Bytes → Option (List Bytes)) (new_port : List (ℕ × ℕ) → ℕ)
    (unused : (servers : List (ℕ × ℕ)) → lookup (new_port servers) servers ≡ none) where
  -- The port is forwarded to the service of this name, and a server listens there.
  pub record Forwards (m : PortForwardMgr) (unique : Bytes) (port : ℕ) : Type 0 where
    pub info : ForwardInfo
    pub server : ℕ
    pub registered : get_forward_service port m ≡ some info
    pub same : unique_text text fetch new_port info.service_name info.service_type ≡ unique
    pub listens : lookup port m.forward_server_list ≡ some server

  -- The port that the fiber has for a service is forwarded to that service.
  abbrev pub Consistent : List (Bytes × ℕ) → PortForwardMgr → Type 0
  Consistent ports m = (u : Bytes) (port : ℕ) → lookup u ports ≡ some port → Forwards m u port

  start-Forwards :
      (m : PortForwardMgr) (name : Bytes) (type : ℕ) (port : ℕ)
      → Forwards
          (start_port_forward port name type m)
          (unique_text text fetch new_port name type)
          port
  unfolding start_port_forward update_forward_service start_server get_forward_service
  start-Forwards m name type port = record {
    info = record { service_name = name; service_type = type; port = port };
    server = port;
    registered =
        lookup-insert port port _ m.forward_service_list ∙ ground (arith, ==_iff port port);
    same = refl;
    listens = lookup-insert port port port m.forward_server_list ∙ ground (arith, ==_iff port port);
  }

  start_kept :
      (m : PortForwardMgr) (name u : Bytes) (type new port : ℕ)
      → lookup new m.forward_server_list ≡ none
      → Forwards m u port
      → Forwards (start_port_forward new name type m) u port
  unfolding start_port_forward update_forward_service start_server get_forward_service
  start_kept m name u type new port free f = record {
    info = f.info;
    server = f.server;
    registered =
        lookup-insert new port _ m.forward_service_list
        ∙ ground (arith, ==_iff new port, f.registered, f.listens);
    same = f.same;
    listens =
        lookup-insert new port new m.forward_server_list
        ∙ ground (arith, ==_iff new port, f.listens);
  }

  use_service-Consistent :
      (agentid : Bytes) (si : ServiceInfo) (w : ForwardWatcher)
      → Consistent w.service_port_map w.mgr
      → Consistent
          (use_service text fetch new_port agentid si w).service_port_map
          (use_service text fetch new_port agentid si w).mgr
  unfolding use_service
  use_service-Consistent agentid si w v =
      elim (Option-cases
        (lookup (unique_text text fetch new_port si.service_name si.type) w.service_port_map)) [
          | inr (port, e) ↦ rw (e, use_service) v
          | inl e ↦ rw (e, use_service) started
        ]
    where
      unique : Bytes
      unique = unique_text text fetch new_port si.service_name si.type

      port : ℕ
      port = new_port w.mgr.forward_server_list

      started :
          Consistent
            (insert unique port w.service_port_map)
            (start_port_forward port si.service_name si.type w.mgr)
      started u p e = go (sym (lookup-insert unique u port w.service_port_map) ∙ e)
        where
          go :
              (if bytes_eq unique u then some port else lookup u w.service_port_map) ≡ some p
              → Forwards (start_port_forward port si.service_name si.type w.mgr) u p
          go q = elim (Bool-cases (bytes_eq unique u)) [
            | inl here ↦
                subst (λ x. Forwards (start_port_forward port si.service_name si.type w.mgr) x p)
                  ((bytes_eq_iff unique u).0 here)
                  (subst
                    (λ y. Forwards (start_port_forward port si.service_name si.type w.mgr) unique y)
                    (ground arith) (start-Forwards w.mgr si.service_name si.type port))
            | inr there ↦
                start_kept w.mgr si.service_name u si.type port p (unused w.mgr.forward_server_list)
                  (v u p (rw there at q))
          ]

  handle_key-Consistent :
      (key : Bytes) (s : ForwardWatcher × List (Bytes × ServiceInfo))
      → Consistent s.0.service_port_map s.0.mgr
      → Consistent
          (handle_key text fetch new_port key s).0.service_port_map
          (handle_key text fetch new_port key s).0.mgr
  unfolding handle_key
  handle_key-Consistent key (w, new_keys) v = elim (Bool-cases (leb (length key) agent_id_len)) [
    | inl short ↦ rw short v
    | inr long ↦ elim (Option-cases (key_info text fetch new_port key w)) [
      | inl e ↦ rw (long, e, handle_key) v
      | inr (si, e) ↦
          rw (long, e, handle_key) (use_service-Consistent (take agent_id_len key) si w v)
    ]
  ]

  handle_keys-Consistent :
      (keys : List Bytes) (s : ForwardWatcher × List (Bytes × ServiceInfo))
      → Consistent s.0.service_port_map s.0.mgr
      → Consistent
          (handle_keys text fetch new_port keys s).0.service_port_map
          (handle_keys text fetch new_port keys s).0.mgr
  unfolding handle_keys
  handle_keys-Consistent [] s v = v
  handle_keys-Consistent (key ∷ keys) s v =
      handle_keys-Consistent keys (handle_key text fetch new_port key s)
        (handle_key-Consistent key s v)

  -- Another port keeps what it forwards to.
  stop_kept :
      (m : PortForwardMgr) (u : Bytes) (stopped port : ℕ)
      → stopped ≢ port
      → Forwards m u port
      → Forwards (stop_port_forward stopped m) u port
  unfolding stop_port_forward get_forward_service
  stop_kept m u stopped port ne f = elim (Option-cases (lookup stopped m.forward_server_list)) [
    | inl e ↦ rw (e, stop_port_forward) f
    | inr (server, e) ↦
        rw (e, stop_port_forward)
          (record {
            info = f.info;
            server = f.server;
            registered =
                lookup-erase stopped port m.forward_service_list
                ∙ ground (arith, ==_iff stopped port, f.registered);
            same = f.same;
            listens =
                lookup-erase stopped port m.forward_server_list
                ∙ ground (arith, ==_iff stopped port, f.listens);
          })
  ]

  stop_port-Consistent :
      (port : ℕ) (w : ForwardWatcher)
      → Consistent w.service_port_map w.mgr
      → Consistent
          (stop_port text fetch new_port port w).service_port_map
          (stop_port text fetch new_port port w).mgr
  unfolding stop_port
  stop_port-Consistent port w v = go (get_forward_service port w.mgr) refl
    where
      go :
          (o : Option ForwardInfo)
          → get_forward_service port w.mgr ≡ o
          → Consistent
              (elim o as (λ _. List (Bytes × ℕ)) [
                | none ↦ w.service_port_map
                | some info ↦
                    erase
                      (unique_text text fetch new_port info.service_name info.service_type)
                      w.service_port_map
              ])
              (stop_port_forward port w.mgr)
      go none q u p e =
          let f = v u p e in
          stop_kept w.mgr u port p
            (λ x.
              let r : get_forward_service port w.mgr ≡ some f.info =
                ap (λ i. get_forward_service i w.mgr) x ∙ f.registered in
              cc)
            f
      go (some info) q u p e = erased (sym (lookup-erase unique u w.service_port_map) ∙ e)
        where
          unique : Bytes
          unique = unique_text text fetch new_port info.service_name info.service_type

          other_port : bytes_eq unique u ≡ false → (f : Forwards w.mgr u p) → port ≢ p
          other_port there f x =
              let r : get_forward_service port w.mgr ≡ some f.info =
                ap (λ i. get_forward_service i w.mgr) x ∙ f.registered in
              let i : info ≡ f.info = cc in
              let t : unique ≡ u =
                ap (λ j. unique_text text fetch new_port j.service_name j.service_type) i
                ∙ f.same in
              ground (arith, bytes_eq_iff unique u)

          erased :
              (if bytes_eq unique u then none else lookup u w.service_port_map) ≡ some p
              → Forwards (stop_port_forward port w.mgr) u p
          erased e = elim (Bool-cases (bytes_eq unique u)) [
            | inl here ↦ absurd (let n : none ≡ some p = rw here at e in cc)
            | inr there ↦
                let f = v u p (rw there at e) in stop_kept w.mgr u port p (other_port there f) f
          ]

  stop_unused-Consistent :
      (l : List (ℕ × List Bytes)) (w : ForwardWatcher)
      → Consistent w.service_port_map w.mgr
      → Consistent
          (stop_unused text fetch new_port l w).service_port_map
          (stop_unused text fetch new_port l w).mgr
  unfolding stop_unused
  stop_unused-Consistent [] w v = v
  stop_unused-Consistent ((port, agents) ∷ l) w v =
      stop_unused-Consistent l
        (if length agents == 0 then stop_port text fetch new_port port w else w)
        (go (length agents == 0))
    where
      go :
          (empty : Bool)
          → let w' = if empty then stop_port text fetch new_port port w else w in
            Consistent w'.service_port_map w'.mgr
      go true = stop_port-Consistent port w v
      go false = v

  -- Provided the system binds a port on which no server of the program listens: whatever consul
  -- answers, behind each round the port that the fiber keeps for a service has a server and is
  -- forwarded to that service, if it was so before.
  pub forward_round-Consistent :
      (answer : Option (List Bytes)) (w : ForwardWatcher)
      → Consistent w.service_port_map w.mgr
      → Consistent
          (forward_round text fetch new_port answer w).service_port_map
          (forward_round text fetch new_port answer w).mgr
  unfolding forward_round
  forward_round-Consistent none w v = v
  forward_round-Consistent (some []) w v = v
  forward_round-Consistent (some (key ∷ keys)) w v =
      let s =
        handle_keys text fetch new_port (key ∷ keys)
          (record w { last_ports = clear_agents w.last_ports }, []) in
      stop_unused-Consistent s.0.last_ports (record (s.0) { previous_keys = s.1 })
        (handle_keys-Consistent (key ∷ keys)
          (record w { last_ports = clear_agents w.last_ports }, []) v)
