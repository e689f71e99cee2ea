-- ===== src/PortForward/Connect.antt =====
-- source/core/forward-manager/FibpPortForwardMgr.cpp, create_forward_connection: the host to which
-- a client of a forwarded port is connected.
use fiberproxy.Prelude.{
  ℕ, zero, suc, ◌+◌, ◌≤◌, Bool, true, false, ◌&&◌, List, [], ◌∷◌, Option, none, some, Bytes, ◌≡◌,
  refl, subst, arith, if◌then◌else◌, ◌==◌, length, lookup, nat_key, ◌⊎◌, inl, inr, Bool-cases,
  ==_iff,
}
use fiberproxy.Session.{Session, End, fine, failed, threw, is_fine, async_connect, shutdown}
use fiberproxy.Types.{ForwardInfo, custom_service, http_service}
use fiberproxy.ServiceMgr.{HostPair}
use fiberproxy.PortForward.{PortForwardMgr}

-- What becomes of the connection, with the hosts that were tried: not_supported, the error of the
-- last connect, or the host with the session of the client.
pub data Connection : Type 0 where
  not_supported connect_failed : Connection
  connected : HostPair → Session → Connection

-- How the connect to a host ends, whether the socket is open then, and whether its shutdown throws.
pub record Attempt : Type 0 where
  pub ending : End
  pub opened : Bool
  pub throws : Bool

-- a new ClientSession behind set_timeout(0, 0)
abbrev pub new_session : Session
new_session = record {
  is_open = false;
  receiving = false;
  connecting = false;
  deadline = false;
  conn_to = 0;
  read_to = 0;
  sent = [];
}

-- client->async_connect(): whether it returns no error, and the session then
abbrev pub connect : Attempt → Bool × Session
connect a = async_connect a.ending a.opened a.throws new_session

-- `address` is get_service_address with the balance index, name and type, and `attempts` tells how
-- the connect to a host ends, at the balance index of its round. The index is new in
-- each round, so that both may change while the fiber waits.
module _ (address : ℕ → Bytes → ℕ → Option HostPair) (attempts : ℕ → HostPair → Attempt) where
  -- the address for a round with its balance index, and a second look-up for a custom service
  unfoldable pub forward_address : ℕ → ForwardInfo → ℕ × Option HostPair
  forward_address balance_index info =
      let found = address (balance_index + 1) info.service_name info.service_type in
      let http = address (balance_index + 2) info.service_name http_service in
      elim found [
        | some h ↦ (balance_index + 1, some h)
        | none ↦
            if info.service_type == custom_service
            then (balance_index + 2, http)
            else (balance_index + 1, none)
      ]

  -- while(--retry > 0), with the rounds that are left
  unfoldable pub connect_loop : ℕ → ℕ → ForwardInfo → List HostPair → Connection × List HostPair
  connect_loop zero balance_index info tried = (connect_failed, tried)
  connect_loop (suc left) balance_index info tried =
      let (b, found) = forward_address balance_index info in
      elim found [
        | none ↦ (not_supported, tried)
        | some h ↦
            let rest = connect_loop left b info (h ∷ tried) in
            let (ok, client) = connect (attempts b h) in
            if ok then (connected h client, h ∷ tried) else rest
      ]

  -- `balance_index` is rand() % 1000; retry starts at 3, which allows two rounds
  unfoldable pub create_forward_connection : ℕ → ℕ → PortForwardMgr → Connection × List HostPair
  unfolding connect_loop
  create_forward_connection balance_index forward_port m =
      elim (lookup forward_port m.forward_service_list) [
        | none ↦ (not_supported, [])
        | some finfo ↦ connect_loop 2 balance_index finfo []
      ]

  -- The host is one that the registry has given for the service, under its type or, for a custom
  -- service, as an HTTP service.
  pub record Offered (info : ForwardInfo) (h : HostPair) : Type 0 where
    pub index : ℕ
    pub type : ℕ
    pub allowed :
        (type ≡ info.service_type) ⊎ ((info.service_type ≡ custom_service) × (type ≡ http_service))
    pub given : address index info.service_name type ≡ some h

  -- A client that is returned: its connect ended well or by an exception, and its socket is open
  -- only when it ended well.
  pub record Returned (a : Attempt) (client : Session) : Type 0 where
    pub no_error : (a.ending ≡ fine) ⊎ (a.ending ≡ threw)
    pub open_if : client.is_open ≡ (is_fine a.ending && a.opened)

  connect-Returned : (a : Attempt) → (connect a).0 ≡ true → Returned a (connect a).1
  unfolding async_connect shutdown
  connect-Returned a h = go a.ending a.opened a.throws h
    where
      go :
          (e : End) (opened throws : Bool)
          → let a : Attempt = record { ending = e; opened = opened; throws = throws } in
            (connect a).0 ≡ true → Returned a (connect a).1
      go fine true throws h = record { no_error = inl refl; open_if = refl }
      go fine false true h = record { no_error = inl refl; open_if = refl }
      go fine false false h = record { no_error = inl refl; open_if = refl }
      go (failed x) opened throws h = absurd (let n : false ≡ true = h in cc)
      go threw opened true h = record { no_error = inr refl; open_if = refl }
      go threw opened false h = record { no_error = inr refl; open_if = refl }

  -- What is shown of the loop's end.
  abbrev pub GoodEnd : ForwardInfo → ℕ → Connection × List HostPair → Type 0
  GoodEnd info n (not_supported, tried) = length tried ≤ n
  GoodEnd info n (connect_failed, tried) = length tried ≡ n
  GoodEnd info n (connected h client, tried) =
      (length tried ≤ n) × (Offered info h × ((b : ℕ) × Returned (attempts b h) client))

  forward_address-Offered :
      (b : ℕ) (info : ForwardInfo) (h : HostPair)
      → (forward_address b info).1 ≡ some h
      → Offered info h
  unfolding forward_address
  forward_address-Offered b info h e =
      go (address (b + 1) info.service_name info.service_type) refl e
    where
      go :
          (found : Option HostPair)
          → address (b + 1) info.service_name info.service_type ≡ found
          → (elim found as (λ _. ℕ × Option HostPair) [
            | some h ↦ (b + 1, some h)
            | none ↦
                if info.service_type == custom_service
                then (b + 2, address (b + 2) info.service_name http_service)
                else (b + 1, none)
          ]).1
            ≡ some h
          → Offered info h
      go (some x) q e = record {
        index = b + 1;
        type = info.service_type;
        allowed = inl refl;
        given = cc;
      }
      go none q e = elim (Bool-cases (info.service_type == custom_service)) [
        | inl custom ↦ record {
          index = b + 2;
          type = http_service;
          allowed = inr ((==_iff info.service_type custom_service).0 custom, refl);
          given = rw custom at e;
        }
        | inr other ↦ absurd (let n : none ≡ some h = rw other at e in cc)
      ]

  connect_loop-GoodEnd :
      (left b : ℕ) (info : ForwardInfo) (tried : List HostPair)
      → GoodEnd info (length tried + left) (connect_loop left b info tried)
  unfolding connect_loop
  connect_loop-GoodEnd zero b info tried = omega arith
  connect_loop-GoodEnd (suc left) b info tried =
      go (forward_address b info) (λ h e. forward_address-Offered b info h e)
        (λ i h. connect_loop-GoodEnd left i info (h ∷ tried))
    where
      go :
          (r : ℕ × Option HostPair)
          → ((h : HostPair) → r.1 ≡ some h → Offered info h)
          → ((i : ℕ) (h : HostPair)
              → GoodEnd info (suc (length tried) + left) (connect_loop left i info (h ∷ tried)))
          → GoodEnd info (length tried + suc left) (elim r.1 as (λ _. Connection × List HostPair) [
            | none ↦ (not_supported, tried)
            | some h ↦
                let rest = connect_loop left r.0 info (h ∷ tried) in
                let (ok, client) = connect (attempts r.0 h) in
                if ok then (connected h client, h ∷ tried) else rest
          ])
      go (i, none) offered rest = omega arith
      go (i, some h) offered rest = elim (Bool-cases (connect (attempts i h)).0) [
        | inl up ↦ rw up (omega arith, (offered h refl, (i, connect-Returned (attempts i h) up)))
        | inr down ↦ rw down (
            subst (λ n. GoodEnd info n (connect_loop left i info (h ∷ tried))) (omega arith)
              (rest i h))
      ]

  -- A client of a port that is forwarded is returned, if at all, for a host that the registry gives
  -- for the service of the port, under its type or, for a custom service, as an HTTP service, and
  -- after a connect that ended well or by an exception of the resolver; its socket is open only in
  -- the first case. Two hosts are tried at most, and both when a connect has failed last.
  pub create_forward_connection-GoodEnd :
      (b port : ℕ) (m : PortForwardMgr) (info : ForwardInfo)
      → lookup port m.forward_service_list ≡ some info
      → GoodEnd info 2 (create_forward_connection b port m)
  unfolding create_forward_connection
  create_forward_connection-GoodEnd b port m info e =
      rw (e, create_forward_connection) (connect_loop-GoodEnd 2 b info [])
