-- ===== src/Session/Sending.antt =====
-- A send on a session succeeds exactly when the session stays open.
use fiberproxy.Prelude.{
  ℕ, Bool, true, false, not, [], ◌∷◌, ◌++◌, Bytes, ◌≡◌, refl, if◌then◌else◌, ap, ◌∙◌, ◌==◌,
}
use fiberproxy.Session.{
  Session, other, End, fine, failed, threw, prepare_timeout, shutdown, async_connect, async_write,
  send_data,
}

-- What a send leaves behind, from `s` to `t`.
pub record Sent (ok : Bool) (reqdata : Bytes) (s t : Session) : Type 0 where
  pub stays : t.is_open ≡ ok
  pub writes : t.sent ≡ (if ok then s.sent ++ reqdata ∷ [] else s.sent)
  pub settled : t.connecting ≡ false
  pub untimed : t.deadline ≡ false

shutdown-Sent :
    (reqdata : Bytes) (th : Bool) (s : Session)
    → s.connecting ≡ false
    → Sent false reqdata s (shutdown true th s)
unfolding shutdown
shutdown-Sent reqdata true s c = record { stays = refl; writes = refl; settled = c; untimed = refl }
shutdown-Sent reqdata false s c = record {
  stays = refl;
  writes = refl;
  settled = c;
  untimed = refl;
}

async_write-Sent :
    (e : End) (th : Bool) (reqdata : Bytes) (s : Session)
    → s.connecting ≡ false
    → s.deadline ≡ false
    → Sent (async_write e th reqdata s).0 reqdata s (async_write e th reqdata s).1
unfolding async_write
async_write-Sent e th reqdata s c d = go e s.is_open s.connecting refl c
  where
    go :
        (e : End) (opened busy : Bool)
        → s.is_open ≡ opened
        → busy ≡ false
        → let r : Bool × Session = elim (if opened then e else failed other) [
          | fine ↦ (true, record s { sent = s.sent ++ reqdata ∷ [] })
          | failed x ↦ (false, if not busy then shutdown true th s else s)
          | threw ↦ (false, shutdown true th s)
        ] in
          Sent r.0 reqdata s r.1
    go e opened true o b = absurd (cc b)
    go e false false o b = shutdown-Sent reqdata th s c
    go fine true false o b = record { stays = o; writes = refl; settled = c; untimed = d }
    go (failed x) true false o b = shutdown-Sent reqdata th s c
    go threw true false o b = shutdown-Sent reqdata th s c

-- A connect, after which the session is open exactly when it went well.
record Connected (ok : Bool) (s t : Session) : Type 0 where
  keeps : t.sent ≡ s.sent
  settled : t.connecting ≡ false
  untimed : t.deadline ≡ false
  shut : ok ≡ false → t.is_open ≡ false

prepare_timeout-sent : (msec : ℕ) (s : Session) → (prepare_timeout msec s).sent ≡ s.sent
prepare_timeout-sent msec s = go (msec == 0)
  where
    go : (b : Bool) → (if b then s else record s { deadline = true }).sent ≡ s.sent
    go true = refl
    go false = refl

shutdown-Connected :
    (ok th : Bool) (s u : Session)
    → u.sent ≡ s.sent
    → Connected ok s (record (shutdown true th u) { connecting = false })
unfolding shutdown
shutdown-Connected ok true s u e = record {
  keeps = e;
  settled = refl;
  untimed = refl;
  shut = λ q. refl;
}
shutdown-Connected ok false s u e = record {
  keeps = e;
  settled = refl;
  untimed = refl;
  shut = λ q. refl;
}

async_connect-Connected :
    (e : End) (opened th : Bool) (s : Session)
    → Connected (async_connect e opened th s).0 s (async_connect e opened th s).1
unfolding async_connect
async_connect-Connected fine true th s = record {
  keeps = prepare_timeout-sent s.conn_to (record s { connecting = true });
  settled = refl;
  untimed = refl;
  shut = λ q. absurd (cc q);
}
async_connect-Connected fine false th s =
    shutdown-Connected true th s _ (prepare_timeout-sent s.conn_to (record s { connecting = true }))
async_connect-Connected (failed x) opened th s =
    shutdown-Connected false th s _
      (prepare_timeout-sent s.conn_to (record s { connecting = true }))
async_connect-Connected threw opened th s =
    shutdown-Connected true th s _ (prepare_timeout-sent s.conn_to (record s { connecting = true }))

Sent-after :
    {ok : Bool} {reqdata : Bytes} {s t u : Session}
    → t.sent ≡ s.sent
    → Sent ok reqdata t u
    → Sent ok reqdata s u
Sent-after {ok} {reqdata} e w = record {
  stays = w.stays;
  writes = w.writes ∙ ap (λ l. if ok then l ++ reqdata ∷ [] else l) e;
  settled = w.settled;
  untimed = w.untimed;
}

refused-Sent : {reqdata : Bytes} {s t : Session} → Connected false s t → Sent false reqdata s t
refused-Sent k = record {
  stays = k.shut refl;
  writes = k.keeps;
  settled = k.settled;
  untimed = k.untimed;
}

-- A send on a session that no other fiber connects and that has no deadline, however the connect
-- and the write end: it succeeds exactly when the session is open behind it, the data is then the
-- last that was written whole, and nothing was written otherwise; the session does not connect and
-- has no deadline then.
pub send_data-Sent :
    (conn : End) (opened : Bool) (wrote : End) (th : Bool) (reqdata : Bytes) (s : Session)
    → s.connecting ≡ false
    → s.deadline ≡ false
    → let r : Bool × Session = send_data conn opened wrote th reqdata s in Sent r.0 reqdata s r.1
unfolding send_data
send_data-Sent conn opened wrote th reqdata s c d = go s.is_open
  where
    tried :
        (r : Bool × Session)
        → Connected r.0 s r.1
        → let q : Bool × Session =
            if not r.0 then (false, r.1) else async_write wrote th reqdata r.1 in
          Sent q.0 reqdata s q.1
    tried (true, t) k = Sent-after k.keeps (async_write-Sent wrote th reqdata t k.settled k.untimed)
    tried (false, t) k = refused-Sent k

    go :
        (b : Bool)
        → let r : Bool × Session =
            if not b
            then (let (ok, t) = async_connect conn opened th s in
                if not ok then (false, t) else async_write wrote th reqdata t)
            else async_write wrote th reqdata s in
          Sent r.0 reqdata s r.1
    go true = async_write-Sent wrote th reqdata s c d
    go false = tried (async_connect conn opened th s) (async_connect-Connected conn opened th s)
