-- ===== src/Session.antt =====
-- source/core/forward-manager/FibpClient.cpp, ClientSession: the socket of a client, which connects when
-- it is needed and is closed when an operation fails. What the system makes of an operation is an
-- argument.
pub mod Sending
use fiberproxy.Prelude.{
  ℕ, ◌+◌, ◌/◌, Bool, true, false, ◌&&◌, ◌||◌, not, List, [], ◌∷◌, ◌++◌, Bytes, if◌then◌else◌, ltb,
  ◌==◌,
}

-- `deadline` is whether the timer has a time, `sent` what was written whole.
pub record Session : Type 0 where
  pub is_open : Bool
  pub receiving : Bool
  pub connecting : Bool
  pub deadline : Bool
  pub conn_to : ℕ
  pub read_to : ℕ
  pub sent : List Bytes

-- An error of the system: that the operation was aborted, the end of the stream, or another.
pub data Error : Type 0 where
  aborted : Error
  eof : Error
  other : Error

-- How an operation ends: well, with an error, or by an exception.
pub data End : Type 0 where
  fine : End
  failed : Error → End
  threw : End

abbrev pub is_fine : End → Bool
is_fine fine = true
is_fine (failed e) = false
is_fine threw = false

abbrev pub prepare_timeout : ℕ → Session → Session
prepare_timeout msec s = if msec == 0 then s else record s { deadline = true }

abbrev pub clear_timeout : Session → Session
clear_timeout s = record s { deadline = false }

abbrev pub closed : Session → Session
closed s = record s { is_open = false; receiving = false }

-- `throws` is whether the shutdown of the socket throws.
unfoldable pub shutdown : Bool → Bool → Session → Session
shutdown need_close throws s =
    let s' = clear_timeout s in
    if throws then closed s' else if need_close then closed s' else record s' { receiving = false }

-- The timer's handler: it was cancelled, or its time has come. The cancel of a closed socket throws.
unfoldable pub check_deadline : Bool → Bool → Session → Session
check_deadline cancelled throws s =
    if cancelled
    then clear_timeout s
    else if s.is_open
    then clear_timeout (shutdown true throws s)
    else s

-- How a connect ends and whether the socket is open then. The error that is returned is none when
-- the resolver has thrown.
unfoldable pub async_connect : End → Bool → Bool → Session → Bool × Session
async_connect e opened throws s =
    let s' = clear_timeout (prepare_timeout s.conn_to (record s { connecting = true })) in
    let ret = is_fine e && opened in
    let s'' =
      if ret then record s' { is_open = true; receiving = true } else shutdown true throws s' in
    (elim e [ fine ↦ true | failed x ↦ false | threw ↦ true ], record s'' { connecting = false })

-- A write to a socket that is not open fails.
unfoldable pub async_write : End → Bool → Bytes → Session → Bool × Session
async_write e throws reqdata s = elim (if s.is_open then e else failed other) [
  | fine ↦ (true, record s { sent = s.sent ++ reqdata ∷ [] })
  | failed x ↦ (false, if not s.connecting then shutdown true throws s else s)
  | threw ↦ (false, shutdown true throws s)
]

-- send_data of a session that no other fiber connects; the connect and the write end as given.
unfoldable pub send_data : End → Bool → End → Bool → Bytes → Session → Bool × Session
send_data conn opened wrote throws reqdata s =
    if not s.is_open
    then (let (ok, s') = async_connect conn opened throws s in
        if not ok then (false, s') else async_write wrote throws reqdata s')
    else async_write wrote throws reqdata s

-- async_read and async_read_some, of `size` bytes: an abort leaves the socket as it is.
unfoldable pub async_read : ℕ → End → Bool → Session → Session
async_read size e throws s =
    let s' = if ltb 0 s.read_to then prepare_timeout (s.read_to + size / 1024 / 1024) s else s in
    clear_timeout (elim e [
      | fine ↦ s'
      | failed aborted ↦ s'
      | failed eof ↦ shutdown true throws s'
      | failed other ↦ shutdown false throws s'
      | threw ↦ s'
    ])
