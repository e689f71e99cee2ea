-- ===== src/PortForward/Copy.antt =====
-- The bytes of a forwarded connection: source/core/fiber-server/FibpPortForwardConnection.cpp, from
-- the client to the host, and handle_forward_rsp of FibpPortForwardMgr.cpp, back.
use fiberproxy.Prelude.{
  ℕ, Bool, true, false, not, List, [], ◌∷◌, ◌++◌, Option, none, some, Bytes, if◌then◌else◌, take,
  drop, zero, suc, ◌≡◌, refl, ap, sym, ◌∙◌, Bool-cases, inl, inr, append-nil, append_assoc,
}

-- What the sockets give in one round: whether the socket of the client is open, what is read, or an
-- error, and how much was written before an error, or `none` when all is written.
pub record Round : Type 0 where
  pub is_open : Bool
  pub read : Option Bytes
  pub write_failed : Option ℕ

-- The bytes that were written, and which sockets were shut down.
pub record Copied : Type 0 where
  pub written : Bytes
  pub client_shut : Bool
  pub source_shut : Bool

abbrev pub new_copied : Copied
new_copied = record { written = []; client_shut = false; source_shut = false }

-- behind the loop
abbrev pub shut_both : Copied → Copied
shut_both s = record s { client_shut = true; source_shut = true }

abbrev pub add_written : Bytes → Copied → Copied
add_written data_text s = record s { written = s.written ++ data_text }

module _ (rest : Copied → Copied) where
  -- async_write: all of the buffer, or a part of it and an error
  abbrev pub after_write : Bytes → Option ℕ → Copied → Copied
  after_write buf none s = rest (add_written buf s)
  after_write buf (some n) s = shut_both (add_written (take n buf) s)

  abbrev pub after_read : Option Bytes → Option ℕ → Copied → Copied
  after_read none failed s = shut_both s
  after_read (some buf) failed s = after_write buf failed s

-- handle_forward_rsp: while(true); without another round, the fiber waits for its read
unfoldable pub handle_forward_rsp : List Round → Copied → Copied
handle_forward_rsp [] s = s
handle_forward_rsp (r ∷ rs) s = after_read (handle_forward_rsp rs) r.read r.write_failed s

-- the loop of start, while the socket is open
unfoldable pub forward_loop : List Round → Copied → Copied
forward_loop [] s = s
forward_loop (r ∷ rs) s =
    let next = after_read (forward_loop rs) r.read r.write_failed s in
    if r.is_open then next else shut_both s

-- start: `connected` is whether chain_forward_connection gives a connection to a host
unfoldable pub start : Bool → List Round → Copied
start connected rs =
    if not connected then record new_copied { source_shut = true } else forward_loop rs new_copied

abbrev pub text_of : Option Bytes → Bytes
text_of none = []
text_of (some buf) = buf

-- All that is read, round by round.
abbrev pub reads : List Round → Bytes
reads [] = []
reads (r ∷ rs) = text_of r.read ++ reads rs

-- What has been written, behind `w`, is a beginning of what is read: all of it while the loop goes
-- on. The loop shuts down both sockets or none.
pub record IsCopy (text w : Bytes) (new : Copied) : Type 0 where
  pub part : Bytes
  pub left : Bytes
  pub split : text ≡ part ++ left
  pub copied : new.written ≡ w ++ part
  pub going_on : if new.client_shut then Unit else left ≡ []
  pub together : new.client_shut ≡ new.source_shut

abbrev from : Bytes → Copied
from w = record new_copied { written = w }

take-drop : (n : ℕ) (buf : Bytes) → buf ≡ take n buf ++ drop n buf
take-drop zero buf = refl
take-drop (suc n) [] = refl
take-drop (suc n) (c ∷ buf) = ap (λ s. c ∷ s) (take-drop n buf)

none-IsCopy : (w : Bytes) → IsCopy [] w (from w)
none-IsCopy w = record {
  part = [];
  left = [];
  split = refl;
  copied = sym (append-nil w);
  going_on = refl;
  together = refl;
}

shut-IsCopy : (text w : Bytes) → IsCopy text w (shut_both (from w))
shut-IsCopy text w = record {
  part = [];
  left = text;
  split = refl;
  copied = sym (append-nil w);
  going_on = tt;
  together = refl;
}

after_read-IsCopy :
    (rest : Copied → Copied) (text : Bytes)
    → ((w : Bytes) → IsCopy text w (rest (from w)))
    → (read : Option Bytes) (failed : Option ℕ) (w : Bytes)
    → IsCopy (text_of read ++ text) w (after_read rest read failed (from w))
after_read-IsCopy rest text ih none failed w = shut-IsCopy text w
after_read-IsCopy rest text ih (some buf) none w =
    let i = ih (w ++ buf) in
    record {
      part = buf ++ i.part;
      left = i.left;
      split = ap (λ s. buf ++ s) i.split ∙ sym (append_assoc buf i.part i.left);
      copied = i.copied ∙ append_assoc w buf i.part;
      going_on = i.going_on;
      together = i.together;
    }
after_read-IsCopy rest text ih (some buf) (some n) w = record {
  part = take n buf;
  left = drop n buf ++ text;
  split = ap (λ s. s ++ text) (take-drop n buf) ∙ append_assoc (take n buf) (drop n buf) text;
  copied = refl;
  going_on = tt;
  together = refl;
}

pub handle_forward_rsp-IsCopy :
    (rs : List Round) (w : Bytes) → IsCopy (reads rs) w (handle_forward_rsp rs (from w))
unfolding handle_forward_rsp
handle_forward_rsp-IsCopy [] w = none-IsCopy w
handle_forward_rsp-IsCopy (r ∷ rs) w =
    after_read-IsCopy (handle_forward_rsp rs) (reads rs) (handle_forward_rsp-IsCopy rs) r.read
      r.write_failed w

forward_loop-IsCopy : (rs : List Round) (w : Bytes) → IsCopy (reads rs) w (forward_loop rs (from w))
unfolding forward_loop
forward_loop-IsCopy [] w = none-IsCopy w
forward_loop-IsCopy (r ∷ rs) w = elim (Bool-cases r.is_open) [
  | inl still ↦ rw still (
      after_read-IsCopy (forward_loop rs) (reads rs) (forward_loop-IsCopy rs) r.read r.write_failed
        w)
  | inr closed ↦ rw closed (shut-IsCopy (reads (r ∷ rs)) w)
]

-- In both directions of a forwarded connection, what has been written is a beginning of what was
-- read, in order: all of it while the loop goes on. A loop shuts down both sockets or none.
pub start-IsCopy :
    (rs back : List Round)
    → IsCopy (reads rs) [] (start true rs)
      × IsCopy (reads back) [] (handle_forward_rsp back new_copied)
unfolding start
start-IsCopy rs back = (forward_loop-IsCopy rs [], handle_forward_rsp-IsCopy back [])
