-- ===== src/Tcp/Connection/Invariant.antt =====
-- A connection reads or writes, and never both.
use quitsies.Prelude.{
  ℕ, suc, ◌-◌, ◌≤◌, ◌<◌, false, ◌≡◌, refl, subst, ◌⊎◌, Option, none, some, Result, ok, err, arith,
  inr,
}
use quitsies.Prelude.Int.{ℤ}
use quitsies.Text.{Bytes}
use quitsies.Db.Store.{Store}
use quitsies.Tcp.Request.Types.{StatusType, finished, CommandType, reset}
use quitsies.Tcp.Request.Process.{process, get_response, is_finished}
use quitsies.Tcp.Connection.{
  Connection, ErrorCode, success, aborted, failure, Outcome, make_connection, start, close,
  on_finished, on_status, on_read, on_write, on_read_timer, on_write_timer, stale_read, stale_write,
}

-- While it writes, the text is the finished request's response, which the client wants, and no read
-- is outstanding or timed. While it reads, the request is not finished and no write is timed. A
-- connection may be neither, when an operation has failed.
abbrev pub Phase : Option Bytes → Connection → Type 0
Phase none c =
    ((is_finished c.request.status ≡ false) × (c.write_waits ≡ 0) ⊎ (c.reads ≡ 0))
    × (c.reads ≤ 1)
    × (c.read_waits ≤ 1)
    × (c.write_waits ≤ 1)
Phase (some text) c =
    (get_response c.request ≡ ok text)
    × (c.request.no_reply ≡ false)
    × (c.reads ≡ 0)
    × (c.read_waits ≡ 0)
    × (c.write_waits ≤ 1)

abbrev pub Inv : Connection → Type 0
Inv c = Phase c.writing c

-- The handler returned, and the invariant holds.
abbrev pub Returns : Result Outcome → Type 0
Returns (ok o) = Inv o.after
Returns (err what) = ⊥

pub start-Inv :
    (c : Connection)
    → c.writing ≡ none
    → is_finished c.request.status ≡ false
    → c.reads ≡ 0
    → c.read_waits ≡ 0
    → c.write_waits ≡ 0
    → Inv (start c)
unfolding start
start-Inv c w f r rw' ww = ground arith

on_finished-Returns :
    (c : Connection)
    → c.writing ≡ none
    → c.request.status ≡ finished
    → c.reads ≡ 0
    → c.write_waits ≡ 0
    → Returns (on_finished c)
unfolding on_finished
on_finished-Returns c w f r ww = ground arith

on_status-Returns :
    (st : StatusType) (c : Connection)
    → c.writing ≡ none
    → c.request.status ≡ st
    → c.reads ≡ 0
    → c.read_waits ≤ 1
    → c.write_waits ≡ 0
    → Returns (on_status st c)
unfolding on_status
on_status-Returns finished c w f r rw' ww = on_finished-Returns c w f r ww
on_status-Returns _ c w f r rw' ww = ground arith

-- A constructed connection that is started satisfies the invariant.
pub start-make_connection-Inv :
    (junk : CommandType) (now limit : ℕ) (read_timeout write_timeout : ℤ)
    → Inv (start (make_connection junk now limit read_timeout write_timeout))
unfolding make_connection
start-make_connection-Inv junk now limit read_timeout write_timeout =
    start-Inv _ refl refl refl refl refl

module _ {S : Type 0} (db : Option (Store S)) where
  on_read-Phase :
      (ec : ErrorCode) (text : Option Bytes) (chunk : Bytes) (c : Connection) (s : S)
      → c.writing ≡ text
      → Phase text c
      → 0 < c.reads
      → Returns (on_read db ec chunk c s).0
  unfolding on_read
  on_read-Phase ec (some text) chunk c s w p h = absurd (omega arith)
  on_read-Phase success none chunk c s w p h =
      on_status-Returns (process db chunk (c.request, s)).0.status
        (record c { reads = c.reads - 1; request = (process db chunk (c.request, s)).0 }) w refl
        (omega arith) p.2 (ground arith)
  on_read-Phase aborted none chunk c s w p h = ground arith
  on_read-Phase failure none chunk c s w p h = ground arith

  -- The handler of a read that is outstanding, whatever the chunk and the database, ends without
  -- an exception and keeps the invariant: a reply is only ever taken from a finished request.
  pub on_read-Returns :
      (ec : ErrorCode) (chunk : Bytes) (c : Connection) (s : S)
      → Inv c
      → 0 < c.reads
      → Returns (on_read db ec chunk c s).0
  unfolding on_read
  on_read-Returns ec chunk c s v h = on_read-Phase ec c.writing chunk c s refl v h

on_write-Phase :
    (ec : ErrorCode) (c : Connection) (text : Bytes)
    → Phase (some text) c
    → Inv (on_write ec c).after
unfolding on_write
on_write-Phase success c text p =
    start-Inv (record c { writing = none; write_waits = 0; request = reset c.request }) refl refl
      p.2 p.3 refl
on_write-Phase aborted c text p = (inr p.2, omega arith, omega arith, p.4)
on_write-Phase failure c text p = (inr p.2, omega arith, omega arith, p.4)

-- Waits that end do no harm.
fewer-Inv :
    (text : Option Bytes) (c : Connection) (m n : ℕ)
    → c.writing ≡ text
    → m ≤ c.read_waits
    → n ≤ c.write_waits
    → Phase text c
    → Inv (record c { read_waits = m; write_waits = n })
fewer-Inv (some text) c m n w hm hn p = rw w (p.0, p.1, p.2, omega arith, omega arith)
fewer-Inv none c m n w hm hn p = ground arith

-- The handler of a write that is outstanding, and those of the timers, keep the invariant too.
pub on_write-Inv :
    (ec : ErrorCode) (c : Connection) (text : Bytes)
    → Inv c
    → c.writing ≡ some text
    → Inv (on_write ec c).after
on_write-Inv ec c text v w = on_write-Phase ec c text (subst (λ x. Phase x c) w v)

pub on_read_timer-Inv : (ec : ErrorCode) (c : Connection) → Inv c → Inv (on_read_timer ec c).after
unfolding on_read_timer
on_read_timer-Inv aborted c v = v
on_read_timer-Inv _ c v =
    fewer-Inv c.writing c (c.read_waits - 1) c.write_waits refl (omega arith) (omega arith) v

pub on_write_timer-Inv : (ec : ErrorCode) (c : Connection) → Inv c → Inv (on_write_timer ec c).after
unfolding on_write_timer
on_write_timer-Inv aborted c v = v
on_write_timer-Inv _ c v =
    fewer-Inv c.writing c c.read_waits (c.write_waits - 1) refl (omega arith) (omega arith) v

-- That of a wait that was cancelled too late changes nothing.
pub stale_read-Inv : (c : Connection) → Inv c → Inv (stale_read c).after
unfolding on_read_timer
stale_read-Inv c v =
    fewer-Inv c.writing c (suc c.read_waits - 1) c.write_waits refl (omega arith) (omega arith) v

pub stale_write-Inv : (c : Connection) → Inv c → Inv (stale_write c).after
unfolding on_write_timer
stale_write-Inv c v =
    fewer-Inv c.writing c c.read_waits (suc c.write_waits - 1) refl (omega arith) (omega arith) v

close-Phase :
    (text : Option Bytes) (c : Connection) → c.writing ≡ text → Phase text c → Inv (close c)
close-Phase (some text) c w p = rw w p
close-Phase none c w p = rw w p

pub close-Inv : (c : Connection) → Inv c → Inv (close c)
close-Inv c v = close-Phase c.writing c refl v
