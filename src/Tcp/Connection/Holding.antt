-- ===== src/Tcp/Connection/Holding.antt =====
-- What a connection holds of the command that its client is sending, whatever the handlers of
-- src/quitsies/tcp/connection.cpp are told.
use quitsies.Prelude.{
  ok-parts, ℕ, suc, ◌+◌, ◌-◌, ◌<◌, ◌≡◌, ◌≢◌, refl, sym, subst, ap, List, [], ◌∷◌, ◌∙◌, Option, none,
  some, Result, ok, arith,
}
use quitsies.Prelude.Int.{ℤ}
use quitsies.Text.{Bytes}
use quitsies.Db.Store.{Store}
use quitsies.Tcp.Request.Types.{CommandType, no_command, init, reset}
use quitsies.Tcp.Connection.{
  Connection, ErrorCode, success, aborted, failure, Outcome, go_on, ask_stop, make_connection,
  start, close, on_read, on_write, on_read_timer, on_write_timer, stale_read, stale_write,
}
use quitsies.Tcp.Connection.Conversation.{IsReady, Serves, start-IsReady}
use quitsies.Tcp.Connection.Reading.{IsReading, IsReady-IsReading}

-- These bytes of a command have come: the connection reads the rest, or writes the reply to the one
-- before, or has ended with an operation that failed.
pub data Holds (a : Bytes) (c : Connection) : Type 0 where
  reading : IsReading a c → Holds a c
  writing :
      (text : Bytes)
      → a ≡ []
      → c.writing ≡ some text
      → c.reads ≡ 0
      → reset c.request ≡ init no_command 0
      → Holds a c
  gone : c.writing ≡ none → c.reads ≡ 0 → Holds a c

-- A connection that waits for a read is one that reads.
pub Holds-IsReading : {a : Bytes} {c : Connection} → Holds a c → 0 < c.reads → IsReading a c
Holds-IsReading (reading h) r = h
Holds-IsReading (writing text e w z q) r = absurd (omega arith)
Holds-IsReading (gone w z) r = absurd (omega arith)

-- Timers and the closing of the socket do not matter.
pub waits-Holds :
    (a : Bytes) (c : Connection) (m n : ℕ)
    → Holds a c
    → Holds a (record c { read_waits = m; write_waits = n })
waits-Holds a c m n (reading h) = reading h
waits-Holds a c m n (writing text e w z q) = writing text e w z q
waits-Holds a c m n (gone w z) = gone w z

pub close-Holds : (a : Bytes) (c : Connection) → Holds a c → Holds a (close c)
close-Holds a c (reading h) = reading h
close-Holds a c (writing text e w z q) = writing text e w z q
close-Holds a c (gone w z) = gone w z

pub on_read_timer-Holds :
    (a : Bytes) (ec : ErrorCode) (c : Connection) → Holds a c → Holds a (on_read_timer ec c).after
unfolding on_read_timer
on_read_timer-Holds a aborted c h = h
on_read_timer-Holds a _ c h = waits-Holds a c (c.read_waits - 1) c.write_waits h

pub on_write_timer-Holds :
    (a : Bytes) (ec : ErrorCode) (c : Connection) → Holds a c → Holds a (on_write_timer ec c).after
unfolding on_write_timer
on_write_timer-Holds a aborted c h = h
on_write_timer-Holds a _ c h = waits-Holds a c c.read_waits (c.write_waits - 1) h

pub stale_read-Holds : (a : Bytes) (c : Connection) → Holds a c → Holds a (stale_read c).after
unfolding on_read_timer
stale_read-Holds a c h = waits-Holds a c (suc c.read_waits - 1) c.write_waits h

pub stale_write-Holds : (a : Bytes) (c : Connection) → Holds a c → Holds a (stale_write c).after
unfolding on_write_timer
stale_write-Holds a c h = waits-Holds a c c.read_waits (suc c.write_waits - 1) h

-- A connection that was accepted and started, and has no limit.
pub start-Holds :
    (junk : CommandType) (now : ℕ) (read_timeout write_timeout : ℤ)
    → Holds [] (start (make_connection junk now 0 read_timeout write_timeout))
start-Holds junk now read_timeout write_timeout = reading (
    IsReady-IsReading (start (make_connection junk now 0 read_timeout write_timeout))
      (start-IsReady junk now read_timeout write_timeout))

start-reading :
    (c : Connection)
    → c.writing ≡ none
    → c.reads ≡ 0
    → c.request ≡ init no_command 0
    → IsReady (start c)
unfolding start init
start-reading c w r q = ground arith

-- What `start` is given behind a write.
abbrev restarted : Connection → Connection
restarted c = record c { writing = none; write_waits = 0; request = reset c.request }

-- The end of a write, however it ends: the next command may begin, or nothing does.
pub on_write-Holds :
    (a : Bytes) (ec : ErrorCode) (c : Connection) (text : Bytes)
    → Holds a c
    → c.writing ≡ some text
    → Holds a (on_write ec c).after
unfolding on_write
on_write-Holds a ec c text (reading h) w = cc (h.0, w)
on_write-Holds a success c text (writing t e v z q) w =
    subst (λ l. Holds l (on_write success c).after) (sym e)
      (reading (IsReady-IsReading (start (restarted c)) (start-reading (restarted c) refl z q)))
on_write-Holds a aborted c text (writing t e v z q) w = gone refl z
on_write-Holds a failure c text (writing t e v z q) w = gone refl z
on_write-Holds a ec c text (gone v z) w = cc (v, w)

failed-Holds :
    {S : Type 0} (a : Bytes) (c : Connection) (o p : Outcome) (s t : S)
    → c.writing ≡ none
    → c.reads ≡ 1
    → p.after.writing ≡ c.writing
    → p.after.reads ≡ c.reads - 1
    → Path (Result Outcome × S) (ok p, s) (ok o, t)
    → Holds a o.after × (t ≡ s)
failed-Holds a c o p s t w r v z e =
    let (same, kept) = ok-parts e in
    (subst (λ x. Holds a x.after) same (gone (v ∙ w) (omega arith)), sym kept)

-- A read that fails is the last.
pub on_read-failed :
    {S : Type 0} (db : Option (Store S)) (a chunk : Bytes) (ec : ErrorCode) (c : Connection)
    (s t : S) (o : Outcome)
    → ec ≢ success
    → IsReading a c
    → on_read db ec chunk c s ≡ (ok o, t)
    → Holds a o.after × (t ≡ s)
unfolding on_read
on_read-failed db a chunk success c s t o n h e = absurd (n refl)
on_read-failed db a chunk aborted c s t o n (w, r, q) e =
    failed-Holds a c o (go_on _) s t w r refl refl e
on_read-failed db a chunk failure c s t o n (w, r, q) e =
    failed-Holds a c o (ask_stop _) s t w r refl refl e

start-goes_on : (c : Connection) → ((start c).reads ≡ c.reads + 1) × ((start c).request ≡ c.request)
unfolding start
start-goes_on c = ground arith

-- A connection whose reply is to be delivered holds nothing of the next command.
delivered-Holds :
    (w : Option Bytes) (c : Connection)
    → c.writing ≡ w
    → IsReady
        (elim w as (λ _. List Bytes × Connection) [
          | none ↦ ([], c)
          | some reply ↦ (reply ∷ [], (on_write success c).after)
        ]).1
    → Holds [] c
unfolding on_write reset init
delivered-Holds none c w h = reading (IsReady-IsReading c h)
delivered-Holds (some text) c w h =
    let again = start-goes_on (restarted c) in
    writing text refl w (omega arith) (sym again.1 ∙ h.2 ∙ ap (λ q. init q.cmd 0) again.1)

pub Serves-Holds : (out : List Bytes) (o : Outcome) → Serves out (ok o) → Holds [] o.after
Serves-Holds out o h = delivered-Holds o.after.writing o.after refl h.1
