-- ===== src/Tcp/Connection.antt =====
-- src/quitsies/tcp/connection.hpp and connection.cpp: one client's connection. A call into the
-- network library that begins an asynchronous operation is recorded in the state as outstanding,
-- and each completion handler is a function of the error code that the library hands it.
pub mod Invariant
pub mod Opening
pub mod Conversation
pub mod Untimed
pub mod Reading
pub mod Chunked
pub mod Holding
use quitsies.Prelude.{
  ℕ, zero, suc, ◌+◌, ◌-◌, Bool, true, false, Option, none, some, if◌then◌else◌, Result, ok, err,
}
use quitsies.Prelude.Int.{ℤ, pos, negsuc}
use quitsies.Text.{Bytes}
use quitsies.Db.Store.{Store}
use quitsies.Tcp.Request.Types.{
  get_status, get_no_reply, Request, StatusType, finished, quitting, CommandType, init, reset,
}
use quitsies.Tcp.Request.Process.{process, get_response}

-- What a completion handler is told. `aborted` is `operation_aborted`, which on this platform has
-- the value of `operation_canceled`.
pub data ErrorCode : Type 0 where
  success aborted failure : ErrorCode

-- Times are in milliseconds. A timer has the expiry that its constructor computed, and the waits
-- on it that are outstanding.
pub record Connection : Type 0 where
  pub request : Request
  pub read_timeout : ℤ
  pub write_timeout : ℤ
  pub read_expiry : ℕ
  pub write_expiry : ℕ
  pub read_waits : ℕ
  pub write_waits : ℕ
  pub reads : ℕ
  pub writing : Option Bytes
  pub is_open : Bool

-- `t` milliseconds from now.
abbrev pub from_now : ℕ → ℤ → ℕ
from_now now (pos n) = now + n
from_now now (negsuc n) = now - suc n

abbrev pub is_positive : ℤ → Bool
is_positive (pos zero) = false
is_positive (pos (suc n)) = true
is_positive (negsuc n) = false

-- The constructor, at a time, with its parameters in their order. Nothing is outstanding yet.
unfoldable pub make_connection : CommandType → ℕ → ℕ → ℤ → ℤ → Connection
unfolding init
make_connection junk now max_req_size_bytes read_timeout write_timeout = record {
  request = init junk max_req_size_bytes;
  read_timeout = read_timeout;
  write_timeout = write_timeout;
  read_expiry = from_now now read_timeout;
  write_expiry = from_now now write_timeout;
  read_waits = 0;
  write_waits = 0;
  reads = 0;
  writing = none;
  is_open = true;
}

-- `async_read_some` on the socket.
abbrev pub do_read : Connection → Connection
do_read c = record c { reads = suc c.reads }

-- `start`: the timer is armed with the expiry that it has.
unfoldable pub start : Connection → Connection
start c =
    let reading = do_read c in
    if is_positive c.read_timeout then record reading { read_waits = suc c.read_waits } else reading

-- `stop`: shutdown and close. The closing call is the one that would throw if the system could not
-- close the socket, and is taken to succeed.
abbrev pub close : Connection → Connection
close c = record c { is_open = false }

-- `async_write` of the response, which `get_response` may refuse to give. `writing` is the text of
-- the buffer when it is handed over. The string behind the buffer is a temporary that is destroyed
-- when this function returns, and what the library then sends of it later is not modelled.
unfoldable pub do_write : Connection → Result Connection
unfolding get_response
do_write c = elim (get_response c.request) [
  | ok text ↦ ok (record c { writing = some text })
  | err what ↦ err what
]

-- The end of a handler: the connection, and whether it asks the manager to stop it.
pub record Outcome : Type 0 where
  pub after : Connection
  pub stops : Bool

abbrev pub go_on : Connection → Outcome
go_on c = record { after = c; stops = false }

abbrev pub ask_stop : Connection → Outcome
ask_stop c = record { after = c; stops = true }

-- `cancel` on a timer: the waits complete with `aborted`, and those handlers do nothing. A wait that
-- had expired before, and whose handler was queued, still completes with success: `stale_read` and
-- `stale_write` are what it then does.
abbrev pub cancel_read : Connection → Connection
cancel_read c = record c { read_waits = 0 }

abbrev pub cancel_write : Connection → Connection
cancel_write c = record c { write_waits = 0 }

abbrev pub arm_write : Connection → Connection
arm_write c =
    if is_positive c.write_timeout then record c { write_waits = suc c.write_waits } else c

-- `_request.reset(); start();`
abbrev pub restart : Connection → Connection
restart c = start (record c { request = reset c.request })

-- The request is finished: the reply is written, unless the client wants none.
unfoldable pub on_finished : Connection → Result Outcome
unfolding do_write start reset
on_finished c =
    let armed = arm_write (cancel_read c) in
    if get_no_reply c.request
    then ok (go_on (restart (cancel_write armed)))
    else elim (do_write armed) [ ok d ↦ ok (go_on d) | err what ↦ err what ]

-- The switch of the handler of `do_read`.
unfoldable pub on_status : StatusType → Connection → Result Outcome
unfolding on_finished
on_status finished c = on_finished c
on_status quitting c = ok (ask_stop c)
on_status _ c = ok (go_on (do_read c))

module _ {S : Type 0} (db : Option (Store S)) where
  -- The handler of `do_read`. An exception would leave it.
  unfoldable pub on_read : ErrorCode → Bytes → Connection → S → Result Outcome × S
  unfolding on_status process
  on_read success chunk c s =
      let (q, t) = process db chunk (c.request, s) in
      (on_status (get_status q) (record c { reads = c.reads - 1; request = q }), t)
  on_read aborted chunk c s = (ok (go_on (record c { reads = c.reads - 1 })), s)
  on_read failure chunk c s = (ok (ask_stop (record c { reads = c.reads - 1 })), s)

-- The handler of `do_write`.
unfoldable pub on_write : ErrorCode → Connection → Outcome
unfolding start reset
on_write success c = go_on (restart (cancel_write (record c { writing = none })))
on_write aborted c = go_on (record c { writing = none })
on_write failure c = ask_stop (record c { writing = none })

-- The handlers of the timers.
unfoldable pub on_read_timer : ErrorCode → Connection → Outcome
on_read_timer aborted c = go_on c
on_read_timer success c = ask_stop (record c { read_waits = c.read_waits - 1 })
on_read_timer failure c = ask_stop (record c { read_waits = c.read_waits - 1 })

unfoldable pub on_write_timer : ErrorCode → Connection → Outcome
on_write_timer aborted c = go_on c
on_write_timer success c = ask_stop (record c { write_waits = c.write_waits - 1 })
on_write_timer failure c = ask_stop (record c { write_waits = c.write_waits - 1 })

-- The handler of a wait that had expired, and was queued, when its timer was cancelled. It is
-- not among the waits that are counted.
abbrev pub stale_read : Connection → Outcome
stale_read c = on_read_timer success (record c { read_waits = suc c.read_waits })

abbrev pub stale_write : Connection → Outcome
stale_write c = on_write_timer success (record c { write_waits = suc c.write_waits })
