-- ===== src/Tcp/Server/Tests.antt =====
-- The server at concrete events: a client that sends `ping`, and a signal.
use quitsies.Prelude.{
  ◌*◌, ◌<◌, ◌⊎◌, ℕ, ◌+◌, true, false, ◌≡◌, refl, [], some, arith, Result, ok, err,
}
use quitsies.Prelude.Int.{pos}
use quitsies.Text.{Bytes, codes}
use quitsies.Db.Memory.{Memory, memory}
use quitsies.Tcp.Request.Types.{init, no_command}
use quitsies.Tcp.Request.Process.{process, get_response}
use quitsies.Tcp.Connection.{
  Connection, Outcome, go_on, success, aborted, make_connection, start, on_read, on_status,
  on_finished, do_write,
}
use quitsies.Tcp.Server.{
  Server, contains, make_server, on_accept, manager_start, put, settle_outcome, on_signal,
  set_write_timeout, set_max_request_bytes,
}
use quitsies.Tcp.Server.Step.{Step, Reach, here, then_step, accepted, received, set_write}
use quitsies.Tcp.Server.Active.{
  Delivery, began_at, then_delivered, IsReceiving, IsReplying, Delivery-active,
}
use quitsies.Tcp.Server.Accept.{on_accept_limits}
use quitsies.Tcp.Server.Run.{
  IoService, outstanding, complete_signal, complete_accept, run_returns, stop, constructed,
}
use quitsies.Tcp.Server.Ending.{Ending, AllShut, Ends, EndStep, now, then_handler, accept_ended}
use quitsies.Tcp.Server.Shutdown.{shutdown-Ends}
use quitsies.Tcp.Server.Expiry.{sent-timed_out}

abbrev blank : Memory
blank = record { items = []; calls = [] }

abbrev unborn : ℕ → Connection
unborn k = make_connection no_command 0 0 (pos 0) (pos 0)

-- The write timeout is five milliseconds, and one client has come.
abbrev waiting : Server
waiting = on_accept no_command (set_write_timeout (pos 5) (make_server unborn 0))

abbrev ping : Bytes
ping = codes "ping\r\n"

-- The outcome, if there was one.
abbrev outcome : Connection → Result Outcome → Outcome
outcome c (ok o) = o
outcome c (err what) = go_on c

abbrev pinged : Outcome
pinged = outcome (waiting.conns 0) (on_read (some memory) success ping (waiting.conns 0) blank).0

abbrev answering : Server
answering = settle_outcome 0 pinged waiting

waiting-Reach : Reach (some memory) (make_server unborn 0, blank) (waiting, blank)
waiting-Reach = then_step (then_step here (set_write (pos 5) refl)) (accepted no_command refl)

answering-Delivery : Delivery (some memory) (make_server unborn 0, blank) (answering, blank)
unfolding make_server on_accept put manager_start start make_connection set_write_timeout on_read
    process init on_status on_finished do_write get_response
answering-Delivery =
    then_delivered
      (then_delivered (then_delivered began_at (set_write (pos 5) refl) tt)
        (accepted no_command refl) tt)
      (received 0 success ping pinged blank (omega arith) (omega arith) (omega arith) refl refl)
      (λ e. cc (e))

Delivery-active_example :
    (contains answering.managed 0 ≡ (answering.conns 0).is_open)
    × (((answering.conns 0).is_open ≡ false)
        ⊎ (IsReceiving (answering.conns 0) ⊎ IsReplying (answering.conns 0)))
unfolding make_server on_accept put manager_start start make_connection set_write_timeout
    settle_outcome on_read
Delivery-active_example =
    Delivery-active (some memory) unborn 0 blank (answering, blank) 0 answering-Delivery
      (omega arith)

abbrev late : Server
late = record answering { now = 9 }

sent-timed_out_example :
    (u : Server × Memory) × Step (some memory) (late, blank) u
    × (w : Server × Memory) × Step (some memory) u w
    × (w.0.now ≡ 9)
    × ((w.0.conns 0).is_open ≡ false)
unfolding make_server on_accept put manager_start start make_connection set_write_timeout
    settle_outcome on_read process init on_status on_finished do_write get_response
sent-timed_out_example =
    sent-timed_out (some memory) late blank 0 (codes "PONG\r\n") (omega arith) refl refl
      (omega arith)

abbrev limited : Server
limited = set_max_request_bytes 4096 (set_write_timeout (pos 5) (make_server unborn 7))

on_accept_limits_example :
    let c = (on_accept no_command limited).conns 0 in
    (c.request.max_bytes ≡ 0)
    × (c.read_timeout ≡ pos 5)
    × (c.write_timeout ≡ pos 4096)
    × (c.read_expiry ≡ 7 + 5)
    × (c.reads ≡ 1)
    × (c.is_open ≡ true)
unfolding make_server set_write_timeout set_max_request_bytes
on_accept_limits_example = on_accept_limits no_command limited 0 5 refl refl refl (omega arith)

-- The client reads, the server accepts, and a signal comes.
abbrev running : IoService
running = record { srv = waiting; accepts = 1; signal_waits = 1; stopped = false }

abbrev closing : Ending Memory
closing = record { queued = 0; io = complete_signal running; database = blank }

abbrev accept_cancelled : Ending Memory
accept_cancelled = record closing { io = complete_accept aborted no_command closing.io }

one_handler : Ends (some memory) closing 1 accept_cancelled
unfolding make_server on_accept manager_start set_write_timeout complete_signal on_signal
one_handler = then_handler now (accept_ended aborted no_command (omega arith) refl)

shutdown-Ends_example :
    (1 < 2 * 0 + outstanding running)
    × AllShut accept_cancelled.io.srv
    × ((run_returns accept_cancelled.io ≡ true)
        ⊎ ((u : Ending Memory) × EndStep (some memory) accept_cancelled u))
shutdown-Ends_example =
    shutdown-Ends (some memory) unborn 0 0 running blank blank 1 accept_cancelled waiting-Reach refl
      one_handler

outstanding_when_running : outstanding running ≡ 4
unfolding make_server on_accept manager_start set_write_timeout start make_connection put
outstanding_when_running = refl

stopped_returns : run_returns (stop (constructed unborn 0)) ≡ true
unfolding stop
stopped_returns = refl
