-- ===== src/Tcp/Server/Run.antt =====
-- `server::run` and `server::stop`: src/quitsies/tcp/server.cpp. `io_service::run` returns when the
-- service was stopped or no operation is outstanding.
use quitsies.Prelude.{
  ℕ, zero, suc, ◌+◌, ◌-◌, Bool, true, false, not, ◌||◌, Option, none, some, List, [], ◌∷◌,
  if◌then◌else◌, ◌==◌, ltb,
}
use quitsies.Prelude.Int.{ℤ, pos, negsuc}
use quitsies.Text.{Bytes}
use quitsies.Tcp.Request.Types.{CommandType}
use quitsies.Tcp.Connection.{Connection, ErrorCode, success}
use quitsies.Tcp.Server.{Server, on_accept, on_signal, make_server}

-- The server with its outstanding waits for a client and for a signal.
pub record IoService : Type 0 where
  pub srv : Server
  pub accepts : ℕ
  pub signal_waits : ℕ
  pub stopped : Bool

-- The constructor ends with `do_await_stop` and `do_accept`.
abbrev pub constructed : (ℕ → Connection) → ℕ → IoService
constructed unborn now = record {
  srv = make_server unborn now;
  accepts = 1;
  signal_waits = 1;
  stopped = false;
}

-- The operations of one connection that are outstanding.
abbrev pub writes_of : Option Bytes → ℕ
writes_of none = 0
writes_of (some text) = 1

abbrev pub ops : Connection → ℕ
ops c = c.reads + (c.read_waits + (c.write_waits + writes_of c.writing))

abbrev pub total : (ℕ → ℕ) → ℕ → ℕ
total f zero = 0
total f (suc n) = total f n + f n

-- Those of the connections, and all of them.
abbrev pub connection_ops : Server → ℕ
connection_ops srv = total (λ k. ops (srv.conns k)) srv.next_id

abbrev pub outstanding : IoService → ℕ
outstanding io = connection_ops io.srv + (io.accepts + io.signal_waits)

-- `server::stop`.
unfoldable pub stop : IoService → IoService
stop io = if not io.stopped then record io { stopped = true } else io

abbrev pub run_returns : IoService → Bool
run_returns io = io.stopped || outstanding io == 0

-- The accept handler. Behind a closed acceptor it does not wait again; an error is as if no client
-- had come.
unfoldable pub complete_accept : ErrorCode → CommandType → IoService → IoService
unfolding on_accept
complete_accept success junk io =
    let served = record io { srv = on_accept junk io.srv } in
    if io.srv.accepting then served else record served { accepts = io.accepts - 1 }
complete_accept _ junk io = if io.srv.accepting then io else record io { accepts = io.accepts - 1 }

-- The handler of a signal does not wait for another.
unfoldable pub complete_signal : IoService → IoService
unfolding on_signal
complete_signal io = record io { srv = on_signal io.srv; signal_waits = io.signal_waits - 1 }

-- How many threads call `io_service::run`.
abbrev pub pool : ℕ → List ℕ
pool zero = []
pool (suc n) = n ∷ pool n

unfoldable pub run_threads : ℤ → List ℕ
run_threads (negsuc n) = 0 ∷ []
run_threads (pos n) = if ltb 1 n then pool n else 0 ∷ []
