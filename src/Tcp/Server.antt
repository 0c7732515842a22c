-- ===== src/Tcp/Server.antt =====
-- src/quitsies/tcp/server.cpp and connection_manager.cpp: the connections that are open, and the
-- events of the network library as steps. A connection is known by a number, as the program knows
-- it by its pointer; `conns` says what each number below `next_id` stands for.
pub mod Managed
pub mod Step
pub mod Going
pub mod Active
pub mod Accept
pub mod Expiry
pub mod Run
pub mod Drain
pub mod Ending
pub mod Shutdown
pub mod Clients
mod Tests
use quitsies.Prelude.{
  ℕ, suc, ◌+◌, ◌-◌, ◌%◌, ◌^◌, Bool, true, false, not, ◌&&◌, Option, none, some, List, [], ◌∷◌,
  if◌then◌else◌, Result, ok, err, ◌==◌, ltb,
}
use quitsies.Prelude.Int.{ℤ, pos, negsuc}
use quitsies.Text.{Bytes}
use quitsies.Tcp.Request.Types.{CommandType, no_command}
use quitsies.Tcp.Request.Process.{to_size}
use quitsies.Tcp.Connection.{Connection, Outcome, make_connection, start, close}

pub record Server : Type 0 where
  pub accepting : Bool
  pub managed : List ℕ
  pub conns : ℕ → Connection
  pub next_id : ℕ
  pub read_timeout : ℤ
  pub write_timeout : ℤ
  pub req_max_bytes : ℕ
  pub now : ℕ

unfoldable pub contains : List ℕ → ℕ → Bool
contains [] k = false
contains (j ∷ js) k = if j == k then true else contains js k

-- `insert` and `erase` of a `std::set`.
unfoldable pub insert : ℕ → List ℕ → List ℕ
unfolding contains
insert k js = if contains js k then js else k ∷ js

unfoldable pub erase : ℕ → List ℕ → List ℕ
erase k [] = []
erase k (j ∷ js) = let rest = erase k js in if j == k then rest else j ∷ rest

-- What stands for the connection with number `k` is now `c`.
unfoldable pub put {ℓ} : {A : Type ℓ} → (ℕ → A) → ℕ → A → ℕ → A
put conns k c j = if j == k then c else conns j

-- `connection_manager::start`.
unfoldable pub manager_start : ℕ → Server → Server
unfolding insert put start
manager_start k srv = record srv {
  managed = insert k srv.managed;
  conns = put srv.conns k (start (srv.conns k));
}

-- `connection_manager::stop`.
unfoldable pub manager_stop : ℕ → Server → Server
unfolding erase put
manager_stop k srv = record srv {
  managed = erase k srv.managed;
  conns = put srv.conns k (close (srv.conns k));
}

-- `connection_manager::stop_all`.
unfoldable pub manager_stop_all : Server → Server
unfolding contains
manager_stop_all srv = record srv {
  managed = [];
  conns = λ j. if contains srv.managed j then close (srv.conns j) else srv.conns j;
}

-- The conversion of a `size_t` to `int` keeps the low 32 bits.
abbrev pub to_int32 : ℕ → ℤ
to_int32 n = let low = n % 2 ^ 32 in if ltb low (2 ^ 31) then pos low else negsuc (2 ^ 32 - low - 1)

-- The conversion of a `long long` to `int` keeps the low 32 bits.
abbrev pub to_int : ℤ → ℤ
to_int (pos n) = to_int32 n
to_int (negsuc n) = to_int32 (2 ^ 32 - 1 - n % 2 ^ 32)

-- The handler of `do_accept` without an error. The arguments of the constructor stand in the order
-- of the call: the two timeouts and the size limit, for its size limit and its two timeouts.
unfoldable pub on_accept : CommandType → Server → Server
unfolding make_connection manager_start put
on_accept junk srv =
    let c =
      make_connection junk srv.now (to_size srv.read_timeout) srv.write_timeout
        (to_int32 srv.req_max_bytes) in
    let made = record srv { conns = put srv.conns srv.next_id c; next_id = suc srv.next_id } in
    elim srv.accepting [ true ↦ manager_start srv.next_id made | false ↦ srv ]

-- The handler of `do_await_stop`.
unfoldable pub on_signal : Server → Server
unfolding manager_stop_all
on_signal srv = manager_stop_all (record srv { accepting = false })

-- The end of a connection's handler.
unfoldable pub settle_outcome : ℕ → Outcome → Server → Server
unfolding manager_stop put
settle_outcome k o srv =
    let kept = record srv { conns = put srv.conns k o.after } in
    if o.stops then manager_stop k kept else kept

unfoldable pub set_read_timeout : ℤ → Server → Server
set_read_timeout t srv = record srv { read_timeout = t }

unfoldable pub set_write_timeout : ℤ → Server → Server
set_write_timeout t srv = record srv { write_timeout = t }

unfoldable pub set_max_request_bytes : ℕ → Server → Server
set_max_request_bytes n srv = record srv { req_max_bytes = n }

-- The constructor's state; it has begun to accept.
unfoldable pub make_server : (ℕ → Connection) → ℕ → Server
make_server unborn now = record {
  accepting = true;
  managed = [];
  conns = unborn;
  next_id = 0;
  read_timeout = pos 0;
  write_timeout = pos 0;
  req_max_bytes = 0;
  now = now;
}
