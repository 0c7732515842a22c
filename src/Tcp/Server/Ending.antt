-- ===== src/Tcp/Server/Ending.antt =====
-- The end of the program: what `io_service` of src/quitsies/tcp/server.cpp still runs once a signal
-- has come. An operation on an open socket may end with success. On a closed one an operation may
-- do so only if it had completed before the closing and was `queued`; one that is begun on a closed
-- socket, or that the closing ends, fails.
use quitsies.Prelude.{ℕ, suc, ◌+◌, ◌*◌, ◌<◌, true, false, ◌≡◌, ◌≢◌, Option, some, ok}
use quitsies.Text.{Bytes}
use quitsies.Db.Store.{Store}
use quitsies.Tcp.Request.Types.{CommandType}
use quitsies.Tcp.Connection.{
  ErrorCode, success, Outcome, on_read, on_write, on_read_timer, on_write_timer,
}
use quitsies.Tcp.Server.{Server, settle_outcome}
use quitsies.Tcp.Server.Run.{IoService, outstanding, complete_accept}

pub record Ending (S : Type 0) : Type 0 where
  pub queued : ℕ
  pub io : IoService
  pub database : S

-- No connection is open.
abbrev pub AllShut : Server → Type 0
AllShut srv = (k : ℕ) → k < srv.next_id → (srv.conns k).is_open ≡ false

-- The acceptor is closed, no signal is waited for, and no connection is open.
abbrev pub Closed : IoService → Type 0
Closed io = ((io.srv.accepting ≡ false) × (io.signal_waits ≡ 0)) × AllShut io.srv

abbrev pub measure : {S : Type 0} → Ending S → ℕ
measure v = 2 * v.queued + outstanding v.io

-- A handler of connection `k` has ended.
abbrev pub settled : {S : Type 0} → ℕ → Outcome → ℕ → S → Ending S → Ending S
settled k o q t v = record {
  queued = q;
  io = record (v.io) { srv = settle_outcome k o v.io.srv };
  database = t;
}

module _ {S : Type 0} (db : Option (Store S)) where
  pub data EndStep (v w : Ending S) : Type 0 where
    accept_ended :
        (ec : ErrorCode) (junk : CommandType)
        → 0 < v.io.accepts
        → w ≡ record v { io = complete_accept ec junk v.io }
        → EndStep v w
    read_ended :
        (k : ℕ) (ec : ErrorCode) (chunk : Bytes) (o : Outcome) (t : S)
        → k < v.io.srv.next_id
        → 0 < (v.io.srv.conns k).reads
        → ec ≢ success
        → on_read db ec chunk (v.io.srv.conns k) v.database ≡ (ok o, t)
        → w ≡ settled k o v.queued t v
        → EndStep v w
    read_served :
        (k : ℕ) (chunk : Bytes) (o : Outcome) (t : S)
        → k < v.io.srv.next_id
        → 0 < (v.io.srv.conns k).reads
        → (v.io.srv.conns k).is_open ≡ true
        → on_read db success chunk (v.io.srv.conns k) v.database ≡ (ok o, t)
        → w ≡ settled k o v.queued t v
        → EndStep v w
    read_queued :
        (k q : ℕ) (chunk : Bytes) (o : Outcome) (t : S)
        → k < v.io.srv.next_id
        → 0 < (v.io.srv.conns k).reads
        → v.queued ≡ suc q
        → on_read db success chunk (v.io.srv.conns k) v.database ≡ (ok o, t)
        → w ≡ settled k o q t v
        → EndStep v w
    write_ended :
        (k : ℕ) (ec : ErrorCode) (text : Bytes)
        → k < v.io.srv.next_id
        → (v.io.srv.conns k).writing ≡ some text
        → ec ≢ success
        → w ≡ settled k (on_write ec (v.io.srv.conns k)) v.queued v.database v
        → EndStep v w
    write_served :
        (k : ℕ) (text : Bytes)
        → k < v.io.srv.next_id
        → (v.io.srv.conns k).writing ≡ some text
        → (v.io.srv.conns k).is_open ≡ true
        → w ≡ settled k (on_write success (v.io.srv.conns k)) v.queued v.database v
        → EndStep v w
    write_queued :
        (k q : ℕ) (text : Bytes)
        → k < v.io.srv.next_id
        → (v.io.srv.conns k).writing ≡ some text
        → v.queued ≡ suc q
        → w ≡ settled k (on_write success (v.io.srv.conns k)) q v.database v
        → EndStep v w
    read_timed_out :
        (k : ℕ)
        → k < v.io.srv.next_id
        → 0 < (v.io.srv.conns k).read_waits
        → w ≡ settled k (on_read_timer success (v.io.srv.conns k)) v.queued v.database v
        → EndStep v w
    write_timed_out :
        (k : ℕ)
        → k < v.io.srv.next_id
        → 0 < (v.io.srv.conns k).write_waits
        → w ≡ settled k (on_write_timer success (v.io.srv.conns k)) v.queued v.database v
        → EndStep v w

  -- `n` handlers, one behind the other.
  pub data Ends (v : Ending S) : ℕ → Ending S → Type 0 where
    now : Ends v 0 v
    then_handler : {n : ℕ} {u w : Ending S} → Ends v n u → EndStep u w → Ends v (suc n) w
