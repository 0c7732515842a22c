-- ===== src/Tcp/Connection/Conversation.antt =====
-- A whole conversation on one connection: the chunks that a client sends and what is written to its
-- socket, from src/quitsies/tcp/connection.cpp down to the database.
use quitsies.Prelude.{
  ℕ, false, ◌≡◌, refl, List, [], ◌∷◌, ◌++◌, none, some, Result, ok, err, if◌then◌else◌, arith,
}
use quitsies.Prelude.Int.{ℤ}
use quitsies.Text.{Bytes}
use quitsies.Db.Store.{Store}
use quitsies.Tcp.Request.Types.{Request, CommandType, no_command, finished, init, reset}
use quitsies.Tcp.Connection.{
  Connection, success, Outcome, make_connection, start, on_read, on_finished, on_write, go_on,
  is_positive,
}
use quitsies.Tcp.Memcached.Spec.{Op, request_of}

-- The connection waits for a request that has not begun.
abbrev pub IsReady : Connection → Type 0
IsReady c = (c.writing ≡ none) × (c.reads ≡ 1) × (c.request ≡ init c.request.cmd 0)

-- No timer is armed, and none ever will be: a timeout that is not positive arms none.
abbrev pub IsUntimed : Connection → Type 0
IsUntimed c =
    ((is_positive c.read_timeout ≡ false) × (is_positive c.write_timeout ≡ false))
    × ((c.read_waits ≡ 0) × (c.write_waits ≡ 0))

-- What is handed to `async_write`, if anything is; the write ends with success, and the connection
-- goes on.
abbrev pub delivered : Outcome → List Bytes × Connection
delivered o = elim o.after.writing [
  | none ↦ ([], o.after)
  | some reply ↦ (reply ∷ [], (on_write success o.after).after)
]

module _ {S : Type 0} (db : Store S) where
  -- What is handed to `async_write` while a client sends these chunks, each behind the reply of the
  -- one before. No operation of the network library fails here, and no timer ends a wait.
  unfoldable pub conversation : List Bytes → Connection → S → List Bytes
  unfolding on_read on_write
  conversation [] c s = []
  conversation (chunk ∷ chunks) c s =
      let (result, t) = on_read (some db) success chunk c s in
      elim result [
        | err what ↦ []
        | ok o ↦ (delivered o).0 ++ conversation chunks (delivered o).1 t
      ]

pub delivered-nothing : (c : Connection) → c.writing ≡ none → delivered (go_on c) ≡ ([], c)
delivered-nothing c w = simp (w) refl

-- The handler wrote `out`, and the connection is ready for the next request.
abbrev pub Serves : List Bytes → Result Outcome → Type 0
Serves out (ok o) = ((delivered o).0 ≡ out) × IsReady (delivered o).1
Serves out (err what) = ⊥

abbrev pub answer_of : Request → List Bytes
answer_of q = if q.no_reply then [] else q.response ∷ []

pub on_finished-Serves :
    (c : Connection)
    → c.request.status ≡ finished
    → c.writing ≡ none
    → c.reads ≡ 0
    → reset c.request ≡ init no_command 0
    → Serves (answer_of c.request) (on_finished c)
unfolding on_finished on_write init
on_finished-Serves c f w r e = ground arith

-- The chunks of a client that sends each command in one.
abbrev pub requests : List Op → List Bytes
requests [] = []
requests (op ∷ ops) = request_of op ∷ requests ops

-- A connection that was accepted and started, and has no limit, is one that waits.
pub start-IsReady :
    (junk : CommandType) (now : ℕ) (read_timeout write_timeout : ℤ)
    → IsReady (start (make_connection junk now 0 read_timeout write_timeout))
unfolding start make_connection
start-IsReady junk now read_timeout write_timeout = ground arith

pub start-IsUntimed :
    (junk : CommandType) (now : ℕ) (read_timeout write_timeout : ℤ)
    → is_positive read_timeout ≡ false
    → is_positive write_timeout ≡ false
    → IsUntimed (start (make_connection junk now 0 read_timeout write_timeout))
unfolding start make_connection
start-IsUntimed junk now read_timeout write_timeout r w = ground arith
