-- ===== src/Tcp/Server/Clients/Linear.antt =====
-- Clients of one server, however their chunks, failures and timeouts interleave, see one map:
-- src/quitsies/tcp/server.cpp over connection.cpp and request.cpp.
use quitsies.Prelude.{
  [], ◌∷◌, ℕ, ◌<◌, ◌≤◌, ◌≡◌, refl, ap, ◌++◌, some, ok, err, Result, List, inr, arith, length,
}
use quitsies.Prelude.Int.{ℤ}
use quitsies.Text.{Bytes}
use quitsies.Db.Store.{Store}
use quitsies.Tcp.Connection.{Connection, success, Outcome, on_read}
use quitsies.Tcp.Connection.Conversation.{delivered, Serves}
use quitsies.Tcp.Connection.Reading.{on_read-Serves}
use quitsies.Tcp.Connection.Holding.{Holds-IsReading}
use quitsies.Tcp.Memcached.History.{Explains}
use quitsies.Tcp.Memcached.Spec.{Op, IsOp, Map, apply, reply_to}
use quitsies.Tcp.Memcached.Keeps.{IsMap}
use quitsies.Tcp.Memcached.Cuts.{stem, end_of}
use quitsies.Tcp.Server.{Server, make_server, settle_outcome}
use quitsies.Tcp.Server.Step.{Step, buffer_size, received}
use quitsies.Tcp.Server.Run.{run_threads}
use quitsies.Tcp.Server.Clients.{Sessions, no_sessions, finishes, Play, begin, then_event}
use quitsies.Tcp.Server.Clients.Kept.{Kept, Step-Kept}

Serves-ok :
    (out : List Bytes) (r : Result Outcome)
    → Serves out r
    → (o : Outcome) × (r ≡ ok o) × ((delivered o).0 ≡ out)
Serves-ok out (ok o) h = (o, refl, h.0)
Serves-ok out (err what) h = absurd h

module _ {S : Type 0} (db : Store S) (view : S → Map) (law : IsMap db view)
    (unborn : ℕ → Connection) (began : ℕ) (s : S) where
  make_server-Kept : Kept db view law (view s) (make_server unborn began, s) no_sessions
  unfolding make_server
  make_server-Kept = record {
    held = record { unlimited = refl; holds = λ k b. absurd (omega arith) };
    explained = refl;
  }

  Play-Kept :
      {w : Server × S} {g : Sessions}
      → Play db (make_server unborn began, s) w g
      → Kept db view law (view s) w g
  Play-Kept begin = make_server-Kept
  Play-Kept (then_event p st follows) = Step-Kept db view law (view s) st follows (Play-Kept p)

  -- Over a database that is a map, any number of clients send well-formed commands, each cut into
  -- chunks in any way that leaves what finishes it in its last chunk and behind the reply of the
  -- one before, to a server that begins without a size limit and whose read timeout is not set, and
  -- one thread runs the server, so that each handler ends before the next one begins. However
  -- the chunks interleave with each other and with new clients, with operations that fail, timers
  -- that expire and signals: one map, which begins as the database and executes the commands in the
  -- order in which their last chunks were handled, gives each command the reply that was handed to
  -- `async_write` for it, and is what the database has at the end.
  pub Play-Explains :
      (threads : ℤ) (w : Server × S) (g : Sessions)
      → run_threads threads ≡ 0 ∷ []
      → Play db (make_server unborn began, s) w g
      → Explains (view s) g.exchanges (view w.1)
  Play-Explains threads w g one p = (Play-Kept p).explained

  -- Over a database that is a map and with one thread that runs the server, on every server that is
  -- reached from its construction by the events of clients which send well-formed commands in
  -- chunks, its read timeout never being set: when the connection of a client reads, and a chunk of
  -- at most 8192 bytes holds the rest of a well-formed command, then the handler of that chunk ends
  -- with an outcome. The reply that is handed to `async_write` is that of the specification over
  -- what the database has, the database becomes what the specification says, and the server has made
  -- a step, with the command finished, to a server that is reached so again.
  pub Play-goes_on :
      (threads : ℤ) (w : Server × S) (g : Sessions) (k : ℕ) (op : Op) (b : Bytes)
      → run_threads threads ≡ 0 ∷ []
      → Play db (make_server unborn began, s) w g
      → k < w.0.next_id
      → 0 < (w.0.conns k).reads
      → IsOp op
      → g.unfinished k ++ b ≡ stem op
      → length (b ++ end_of op) ≤ buffer_size
      → (o : Outcome) × (t : S) × (on_read (some db) success (b ++ end_of op) (w.0.conns k) w.1
          ≡ (ok o, t))
        × ((delivered o).0 ≡ reply_to op (apply op (view w.1)).1)
        × (view t ≡ (apply op (view w.1)).0)
        × Step (some db) w (settle_outcome k o w.0, t)
        × Play db
            (make_server unborn began, s)
            (settle_outcome k o w.0, t)
            (finishes k op (delivered o).0 g)
  Play-goes_on threads w g k op b one p h r i cut small =
      let a = g.unfinished k in
      let read = on_read (some db) success (b ++ end_of op) (w.0.conns k) w.1 in
      let (served, viewed) =
        on_read-Serves db view law op a b (w.0.conns k) w.1 i cut
          (Holds-IsReading ((Play-Kept p).held.holds k h) r) in
      let (o, is_ok, out) = Serves-ok _ read.0 served in
      let e : read ≡ (ok o, read.1) = ap (λ x. (x, read.1)) is_ok in
      let st : Step (some db) w (settle_outcome k o w.0, read.1) =
        received k success (b ++ end_of op) o read.1 h r small e refl in
      (o, read.1, e, out, viewed, st, then_event p st (op, i, inr (b, cut, refl, refl)))
