-- ===== src/Tcp/Server/Clients/Tests.antt =====
-- Two clients: the first has sent a part of its `add`, and the second its `get` in one chunk.
use quitsies.Prelude.{ℕ, ◌≡◌, refl, [], ◌∷◌, some, arith, Result, ok, err, false, inl, inr}
use quitsies.Prelude.Int.{pos}
use quitsies.Text.{Bytes, codes}
use quitsies.Text.Decimal.{print}
use quitsies.Db.Memory.{Memory, memory}
use quitsies.Tcp.Request.Types.{init, no_command}
use quitsies.Tcp.Request.Words.{name}
use quitsies.Tcp.Request.Command.{is_white_space}
use quitsies.Tcp.Request.Process.{process, get_response}
use quitsies.Tcp.Connection.{
  Connection, Outcome, go_on, success, make_connection, start, on_read, on_status, on_finished,
  do_write,
}
use quitsies.Tcp.Server.Run.{run_threads}
use quitsies.Tcp.Connection.Conversation.{delivered}
use quitsies.Tcp.Memcached.History.{Explains}
use quitsies.Tcp.Memcached.Spec.{Op, IsOp, add_op, get_op, apply, reply_to}
use quitsies.Tcp.Memcached.Reference.{view, memory-IsMap}
use quitsies.Tcp.Server.{Server, make_server, on_accept, manager_start, put, settle_outcome}
use quitsies.Tcp.Server.Step.{Step, accepted, received}
use quitsies.Tcp.Server.Clients.{Sessions, no_sessions, begins, finishes, Play, begin, then_event}
use quitsies.Tcp.Server.Clients.Linear.{Play-Explains, Play-goes_on}

abbrev blank : Memory
blank = record { items = []; calls = [] }

abbrev unborn : ℕ → Connection
unborn k = make_connection no_command 0 0 (pos 0) (pos 0)

abbrev first : Server
first = make_server unborn 0

abbrev two_clients : Server
two_clients = on_accept no_command (on_accept no_command first)

abbrev adds : Op
adds = add_op (codes "k") 0 0 false (codes "v")

abbrev gets_k : Op
gets_k = get_op (codes "k" ∷ [])

adds-IsOp : IsOp adds
unfolding is_white_space
adds-IsOp = (((refl, tt), λ e. cc), omega arith, omega arith, omega arith)

gets_k-IsOp : IsOp gets_k
unfolding is_white_space
gets_k-IsOp = (((refl, tt), λ e. cc), tt)

abbrev part : Bytes
part = codes "add k 0 0 1\r\n"

-- The outcome of a chunk, and the database behind it.
abbrev outcome : Connection → Result Outcome → Outcome
outcome c (ok o) = o
outcome c (err what) = go_on c

abbrev handled : ℕ → Bytes → Server → Memory → Server × Memory
handled k chunk srv m =
    let read = on_read (some memory) success chunk (srv.conns k) m in
    (settle_outcome k (outcome (srv.conns k) read.0) srv, read.1)

abbrev third : Server × Memory
third = handled 0 part two_clients blank

abbrev begun_add : Sessions
begun_add = begins 0 part (begins 1 [] (begins 0 [] no_sessions))

two-Play : Play memory (first, blank) (two_clients, blank) (begins 1 [] (begins 0 [] no_sessions))
unfolding make_server on_accept manager_start
two-Play =
    then_event (then_event begin (accepted no_command refl) refl) (accepted no_command refl) refl

third-Play : Play memory (first, blank) third begun_add
unfolding make_server on_accept put manager_start start make_connection settle_outcome on_read
    process init on_status on_finished do_write get_response name print is_white_space
third-Play =
    then_event two-Play
      (received 0 success part
        (outcome (two_clients.conns 0)
          (on_read (some memory) success part (two_clients.conns 0) blank).0)
        blank (omega arith) (omega arith) (omega arith) refl refl)
      (adds, adds-IsOp, inl (codes "v", refl, refl))

abbrev fourth : Server × Memory
fourth = handled 1 (codes "get k\r\n") third.0 third.1

abbrev got : Sessions
got = finishes 1 gets_k (codes "END\r\n" ∷ []) begun_add

fourth-Play : Play memory (first, blank) fourth got
unfolding make_server on_accept put manager_start start make_connection settle_outcome on_read
    process init on_status on_finished do_write get_response name print is_white_space memory
fourth-Play =
    then_event third-Play
      (received 1 success (codes "get k\r\n")
        (outcome (third.0.conns 1)
          (on_read (some memory) success (codes "get k\r\n") (third.0.conns 1) third.1).0)
        fourth.1 (omega arith) (omega arith) (omega arith) refl refl)
      (gets_k, gets_k-IsOp, inr (codes "get k\r", refl, refl, refl))

one_thread : run_threads (pos 1) ≡ 0 ∷ []
unfolding run_threads
one_thread = refl

Play-Explains_example : Explains (view blank) got.exchanges (view fourth.1)
Play-Explains_example =
    Play-Explains memory view memory-IsMap unborn 0 blank (pos 1) fourth got one_thread fourth-Play

Play-goes_on_example :
    (o : Outcome) × (t : Memory) × (on_read
        (some memory)
        success
        (codes "v\r\n")
        (third.0.conns 0)
        third.1
      ≡ (ok o, t))
    × ((delivered o).0 ≡ reply_to adds (apply adds (view third.1)).1)
    × (view t ≡ (apply adds (view third.1)).0)
    × Step (some memory) third (settle_outcome 0 o third.0, t)
    × Play memory
        (first, blank)
        (settle_outcome 0 o third.0, t)
        (finishes 0 adds (delivered o).0 begun_add)
unfolding make_server on_accept put manager_start start make_connection settle_outcome on_read
    process init on_status on_finished do_write get_response name print is_white_space
Play-goes_on_example =
    Play-goes_on memory view memory-IsMap unborn 0 blank (pos 1) third begun_add 0 adds (codes "v")
      one_thread third-Play (omega arith) (omega arith) adds-IsOp refl (omega arith)
