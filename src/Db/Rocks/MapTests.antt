-- ===== src/Db/Rocks/MapTests.antt =====
-- The store as a map, and its endpoints, over the small engine of Tests.
use quitsies.Prelude.{
  ◌≡◌, refl, fun_ext, List, [], ◌∷◌, ◌++◌, Option, none, some, All, arith, true, false,
}
use quitsies.Prelude.Int.{pos}
use quitsies.Text.{Bytes, codes}
use quitsies.Text.Decimal.{print}
use quitsies.Db.Memory.{lookup, lookup-insert, lookup-remove}
use quitsies.Stats.Aggregator.{Tables}
use quitsies.Tcp.Request.Types.{no_command}
use quitsies.Tcp.Request.Command.{is_white_space}
use quitsies.Tcp.Connection.{Connection, make_connection, start}
use quitsies.Tcp.Connection.Conversation.{conversation, start-IsReady, start-IsUntimed}
use quitsies.Tcp.Connection.Untimed.{StaysUntimed}
use quitsies.Tcp.Memcached.Spec.{Op, add_op, get_op, Map, replies}
use quitsies.Tcp.Request.Words.{name}
use quitsies.Tcp.Memcached.Cuts.{stem}
use quitsies.Tcp.Connection.Chunked.{IsCutOp, chunks_of, ops_of, conversation-cut_replies}
use quitsies.Tcp.Memcached.Keeps.{IsMap}
use quitsies.Db.Rocks.Engine.{statsd_stats}
use quitsies.Db.Rocks.Store.{rocks}
use quitsies.Db.Rocks.Map.{EngineAnswers, IsEngine, rocks_view, rocks-IsMap, conversation-rocks}
use quitsies.Db.Rocks.Routes.{
  Multiplexer, EndpointList, Method, http_get, http_put, http_post, Report, register_endpoints,
  endpoint_lines, routes, BackupsApart, IsSafe, routes-IsSafe,
}
use quitsies.Db.Rocks.Lifetime.{constructed, destroy}
use quitsies.Db.Rocks.Tests.{Pairs, pairs, opened, found}

abbrev pairs_view : Pairs → Map
pairs_view e key = lookup key e

found-EngineAnswers : (o : Option Bytes) → EngineAnswers o (found o)
found-EngineAnswers none = (refl, refl)
found-EngineAnswers (some value) = (refl, refl)

pairs-IsEngine : IsEngine pairs pairs_view
pairs-IsEngine = record {
  gets = λ key e. found-EngineAnswers (lookup key e);
  get_keeps = λ key e. refl;
  puts = λ key value e. refl;
  put_updates = λ key value e. fun_ext (λ j. lookup-insert key j value e);
  deletes = λ key e. refl;
  delete_updates = λ key e. fun_ext (λ j. lookup-remove key j e);
}

rocks-IsMap_example :
    IsMap (rocks pairs statsd_stats) (rocks_view pairs statsd_stats pairs_view pairs-IsEngine)
rocks-IsMap_example = rocks-IsMap pairs statsd_stats pairs_view pairs-IsEngine

-- The first arrives in three chunks, and the last in two.
abbrev cuts : List (Op × List Bytes)
cuts =
    (
      add_op (codes "k") 0 0 false (codes "v"),
      codes "ad" ∷ codes "d k 0 0 1\r\nv" ∷ codes "\r\n" ∷ [],
    )
    ∷ (add_op (codes "k") 0 0 true (codes "w"), codes "add k 0 0 1 noreply\r\nw\r\n" ∷ [])
    ∷ (get_op (codes "k" ∷ []), codes "get k" ∷ codes "\r\n" ∷ [])
    ∷ []

cuts-IsCutOp : All IsCutOp cuts
unfolding is_white_space name print
cuts-IsCutOp = (
  ((((refl, tt), λ e. cc), omega arith, omega arith, omega arith), ([], refl, refl)),
  (
    (
      (((refl, tt), λ e. cc), omega arith, omega arith, omega arith),
      (stem (add_op (codes "k") 0 0 true (codes "w")), refl, refl),
    ),
    (((((refl, tt), λ e. cc), tt), (codes "\r", refl, refl)), tt),
  ),
)

-- The connection of a server that sets no timeout.
abbrev untimed : Connection
untimed = start (make_connection no_command 0 0 (pos 0) (pos 0))

conversation-rocks_example :
    (conversation (rocks pairs statsd_stats) (chunks_of cuts) untimed opened
      ≡ replies (ops_of cuts) (pairs_view []))
    × StaysUntimed (rocks pairs statsd_stats) (chunks_of cuts) untimed opened
conversation-rocks_example =
    conversation-rocks pairs statsd_stats pairs_view pairs-IsEngine cuts no_command 0 (pos 0)
      (pos 0) opened cuts-IsCutOp refl refl

conversation-cut_replies_example :
    (conversation (rocks pairs statsd_stats) (chunks_of cuts) untimed opened
      ≡ replies (ops_of cuts) (pairs_view []))
    × StaysUntimed (rocks pairs statsd_stats) (chunks_of cuts) untimed opened
conversation-cut_replies_example =
    conversation-cut_replies (rocks pairs statsd_stats)
      (rocks_view pairs statsd_stats pairs_view pairs-IsEngine)
      (rocks-IsMap pairs statsd_stats pairs_view pairs-IsEngine) cuts untimed opened cuts-IsCutOp
      (start-IsReady no_command 0 (pos 0) (pos 0))
      (start-IsUntimed no_command 0 (pos 0) (pos 0) refl refl)

abbrev report : Report Pairs
report = record { num_keys = λ e. 3; stats_text = λ e. none }

pairs-BackupsApart : BackupsApart pairs pairs_view
pairs-BackupsApart = record { opening_keeps = λ path e. refl; asking_keeps = λ path e. refl }

routes-IsSafe_example :
    All
      (IsSafe pairs statsd_stats report pairs_view pairs-IsEngine pairs-BackupsApart)
      (routes pairs statsd_stats report)
routes-IsSafe_example =
    routes-IsSafe pairs statsd_stats report pairs_view pairs-IsEngine pairs-BackupsApart

-- A multiplexer that keeps each path with one method, the last first.
abbrev method_name : Method → Bytes
method_name http_get = codes "GET"
method_name http_put = codes "PUT"
method_name http_post = codes "POST"

abbrev listing : Multiplexer Pairs Tables EndpointList
listing = record { handle = λ path m handler l. (path, method_name m ∷ []) ∷ l }

endpoints_text :
    endpoint_lines (register_endpoints pairs statsd_stats report listing [])
    ≡ codes "GET /endpoints\nGET /backup_info\nPOST /backup_clean\nPOST /backup_create\n"
      ++ codes "POST /key/{key}\nPUT /key/{key}\nGET /key/{key}\nGET /stats\n"
unfolding register_endpoints
endpoints_text = refl

-- A store that was never opened deletes what its pointer happened to be.
unopened : (destroy (constructed 77)).0 ≡ 77 ∷ []
unfolding destroy
unopened = refl
