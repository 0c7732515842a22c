-- ===== src/Db/Rocks/Map.antt =====
-- `rocks` as the map of the protocol: src/quitsies/db/rocks.cpp under src/quitsies/tcp.
use quitsies.Prelude.{ℕ, true, false, ◌≡◌, refl, ◌∙◌, ap, List, Option, none, some, All, arith}
use quitsies.Prelude.Int.{ℤ}
use quitsies.Text.{Bytes}
use quitsies.Tcp.Request.Types.{CommandType}
use quitsies.Tcp.Connection.{make_connection, start, is_positive}
use quitsies.Tcp.Connection.Conversation.{conversation, start-IsReady, start-IsUntimed}
use quitsies.Tcp.Connection.Untimed.{StaysUntimed}
use quitsies.Tcp.Memcached.Spec.{Op, Map, update, replies}
use quitsies.Tcp.Connection.Chunked.{IsCutOp, chunks_of, ops_of, conversation-cut_replies}
use quitsies.Tcp.Memcached.Keeps.{Answers, IsMap}
use quitsies.Db.Rocks.Engine.{EngineStatus, Engine, Aggregator}
use quitsies.Db.Rocks.Store.{Rocks, rocks, rocks_get, rocks_put, rocks_del}

-- What `Get` answers for what the database has.
abbrev pub EngineAnswers : Option Bytes → EngineStatus × Bytes → Type 0
EngineAnswers none found = (found.0.is_ok ≡ false) × (found.0.is_not_found ≡ true)
EngineAnswers (some value) found = (found.0.is_ok ≡ true) × (found.1 ≡ value)

-- What RocksDB documents, as long as the disk does not fail: what was put is there until it is
-- deleted, and the deletion of a key that is not there is no error.
pub record IsEngine {E : Type 0} (db : Engine E) (view : E → Map) : Type 0 where
  pub gets : (key : Bytes) (e : E) → EngineAnswers (view e key) (db.get key e).0
  pub get_keeps : (key : Bytes) (e : E) → view (db.get key e).1 ≡ view e
  pub puts : (key value : Bytes) (e : E) → (db.put key value e).0.is_ok ≡ true
  pub put_updates :
      (key value : Bytes) (e : E) → view (db.put key value e).1 ≡ update key (some value) (view e)
  pub deletes : (key : Bytes) (e : E) → (db.delete key e).0.is_ok ≡ true
  pub delete_updates : (key : Bytes) (e : E) → view (db.delete key e).1 ≡ update key none (view e)

module _ {E A : Type 0} (db : Engine E) (stats : Aggregator A) (view : E → Map)
    (law : IsEngine db view) where
  abbrev pub rocks_view : Rocks E A → Map
  rocks_view s = view s.engine

  rocks_get-Answers :
      (key : Bytes) (o : Option Bytes) (s : Rocks E A)
      → EngineAnswers o (db.get key s.engine).0
      → Answers o (rocks_get db stats key s).0
        × ((rocks_get db stats key s).1.engine ≡ (db.get key s.engine).1)
  unfolding rocks_get
  rocks_get-Answers key none s h = ground arith
  rocks_get-Answers key (some value) s h = ground arith

  rocks_put-ok :
      (key value : Bytes) (s : Rocks E A)
      → (db.put key value s.engine).0.is_ok ≡ true
      → ((rocks_put db stats key value s).0.is_ok ≡ true)
        × ((rocks_put db stats key value s).1.engine ≡ (db.put key value s.engine).1)
  unfolding rocks_put
  rocks_put-ok key value s h = ground arith

  -- The class `rocks` is a map, as the protocol's specification asks of a database, over any
  -- RocksDB that is one.
  pub rocks-IsMap : IsMap (rocks db stats) rocks_view
  unfolding rocks rocks_del
  rocks-IsMap = record {
    gets = λ key s.
        let (a, same) = rocks_get-Answers key (view s.engine key) s (law.gets key s.engine) in
        (
          (rocks_get db stats key s).0,
          (rocks_get db stats key s).1,
          refl,
          a,
          ap view same ∙ law.get_keeps key s.engine,
        );
    puts = λ key value s.
        let (fine, same) = rocks_put-ok key value s (law.puts key value s.engine) in
        (
          (rocks_put db stats key value s).0,
          (rocks_put db stats key value s).1,
          refl,
          fine,
          ap view same ∙ law.put_updates key value s.engine,
        );
    dels = λ key s. (_, _, refl, law.deletes key s.engine, law.delete_updates key s.engine);
    locks = λ s. (_, refl, refl);
    unlocks = λ s. (_, refl, refl);
  }

  -- The program from its socket to RocksDB: on a connection that was accepted without a size limit
  -- and with timeouts that are not positive, which arm no timer, a client that is alone sends any
  -- list of well-formed commands, each behind the reply of the one before and cut into chunks in
  -- any way that leaves what finishes it in its last chunk. As long as no operation of the network
  -- library fails, the texts that are handed to `async_write` are exactly the replies of a map that
  -- begins as what RocksDB has; and no timer runs meanwhile, so that none can end the connection.
  pub conversation-rocks :
      (cuts : List (Op × List Bytes)) (junk : CommandType) (now : ℕ)
      (read_timeout write_timeout : ℤ) (s : Rocks E A)
      → All IsCutOp cuts
      → is_positive read_timeout ≡ false
      → is_positive write_timeout ≡ false
      → let c = start (make_connection junk now 0 read_timeout write_timeout) in
        (conversation (rocks db stats) (chunks_of cuts) c s ≡ replies (ops_of cuts) (view s.engine))
        × StaysUntimed (rocks db stats) (chunks_of cuts) c s
  conversation-rocks cuts junk now read_timeout write_timeout s h r w =
      conversation-cut_replies (rocks db stats) rocks_view rocks-IsMap cuts _ s h
        (start-IsReady junk now read_timeout write_timeout)
        (start-IsUntimed junk now read_timeout write_timeout r w)
