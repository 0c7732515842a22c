-- ===== src/Db/Rocks/Lock.antt =====
-- The lock of `rocks` around the commands of the protocol.
use quitsies.Prelude.{false, ◌≡◌, refl, ◌∙◌, List, arith, ◌&&◌}
use quitsies.Text.{Bytes}
use quitsies.Tcp.Request.Types.{CommandType, add}
use quitsies.Tcp.Request.Response.{respond, add_key, add_found}
use quitsies.Tcp.Request.Locking.{Counted, is_add, is_err, respond-held}
use quitsies.Db.Rocks.Engine.{Engine, Aggregator}
use quitsies.Db.Rocks.Store.{Rocks, rocks, rocks_get, rocks_put, rocks_del}

module _ {E A : Type 0} (db : Engine E) (stats : Aggregator A) where
  rocks-Counted : Counted (rocks db stats) (λ s. s.held)
  unfolding rocks rocks_get rocks_put rocks_del
  rocks-Counted = record {
    get_keeps = λ key s. ground arith;
    del_keeps = λ key s. ground arith;
    put_keeps = λ key value s. ground arith;
    lock_counts = λ s. refl;
    unlock_counts = λ s n h. omega (arith, h);
    lock_ok = λ s. refl;
    unlock_ok = λ s. refl;
  }

  add_key-ok :
      (key value : Bytes) (s : Rocks E A) → is_err (add_key (rocks db stats) key value s).0 ≡ false
  unfolding add_key add_found rocks rocks_get rocks_put
  add_key-ok key value s = ground arith

  respond-ok :
      (c : CommandType) (key : Bytes) (keys : List Bytes) (value : Bytes) (s : Rocks E A)
      → (is_add c && is_err (respond (rocks db stats) c key keys value s).0) ≡ false
  unfolding respond
  respond-ok add key keys value s = add_key-ok key value s
  respond-ok _ key keys value s = refl

  -- Over RocksDB, which returns its errors, every command leaves the lock of the database as it
  -- was, whatever RocksDB answers.
  respond-rocks :
      (c : CommandType) (key : Bytes) (keys : List Bytes) (value : Bytes) (s : Rocks E A)
      → (respond (rocks db stats) c key keys value s).1.held ≡ s.held
  respond-rocks c key keys value s =
      respond-held (rocks db stats) (λ t. t.held) rocks-Counted c key keys value s
      ∙ rw (respond-ok c key keys value s)
