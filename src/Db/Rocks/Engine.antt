-- ===== src/Db/Rocks/Engine.antt =====
-- What the store calls: RocksDB, and the aggregator of src/quitsies/stats/aggregator.hpp. RocksDB is
-- a parameter, a record of its operations on a state of its own.
use quitsies.Prelude.{ℕ, Bool, List}
use quitsies.Text.{Bytes}
use quitsies.Stats.Aggregator.{Tables, counter, timer, gauge, set}
use quitsies.Db.Rocks.Backups.{BackupInfo}

-- `rocksdb::Status`.
pub record EngineStatus : Type 0 where
  pub is_ok : Bool
  pub is_not_found : Bool
  pub text : Bytes

-- `get` returns what it leaves in `*value`, which starts empty.
pub record Engine (E : Type 0) : Type 0 where
  pub get : Bytes → E → (EngineStatus × Bytes) × E
  pub delete : Bytes → E → EngineStatus × E
  pub put : Bytes → Bytes → E → EngineStatus × E
  -- The backups at a path.
  pub open_backups : Bytes → E → EngineStatus × E
  pub create_backup : Bytes → E → EngineStatus × E
  pub purge_backups : Bytes → ℕ → E → EngineStatus × E
  pub backup_info : Bytes → E → List BackupInfo × E

-- The class `aggregator`, on its own state. `on_epoch` is called by `rocks::open` only.
pub record Aggregator (A : Type 0) : Type 0 where
  pub counter : Bytes → ℕ → A → A
  pub timer : Bytes → ℕ → A → A
  pub gauge : Bytes → ℕ → A → A
  pub set : Bytes → ℕ → A → A

-- `statsd_aggregator` as an aggregator.
unfoldable pub statsd_stats : Aggregator Tables
unfolding counter timer gauge set
statsd_stats = record { counter = counter; timer = timer; gauge = gauge; set = set }

-- `null_aggregator`, which keeps nothing.
abbrev pub null_stats : Aggregator (Unit {0})
null_stats = record {
  counter = λ name v a. a;
  timer = λ name v a. a;
  gauge = λ name v a. a;
  set = λ name v a. a;
}
