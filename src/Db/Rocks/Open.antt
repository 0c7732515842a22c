-- ===== src/Db/Rocks/Open.antt =====
-- `rocks::open` and the options of the store: src/quitsies/db/rocks.cpp. What is on the disk, with
-- the backup engine and RocksDB's `Open` on it, is a parameter.
use quitsies.Prelude.{
  ◌<◌, ◌%◌, ◌^◌, ℕ, zero, suc, ◌+◌, Bool, true, false, not, ◌≡◌, ◌↔◌, [], ◌∷◌, ◌++◌, if◌then◌else◌,
  Result, ok, err, arith, ◌==◌,
}
use quitsies.Prelude.Int.{ℤ, pos, negsuc}
use quitsies.Text.{Bytes, codes}
use quitsies.Options.Kinds.{bool_option, int_option, str_option}
use quitsies.Options.Parse.{Sections}
use quitsies.Tcp.Request.Process.{to_size}
use quitsies.Tcp.Server.{to_int}
use quitsies.Db.Rocks.Engine.{EngineStatus}

-- The fields that the options fill.
pub record Settings : Type 0 where
  pub path : Bytes
  pub ttl : ℤ
  pub memtable : ℤ
  pub shard_bits : ℤ
  pub block_cap : ℤ
  pub max_files : ℤ
  pub debug : Bool
  pub write_mode : Bool
  pub restore : Bool

-- The constructor.
abbrev pub default_settings : Settings
default_settings = record {
  path = codes "/tmp/quitsies";
  ttl = pos 0;
  memtable = pos 134217728;
  shard_bits = pos 4;
  block_cap = pos 8388608;
  max_files = negsuc 0;
  debug = false;
  write_mode = false;
  restore = false;
}

-- The options of `register_options` behind those that are there; the variables of each kind have
-- numbers from the given ones on.
abbrev pub register_options : ℕ → ℕ → ℕ → Sections → Sections
register_options str int bool sections =
    sections
    ++ (
      codes "DB",
      str_option b'?' (codes "db_path") (codes "Path to store DB files.") str
          ∷ int_option b'?' (codes "db_ttl")
              (codes "A TTL for all DB items. WARN: This applies to old records.") int
          ∷ int_option b'?' (codes "db_max_open_files")
              (codes "Max # of open files, -1 is unlimited.") (int + 1)
          ∷ int_option b'?' (codes "db_memtable")
              (codes "Set the memtable size. Higher == faster writes.") (int + 2)
          ∷ int_option b'?' (codes "db_shard_bits")
              (codes "Set the block cache shard bits. 4 == 16 shards.") (int + 3)
          ∷ int_option b'?' (codes "db_block_cap")
              (codes "Set the cap to the block_cache. Higher == faster reads.") (int + 4)
          ∷ bool_option b'd' (codes "db_debug")
              (codes "Collect more granular RocksDB metrics at a small cost to performance.") bool
          ∷ bool_option b'?' (codes "db_write_mode")
              (codes "Optimize RocksDB compaction for write amp.") (bool + 1)
          ∷ bool_option b'?' (codes "db_restore_backup") (codes "Restore DB from a backup.")
              (bool + 2)
          ∷ [],
    )
      ∷ []

pub data Compaction : Type 0 where
  universal level : ℤ → Compaction

-- What RocksDB is opened with.
pub record DbOptions : Type 0 where
  pub compaction : Compaction
  pub block_cap : ℕ
  pub shard_bits : ℤ
  pub create_if_missing : Bool
  pub max_open_files : ℤ
  pub collects_statistics : Bool

pub record Disk (D : Type 0) : Type 0 where
  pub open_backups : Bytes → D → EngineStatus × D
  pub restore_latest : Bytes → Bytes → D → EngineStatus × D
  pub open_db : DbOptions → Bytes → ℤ → D → EngineStatus × D

-- The capacity becomes a `size_t`, and the number of bits and that of files an `int`.
abbrev pub db_options : Settings → DbOptions
db_options s = record {
  compaction = if s.write_mode then universal s.memtable else level s.memtable;
  block_cap = to_size s.block_cap;
  shard_bits = to_int s.shard_bits;
  create_if_missing = true;
  max_open_files = to_int s.max_files;
  collects_statistics = s.debug;
}

-- RocksDB takes a time to live of 0 for one that is over.
abbrev pub effective_ttl : ℤ → ℤ
effective_ttl (pos zero) = negsuc 0
effective_ttl (pos (suc n)) = pos (suc n)
effective_ttl (negsuc n) = negsuc n

-- A multiple of 2^32 that is not 0.
abbrev pub IsCutTo0 : ℤ → Type 0
IsCutTo0 (pos n) = (0 < n) × (n % 2 ^ 32 ≡ 0)
IsCutTo0 (negsuc n) = suc n % 2 ^ 32 ≡ 0

effective_ttl_iff : (t : ℤ) → (to_int (effective_ttl t) ≡ pos 0) ↔ IsCutTo0 t
effective_ttl_iff (pos zero) = ground arith
effective_ttl_iff (pos (suc n)) = ground arith
effective_ttl_iff (negsuc n) = ground arith

abbrev pub says_yes : ℕ → Bool
says_yes c = if c == 121 then true else c == 89

module _ {D : Type 0} (disk : Disk D) where
  -- The restoring of a backup, and its status.
  unfoldable pub restore_backup : Settings → D → EngineStatus × D
  restore_backup s d =
      let (opened, e) = disk.open_backups (s.path ++ codes "_backup") d in
      if opened.is_ok then disk.restore_latest s.path s.path e else (opened, e)

  -- RocksDB takes the time to live as a 32-bit integer.
  unfoldable pub open_database : Settings → D → Result (Unit {0}) × D
  open_database s d =
      let (st, e) = disk.open_db (db_options s) s.path (to_int (effective_ttl s.ttl)) d in
      if not st.is_ok
      then (err (codes "Database failed to open at " ++ (s.path ++ (codes ": " ++ st.text))), e)
      else (ok tt, e)

  -- `open`, up to the call of `on_epoch`. `answer` is the first byte of the standard input.
  unfoldable pub rocks_open : ℕ → Settings → D → Result (Unit {0}) × D
  unfolding restore_backup open_database
  rocks_open answer s d =
      if s.restore
      then if not (says_yes answer)
        then (err (codes "Aborting backup restore"), d)
        else if not (restore_backup s d).0.is_ok
        then (err (codes "failed to restore backup"), (restore_backup s d).1)
        else open_database s (restore_backup s d).1
      else open_database s d

  -- Without a restore, the store opens with some time to live. This is 0, which RocksDB takes for one
  -- that is over, exactly if the option is a multiple of 2^32 that is not 0: `open` replaces a 0, but
  -- looks before the number is cut to 32 bits.
  pub rocks_open_ttl :
      (answer : ℕ) (s : Settings) (d : D)
      → s.restore ≡ false
      → (t : ℤ) × ((rocks_open answer s d).1 ≡ (disk.open_db (db_options s) s.path t d).1)
        × ((t ≡ pos 0) ↔ IsCutTo0 s.ttl)
  unfolding rocks_open open_database
  rocks_open_ttl answer s d none_asked =
      (to_int (effective_ttl s.ttl), ground arith, effective_ttl_iff s.ttl)
