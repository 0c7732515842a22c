-- ===== src/Db/Rocks/Tests.antt =====
-- The store over a small engine, a list of pairs that refuses to read one key.
use quitsies.Prelude.{
  ◌↔◌, ok, err, ◌%◌, ◌^◌, ◌+◌, true, false, ◌≡◌, refl, List, [], ◌∷◌, ◌++◌, Option, none, some,
  arith,
}
use quitsies.Prelude.Int.{ℤ, pos, negsuc}
use quitsies.Db.Rocks.Open.{
  Disk, Settings, default_settings, db_options, rocks_open, rocks_open_ttl, IsCutTo0,
}
use quitsies.Text.{Bytes, codes, eqb_iff}
use quitsies.Db.Memory.{lookup, insert, remove, lookup-insert}
use quitsies.Stats.Aggregator.{Tables, no_tables}
use quitsies.Tcp.Request.Types.{init, no_command, set, add, get}
use quitsies.Tcp.Request.Command.{is_white_space}
use quitsies.Tcp.Request.Response.{respond, caught}
use quitsies.Tcp.Request.Process.{process}
use quitsies.Tcp.Request.Words.{name}
use quitsies.Tcp.Request.Storage.{storage_request}
use quitsies.Tcp.Request.Retrieval.{retrieval_request}
use quitsies.Tcp.Memcached.Spec.{text, values}
use quitsies.Db.Rocks.Engine.{Engine, EngineStatus, statsd_stats}
use quitsies.Db.Rocks.Backups.{backup_info_text, json_objects, BackupInfo, backup_info_text-json}
use quitsies.Db.Rocks.Store.{Rocks, rocks}
use quitsies.Db.Rocks.Http.{key_get, key_put}
use quitsies.Db.Rocks.Folder.{
  Folder, file, unreadable, folder, ends, breaks, entry, get_folder_size, folder_bytes, is_whole,
  returned, get_folder_size-adds,
}
use quitsies.Db.Rocks.Served.{Remembers, key_put-get, set-key_get, get_failed}

abbrev pub fine : EngineStatus
fine = record { is_ok = true; is_not_found = false; text = codes "OK" }

abbrev absent : EngineStatus
absent = record { is_ok = false; is_not_found = true; text = codes "NotFound: " }

abbrev corrupt : EngineStatus
corrupt = record { is_ok = false; is_not_found = false; text = codes "Corruption: block" }

abbrev pub found : Option Bytes → EngineStatus × Bytes
found none = (absent, [])
found (some value) = (fine, value)

abbrev pub Pairs : Type 0
Pairs = List (Bytes × Bytes)

abbrev pub pairs : Engine Pairs
pairs = record {
  get = λ key e. (found (lookup key e), e);
  delete = λ key e. (fine, remove key e);
  put = λ key value e. (fine, insert key value e);
  open_backups = λ path e. (fine, e);
  create_backup = λ path e. (fine, e);
  purge_backups = λ path keep e. (fine, e);
  backup_info = λ path e. ([], e);
}

abbrev broken : Engine Pairs
broken = record pairs { get = λ key e. ((corrupt, []), e) }

abbrev pub opened : Rocks Pairs Tables
opened = record { path = codes "/tmp/quitsies"; engine = []; local_stats = no_tables; held = 0 }

pub lookup-inserted : (key value : Bytes) (e : Pairs) → lookup key (insert key value e) ≡ some value
lookup-inserted key value e = ground (arith, lookup-insert key key value e, eqb_iff key key)

pairs-Remembers : Remembers pairs
pairs-Remembers = record {
  finds = λ key value e h. rw (lookup-inserted key value e) refl;
  returns = λ key value e h. rw (lookup-inserted key value e) refl;
}

key_put-get_example :
    (process
      (some (rocks pairs statsd_stats))
      (retrieval_request get (codes "k" ∷ []))
      (init no_command 0, (key_put pairs statsd_stats (codes "k") (codes "v") opened).1)).0.response
    ≡ text (values ((codes "k", codes "v") ∷ []))
unfolding is_white_space key_put
key_put-get_example =
    key_put-get pairs statsd_stats pairs-Remembers no_command (codes "k") (codes "v") opened
      ((refl, tt), λ e. cc) refl

abbrev set_k : Bytes
set_k = storage_request set (codes "k") 0 0 false (codes "v")

set-key_get_example :
    (key_get pairs statsd_stats
      (codes "k")
      (process (some (rocks pairs statsd_stats)) set_k (init no_command 0, opened)).1).0
    ≡ record { code = 200; body = codes "v" }
unfolding is_white_space process init rocks name
set-key_get_example =
    set-key_get pairs statsd_stats pairs-Remembers no_command (codes "k") (codes "v") 0 0 opened
      ((refl, tt), λ e. cc) (omega arith) (omega arith) (omega arith) refl

get_failed_example :
    (caught (respond (rocks broken statsd_stats) add (codes "k") [] (codes "v") opened).0
      ≡ codes "ERROR \r\n")
    × ((respond (rocks broken statsd_stats) add (codes "k") [] (codes "v") opened).1.engine ≡ [])
    × ((key_get broken statsd_stats (codes "k") opened).0 ≡ record { code = 500; body = [] })
get_failed_example = get_failed broken statsd_stats (codes "k") (codes "v") opened refl refl

abbrev backups : List BackupInfo
backups =
    record { backup_id = 1; timestamp = pos 10; size = 5 }
    ∷ record { backup_id = 2; timestamp = pos 20; size = 6 }
    ∷ []

backups_text :
    backup_info_text backups
    ≡ codes
        "[{\"id\":\"1\", \"timestamp\":10, \"size\":5},{\"id\":\"2\", \"timestamp\":20, \"size\":6}]"
unfolding backup_info_text
backups_text = refl

backup_info_text-json_example :
    backup_info_text backups ≡ codes "[" ++ (json_objects backups ++ codes "]")
backup_info_text-json_example = backup_info_text-json backups

abbrev database_folder : Folder
database_folder = entry (file 10) (
    entry (folder (entry (file 5) (breaks (codes "gone"))))
      (entry (unreadable (codes "gone")) ends))

get_folder_size-adds_example :
    ((get_folder_size database_folder 0).1 % 2 ^ 64 ≡ (0 + folder_bytes database_folder) % 2 ^ 64)
    × (returned (get_folder_size database_folder 0).0 ≡ is_whole database_folder)
get_folder_size-adds_example = get_folder_size-adds database_folder 0

-- A disk that keeps the time to live that it was opened with.
abbrev disk : Disk ℤ
disk = record {
  open_backups = λ path d. (fine, d);
  restore_latest = λ path to d. (fine, d);
  open_db = λ options path ttl d. (fine, ttl);
}

abbrev restoring : Settings
restoring = record default_settings { restore = true }

-- 2^32 seconds are none.
abbrev long_lived : Settings
long_lived = record default_settings { ttl = pos 4294967296 }

cut_to_0 : rocks_open disk b'n' long_lived (pos 9) ≡ (ok tt, pos 0)
unfolding rocks_open
cut_to_0 = refl

rocks_open_ttl_example :
    (t : ℤ) × ((rocks_open disk b'n' long_lived (pos 9)).1
      ≡ (disk.open_db (db_options long_lived) long_lived.path t (pos 9)).1)
    × ((t ≡ pos 0) ↔ IsCutTo0 long_lived.ttl)
rocks_open_ttl_example = rocks_open_ttl disk b'n' long_lived (pos 9) refl

refused_restore :
    rocks_open disk b'n' restoring (pos 9) ≡ (err (codes "Aborting backup restore"), pos 9)
unfolding rocks_open
refused_restore = refl

default_ttl : (rocks_open disk b'n' default_settings (pos 9)).1 ≡ negsuc 0
unfolding rocks_open
default_ttl = refl
