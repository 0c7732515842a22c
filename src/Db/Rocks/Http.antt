-- ===== src/Db/Rocks/Http.antt =====
-- The HTTP handlers of `rocks::register_endpoints`: src/quitsies/db/rocks.cpp.
use quitsies.Prelude.{ℕ, [], ◌++◌, if◌then◌else◌, not}
use quitsies.Text.{Bytes, codes}
use quitsies.Db.Rocks.Engine.{EngineStatus, Engine, Aggregator}
use quitsies.Db.Rocks.Store.{Rocks, count, rocks_get, rocks_put}
use quitsies.Db.Rocks.Backups.{backup_info_text}

-- `served::response`, which begins as 200 with no body.
pub record Response : Type 0 where
  pub code : ℕ
  pub body : Bytes

abbrev pub fresh : Response
fresh = record { code = 200; body = [] }

-- `set_status` and `<<`.
abbrev pub failed : Bytes → Response
failed text = record { code = 500; body = text }

abbrev pub succeeded : Response
succeeded = record { code = 200; body = codes "Success" }

module _ {E A : Type 0} (db : Engine E) (stats : Aggregator A) where
  unfoldable pub key_get : Bytes → Rocks E A → Response × Rocks E A
  unfolding rocks_get
  key_get key s =
      let ((st, value), t) = rocks_get db stats key s in
      let reply =
        if st.is_ok
        then record fresh { body = value }
        else if st.is_not_found
        then record fresh { code = 404 }
        else failed st.msg in
      (reply, t)

  -- `put` and `post` of a key are the same.
  unfoldable pub key_put : Bytes → Bytes → Rocks E A → Response × Rocks E A
  unfolding rocks_put
  key_put key body s =
      let (st, t) = rocks_put db stats key body s in
      (if not st.is_ok then failed st.msg else fresh, t)

  abbrev pub backup_path : Rocks E A → Bytes
  backup_path s = s.path ++ codes "_backup"

  -- The end of `/backup_create` and of `/backup_clean`.
  abbrev pub backup_reply : Bytes → EngineStatus → E → Rocks E A → Response × Rocks E A
  backup_reply name st e s =
      if not st.is_ok
      then (failed st.text, count db stats (name ++ codes ".error") e s)
      else (succeeded, count db stats (name ++ codes ".success") e s)

  unfoldable pub backup_create : Rocks E A → Response × Rocks E A
  backup_create s =
      let (opened, e) = db.open_backups (backup_path s) s.engine in
      let (st, f) = if opened.is_ok then db.create_backup (backup_path s) e else (opened, e) in
      backup_reply (codes "rocksdb.backup.create") st f s

  unfoldable pub backup_clean : Rocks E A → Response × Rocks E A
  backup_clean s =
      let (opened, e) = db.open_backups (backup_path s) s.engine in
      let (st, f) = if opened.is_ok then db.purge_backups (backup_path s) 1 e else (opened, e) in
      backup_reply (codes "rocksdb.backup.clean") st f s

  unfoldable pub backup_info : Rocks E A → Response × Rocks E A
  unfolding backup_info_text
  backup_info s =
      let (opened, e) = db.open_backups (backup_path s) s.engine in
      let (infos, f) = db.backup_info (backup_path s) e in
      if not opened.is_ok
      then (failed opened.text, record s { engine = e })
      else (record fresh { body = backup_info_text infos }, record s { engine = f })
