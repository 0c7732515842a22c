-- ===== src/Db/Rocks/Store.antt =====
-- `rocks::get`, `rocks::put`, `rocks::del` and the lock: src/quitsies/db/rocks.cpp and rocks.hpp.
use quitsies.Prelude.{ℕ, suc, ◌-◌, Bool, true, false, [], if◌then◌else◌, ok}
use quitsies.Text.{Bytes, codes}
use quitsies.Db.Store.{Status, Store}
use quitsies.Db.Rocks.Engine.{Engine, Aggregator}

-- `held` says how many calls of `lock` have returned without their `unlock`.
pub record Rocks (E A : Type 0) : Type 0 where
  pub path : Bytes
  pub engine : E
  pub local_stats : A
  pub held : ℕ

-- The constructor of `status` with its defaults.
abbrev pub status_of : Bool → Bool → Bytes → Status
status_of is_ok is_not_found msg = record { is_ok = is_ok; is_not_found = is_not_found; msg = msg }

module _ {E A : Type 0} (db : Engine E) (stats : Aggregator A) where
  -- `_local_stats->counter(name, 1)`, behind a call that left the engine as `e`.
  abbrev pub count : Bytes → E → Rocks E A → Rocks E A
  count name e s = record s { engine = e; local_stats = stats.counter name 1 s.local_stats }

  unfoldable pub rocks_del : Bytes → Rocks E A → Status × Rocks E A
  rocks_del key s =
      let (st, e) = db.delete key s.engine in
      let name =
        if st.is_not_found
        then codes "rocksdb.delete.not_found"
        else if st.is_ok
        then codes "rocksdb.delete.success"
        else codes "rocksdb.delete.error" in
      (status_of st.is_ok st.is_not_found [], count name e s)

  unfoldable pub rocks_get : Bytes → Rocks E A → (Status × Bytes) × Rocks E A
  rocks_get key s =
      let ((st, value), e) = db.get key s.engine in
      if st.is_ok
      then ((status_of true false [], value), count (codes "rocksdb.get.success") e s)
      else if st.is_not_found
      then ((status_of st.is_ok true [], value), count (codes "rocksdb.get.not_found") e s)
      else ((status_of st.is_ok false [], value), count (codes "rocksdb.get.error") e s)

  unfoldable pub rocks_put : Bytes → Bytes → Rocks E A → Status × Rocks E A
  rocks_put key value s =
      let (st, e) = db.put key value s.engine in
      if st.is_ok
      then (status_of true false [], count (codes "rocksdb.put.success") e s)
      else (status_of false false st.text, count (codes "rocksdb.put.error") e s)

  -- The class as the interface of the handlers. RocksDB returns its errors as values.
  unfoldable pub rocks : Store (Rocks E A)
  unfolding rocks_del rocks_get rocks_put
  rocks = record {
    get = λ key s. let (found, t) = rocks_get key s in (ok found, t);
    del = λ key s. let (st, t) = rocks_del key s in (ok st, t);
    put = λ key value s. let (st, t) = rocks_put key value s in (ok st, t);
    lock = λ s. (ok tt, record s { held = suc s.held });
    unlock = λ s. (ok tt, record s { held = s.held - 1 });
  }
