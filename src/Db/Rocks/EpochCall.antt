-- ===== src/Db/Rocks/EpochCall.antt =====
-- What `rocks::open` registers with the statistics: src/quitsies/db/rocks.cpp.
use quitsies.Prelude.{ℕ, ◌/◌, true, ◌≡◌, List, [], ◌∷◌, some, ◌%◌, ◌^◌, ◌∙◌, Result, ok, err, arith}
use quitsies.Text.{Bytes, codes, eqb}
use quitsies.Db.Rocks.Engine.{Aggregator, statsd_stats}
use quitsies.Stats.Table.{find, assign, find-assign}
use quitsies.Stats.Aggregator.{Tables, gauge}
use quitsies.Db.Rocks.Folder.{
  Folder, get_folder_size, folder_bytes, is_whole, returned, get_folder_size-adds,
}

-- The call that `open` registers for each epoch: the number of keys, the tickers if there are
-- statistics, and the size of the folder.
unfoldable pub set_gauges : {A : Type 0} → Aggregator A → List (Bytes × ℕ) → A → A
set_gauges stats [] a = a
set_gauges stats ((name, v) ∷ tickers) a = set_gauges stats tickers (stats.gauge name v a)

unfoldable pub epoch_call :
    {A : Type 0} → Aggregator A → ℕ → List (Bytes × ℕ) → Folder → A → Result (Unit {0}) × A
unfolding set_gauges get_folder_size
epoch_call stats num_keys tickers f a =
    let b = stats.gauge (codes "rocksdb.estimate-num-keys") num_keys a in
    let c = set_gauges stats tickers b in
    let (r, size) = get_folder_size f 0 in
    elim r [
      | err what ↦ (err what, c)
      | ok u ↦ (
        ok tt,
        stats.gauge (codes "rocksdb.db-size-mb") (size / 1000000)
            (stats.gauge (codes "rocksdb.db-size") size c),
      )
    ]

sizes :
    (r : Result (Unit {0})) (size : ℕ) (c : Tables)
    → returned r ≡ true
    → let t =
        (elim r as (λ _. Result (Unit {0}) × Tables) [
          | err what ↦ (err what, c)
          | ok u ↦ (
            ok tt,
            gauge
                (codes "rocksdb.db-size-mb")
                (size / 1000000)
                (gauge (codes "rocksdb.db-size") size c),
          )
        ]).1 in
      (find (codes "rocksdb.db-size") t.gauges ≡ some size)
      × (find (codes "rocksdb.db-size-mb") t.gauges ≡ some (size / 1000000))
unfolding gauge eqb
sizes (ok tt) size c h =
    let b = codes "rocksdb.db-size" in
    let mb = codes "rocksdb.db-size-mb" in
    (
      find-assign mb b (size / 1000000) (assign b size c.gauges) ∙ find-assign b b size c.gauges,
      find-assign mb mb (size / 1000000) (assign b size c.gauges),
    )
sizes (err what) size c h = cc (h)

-- If the folder of the database can be listed, then behind the call of an epoch the two gauges of
-- its size are the size of all its files that can be read, modulo 2 ^ 64, and the same in millions,
-- whatever the tickers are called.
epoch_call-sizes :
    (num_keys : ℕ) (tickers : List (Bytes × ℕ)) (f : Folder) (t : Tables)
    → is_whole f ≡ true
    → let after = (epoch_call statsd_stats num_keys tickers f t).1 in
      (n : ℕ) × (n % 2 ^ 64 ≡ folder_bytes f % 2 ^ 64)
      × (find (codes "rocksdb.db-size") after.gauges ≡ some n)
      × (find (codes "rocksdb.db-size-mb") after.gauges ≡ some (n / 1000000))
unfolding epoch_call statsd_stats
epoch_call-sizes num_keys tickers f t h =
    let (r, size) = get_folder_size f 0 in
    let (sum, whole) = get_folder_size-adds f 0 in
    let gauges =
      set_gauges statsd_stats tickers (gauge (codes "rocksdb.estimate-num-keys") num_keys t) in
    let (bytes, mb) = sizes r size gauges (whole ∙ h) in (size, omega (arith, sum), bytes, mb)
