-- ===== src/Tcp/Threads/Race.antt =====
-- `set` and `delete` of src/quitsies/tcp/request.cpp do not take the mutex that `add` holds.
use quitsies.Prelude.{◌≡◌, refl, ap, ◌∙◌, [], none, some, arith}
use quitsies.Text.{Bytes, codes, eqb_iff}
use quitsies.Db.Store.{Store}
use quitsies.Tcp.Request.Types.{set, add, delete}
use quitsies.Tcp.Memcached.Spec.{Map}
use quitsies.Tcp.Memcached.Keeps.{IsMap}
use quitsies.Tcp.Threads.{ended}
use quitsies.Tcp.Threads.Returned.{
  returned_locks, returned_looks, returned_sets, returned_puts, returned_unlocks, returned_hit,
  returned_deletes,
}
use quitsies.Tcp.Threads.Shared.{
  Shared, begins, returns, Threads, nothing_yet, then_thread, idle, Any,
}

module _ {S : Type 0} (db : Store S) (view : S → Map) (law : IsMap db view) where
  -- Over any database that is a map, from a key that is absent: a client that adds it and one that
  -- sets it can both be told that their value is stored, and the value that is left is the one that
  -- was added.
  pub set-races :
      (key added other : Bytes) (s : S)
      → view s key ≡ none
      → (w : Shared S) × Threads db Any (idle s) w
        × (w.points 0 ≡ ended (codes "STORED\r\n"))
        × (w.points 1 ≡ ended (codes "STORED\r\n"))
        × (view w.database key ≡ some added)
  set-races key added other s absent =
      let (t1, e1, v1) = returned_locks db view law key added s in
      let (t2, e2, v2) = returned_looks db view law key added t1 (ap (λ f. f key) v1 ∙ absent) in
      let (t3, e3, v3) = returned_sets db view law key other t2 in
      let (t4, e4, v4) = returned_puts db view law key added t3 in
      let (t5, e5, v5) = returned_unlocks db view law (codes "STORED\r\n") t4 in
      (
        _,
        then_thread
            (then_thread
              (then_thread
                (then_thread
                  (then_thread
                    (then_thread
                      (then_thread nothing_yet (begins 0 [] add key [] added refl tt refl))
                      (returns 0 _ t1 refl e1 refl))
                    (returns 0 _ t2 tt e2 refl))
                  (begins 1 [] set key [] other refl tt refl))
                (returns 1 _ t3 tt e3 refl))
              (returns 0 _ t4 tt e4 refl))
            (returns 0 _ t5 tt e5 refl),
        refl,
        refl,
        ap (λ f. f key) v5 ∙ ap (λ f. f key) v4 ∙ ground (arith, eqb_iff key key),
      )

  -- Over any database that is a map, from a key that is there: two clients that delete it can both
  -- be told that they deleted it.
  pub delete-races :
      (key old : Bytes) (s : S)
      → view s key ≡ some old
      → (w : Shared S) × Threads db Any (idle s) w
        × (w.points 0 ≡ ended (codes "DELETED\r\n"))
        × (w.points 1 ≡ ended (codes "DELETED\r\n"))
  delete-races key old s there =
      let (t1, e1, v1) = returned_hit db view law key old s there in
      let (t2, e2, v2) = returned_hit db view law key old t1 (ap (λ f. f key) v1 ∙ there) in
      let (t3, e3, v3) = returned_deletes db view law key t2 in
      let (t4, e4, v4) = returned_deletes db view law key t3 in
      (
        _,
        then_thread
            (then_thread
              (then_thread
                (then_thread
                  (then_thread (then_thread nothing_yet (begins 0 [] delete key [] [] refl tt refl))
                    (begins 1 [] delete key [] [] refl tt refl))
                  (returns 0 _ t1 tt e1 refl))
                (returns 1 _ t2 tt e2 refl))
              (returns 0 _ t3 tt e3 refl))
            (returns 1 _ t4 tt e4 refl),
        refl,
        refl,
      )
