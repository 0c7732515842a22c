-- ===== src/Tcp/Threads/Tests.antt =====
-- Handlers of several threads over the reference database.
use quitsies.Prelude.{ℕ, ◌≡◌, refl, [], ◌∷◌, some, err}
use quitsies.Text.{Bytes, codes, eqb}
use quitsies.Db.Store.{Store}
use quitsies.Db.Memory.{Memory, memory, lookup}
use quitsies.Tcp.Request.Types.{CommandType, add}
use quitsies.Tcp.Request.Response.{error_line}
use quitsies.Tcp.Memcached.Reference.{view, memory-IsMap}
use quitsies.Tcp.Threads.{add_locks, add_looks, add_puts, ended, one_call}
use quitsies.Tcp.Threads.Shared.{
  Shared, at, begins, returns, Threads, nothing_yet, then_thread, idle, Any,
}
use quitsies.Tcp.Threads.Exclusion.{Threads-exclude}
use quitsies.Tcp.Threads.Progress.{CanCall, Threads-CanCall}
use quitsies.Tcp.Threads.Lost.{Lost, throws-Lost}
use quitsies.Tcp.Threads.Race.{set-races, delete-races}

abbrev blank : Memory
blank = record { items = []; calls = [] }

abbrev k : Bytes
k = codes "k"

abbrev v : Bytes
v = codes "v"

-- Thread 1 adds a key: it has begun, locked, and looked.
abbrev begun : Shared Memory
begun = record (idle blank) { points = at (λ i. ended []) 1 (add_locks k v) }

abbrev locked : Shared Memory
locked = record {
  database = (one_call memory (add_locks k v) blank).1;
  holder = some 1;
  points = at begun.points 1 (add_looks k v);
}

abbrev looked : Shared Memory
looked = record {
  database = (one_call memory (add_looks k v) locked.database).1;
  holder = some 1;
  points = at locked.points 1 (add_puts k v);
}

locked-Threads :
    (Allowed : CommandType → Type 0) → Allowed add → Threads memory Allowed (idle blank) locked
unfolding one_call memory
locked-Threads Allowed may =
    then_thread (then_thread nothing_yet (begins 1 [] add k [] v refl may refl))
      (returns 1 (add_looks k v) _ refl refl refl)

looked-Threads :
    (Allowed : CommandType → Type 0) → Allowed add → Threads memory Allowed (idle blank) looked
unfolding one_call memory
looked-Threads Allowed may =
    then_thread (locked-Threads Allowed may) (returns 1 (add_puts k v) _ tt refl refl)

Threads-exclude_example : ◌≡◌ {A = ℕ} 1 1
Threads-exclude_example = Threads-exclude memory Any blank 1 1 (looked-Threads Any tt) tt tt

Threads-CanCall_example : (i : ℕ) × CanCall i looked
Threads-CanCall_example =
    Threads-CanCall memory view memory-IsMap Any blank 1 (looked-Threads Any tt) (λ reply e. cc (e))

-- A database that cannot read.
abbrev unreadable : Store Memory
unreadable = record memory { get = λ key m. (err (codes "disk"), m) }

abbrev begun_there : Shared Memory
begun_there = record {
  database = (one_call unreadable (add_locks k v) blank).1;
  holder = some 1;
  points = at begun.points 1 (add_looks k v);
}

there-Threads : Threads unreadable Any (idle blank) begun_there
unfolding one_call memory
there-Threads =
    then_thread (then_thread nothing_yet (begins 1 [] add k [] v refl tt refl))
      (returns 1 (add_looks k v) _ refl refl refl)

abbrev failed_there : Shared Memory
failed_there = record begun_there {
  points = at begun_there.points 1 (ended (error_line (codes "disk")));
}

throws-Lost_example : Lost 1 failed_there
unfolding one_call
throws-Lost_example =
    throws-Lost unreadable Any blank 1 (codes "disk") begun_there.database there-Threads tt refl
      nothing_yet

set-races_example :
    (w : Shared Memory) × Threads memory Any (idle blank) w
    × (w.points 0 ≡ ended (codes "STORED\r\n"))
    × (w.points 1 ≡ ended (codes "STORED\r\n"))
    × (view w.database k ≡ some v)
unfolding lookup
set-races_example = set-races memory view memory-IsMap k v (codes "w") blank refl

abbrev stored : Memory
stored = record { items = (k, v) ∷ []; calls = [] }

delete-races_example :
    (w : Shared Memory) × Threads memory Any (idle stored) w
    × (w.points 0 ≡ ended (codes "DELETED\r\n"))
    × (w.points 1 ≡ ended (codes "DELETED\r\n"))
unfolding lookup eqb
delete-races_example = delete-races memory view memory-IsMap k v stored refl
