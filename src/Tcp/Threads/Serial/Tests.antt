-- ===== src/Tcp/Threads/Serial/Tests.antt =====
-- A thread adds a key, and another gets it between the look and the put of the first.
use quitsies.Prelude.{ℕ, ◌≡◌, refl, [], ◌∷◌, some, inl, inr, false}
use quitsies.Text.{Bytes, codes}
use quitsies.Db.Memory.{Memory, memory}
use quitsies.Tcp.Request.Types.{add, get}
use quitsies.Tcp.Memcached.Spec.{add_op, get_op}
use quitsies.Tcp.Memcached.History.{Explains}
use quitsies.Tcp.Memcached.Reference.{view, memory-IsMap}
use quitsies.Tcp.Threads.{
  Point, add_locks, add_looks, add_puts, add_unlocks, get_looks, ended, one_call,
}
use quitsies.Tcp.Threads.Shared.{Shared, at, begins, returns, idle, holder_behind}
use quitsies.Tcp.Threads.Serial.{
  adding, Serial, unstarted, starts, decides, Run, at_rest, then_call,
}
use quitsies.Tcp.Threads.Serial.Explained.{Run-Explains}

abbrev blank : Memory
blank = record { items = []; calls = [] }

abbrev k : Bytes
k = codes "k"

abbrev v : Bytes
v = codes "v"

-- Thread `i` calls the database and goes to `p`.
abbrev called : ℕ → Point → Shared Memory → Shared Memory
called i p w = record {
  database = (one_call memory (w.points i) w.database).1;
  holder = holder_behind i (w.points i) w.holder;
  points = at w.points i p;
}

abbrev began : ℕ → Point → Shared Memory → Shared Memory
began i p w = record w { points = at w.points i p }

abbrev looked : Shared Memory
looked = called 1 (add_puts k v) (called 1 (add_looks k v) (began 1 (add_locks k v) (idle blank)))

abbrev got : Shared Memory
got = called 2 (ended (codes "END\r\n")) (began 2 (get_looks k [] []) looked)

abbrev put : Shared Memory
put = called 1 (add_unlocks (codes "STORED\r\n")) got

abbrev added : Shared Memory
added = called 1 (ended (codes "STORED\r\n")) put

abbrev told : Serial
told =
    decides 1 (add_op k 0 0 false v) (codes "STORED\r\n")
      (decides 2 (get_op (k ∷ [])) (codes "END\r\n") (starts 2 (starts 1 unstarted)))

looked-Run : Run memory adding 0 blank looked (starts 1 unstarted)
unfolding one_call memory
looked-Run =
    then_call
      (then_call (then_call at_rest (begins 1 [] add k [] v refl tt refl) (inl (refl, refl), refl))
        (returns 1 (add_looks k v) _ refl refl refl) refl)
      (returns 1 (add_puts k v) _ tt refl refl) refl

added-Run : Run memory adding 0 blank added told
unfolding one_call memory
added-Run =
    then_call
      (then_call
        (then_call
          (then_call looked-Run (begins 2 [] get k [] [] refl tt refl)
            (inr (inr (inl (refl, refl))), refl))
          (returns 2 (ended (codes "END\r\n")) _ tt refl refl) refl)
        (returns 1 (add_unlocks (codes "STORED\r\n")) _ tt refl refl) refl)
      (returns 1 (ended (codes "STORED\r\n")) _ tt refl refl) refl

Run-Explains_example :
    Explains (view blank) told.history (view added.database)
    × (told.decided 1 ≡ some (codes "STORED\r\n"))
Run-Explains_example =
    Run-Explains memory view memory-IsMap adding 0 blank added told 1 (codes "STORED\r\n") added-Run
      refl
