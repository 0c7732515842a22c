-- ===== src/Tcp/Threads/Serial.antt =====
-- Handlers of src/quitsies/tcp/request.cpp on several threads, of commands that add keys or set them,
-- get one key or, on one thread, delete a key: what each was told, and in which order one map would
-- have to execute them.
pub mod Present
pub mod Decides
pub mod Served
pub mod Explained
mod Tests
use quitsies.Prelude.{ℕ, ◌≡◌, ◌⊎◌, List, [], ◌∷◌, ◌++◌, Option, none, some, false}
use quitsies.Text.{Bytes}
use quitsies.Db.Store.{Store}
use quitsies.Tcp.Request.Types.{CommandType, set, add, get, delete}
use quitsies.Tcp.Memcached.Spec.{Op, set_op, add_op, get_op, delete_op}
use quitsies.Tcp.Memcached.History.{Exchange}
use quitsies.Tcp.Threads.{
  Point, add_looks, add_puts, add_unlocks, set_puts, get_looks, delete_looks, delete_deletes, ended,
}
use quitsies.Tcp.Threads.Shared.{Shared, at, ThreadStep, begins, returns, throws, idle, Any}

-- `decided` is the reply of a handler, once it is known which.
pub record Serial : Type 0 where
  pub decided : ℕ → Option Bytes
  pub history : List Exchange

-- No handler has begun.
abbrev pub unstarted : Serial
unstarted = record { decided = λ i. some []; history = [] }

abbrev pub starts : ℕ → Serial → Serial
starts i g = record g { decided = at g.decided i none }

-- The command of thread `i` takes effect.
abbrev pub decides : ℕ → Op → Bytes → Serial → Serial
decides i op reply g = record {
  decided = at g.decided i (some reply);
  history = g.history ++ record { client = i; op = op; reply = reply ∷ [] } ∷ [];
}

-- A call takes effect when it finds the key of `add`, when it puts one, when it reads for `get`, when
-- it does not find the key of `delete`, and when it deletes it.
abbrev pub took : Point → Point → ℕ → Serial → Serial
took (add_looks key value) (add_unlocks reply) i g = decides i (add_op key 0 0 false value) reply g
took (add_puts key value) (add_unlocks reply) i g = decides i (add_op key 0 0 false value) reply g
took (set_puts key value) (ended reply) i g = decides i (set_op key 0 0 false value) reply g
took (get_looks key keys ss) (ended reply) i g = decides i (get_op (key ∷ [])) reply g
took (delete_looks key) (ended reply) i g = decides i (delete_op key false) reply g
took (delete_deletes key) (ended reply) i g = decides i (delete_op key false) reply g
took _ _ i g = g

-- Whether the clients add keys or set them.
pub data Mode : Type 0 where
  adding setting : Mode

-- What a thread may begin.
abbrev pub IsServed : Mode → ℕ → ℕ → CommandType → List Bytes → Type 0
IsServed mode deleter i cmd keys =
    ((cmd ≡ add) × (mode ≡ adding))
    ⊎ (((cmd ≡ set) × (mode ≡ setting))
        ⊎ ((cmd ≡ get) × (keys ≡ []) ⊎ ((cmd ≡ delete) × (i ≡ deleter))))

-- `deleter` is the thread that may delete.
module _ {S : Type 0} (db : Store S) (mode : Mode) (deleter : ℕ) where
  -- A thread begins a command, or makes a call.
  abbrev pub Does : {v w : Shared S} → ThreadStep db Any v w → Serial → Serial → Type 0
  Does (begins i reply cmd key keys buffer e allowed same) g after =
      IsServed mode deleter i cmd keys × (after ≡ starts i g)
  Does {v} (returns i p t may called same) g after = after ≡ took (v.points i) p i g
  Does (throws i what t may called same) g after = after ≡ g

  -- Any number of steps of any number of threads, from a database whose handlers have not begun.
  pub data Run (s : S) : Shared S → Serial → Type 0 where
    at_rest : Run s (idle s) unstarted
    then_call :
        {u w : Shared S} {g after : Serial}
        → Run s u g
        → (st : ThreadStep db Any u w) → Does st g after
        → Run s w after
