-- ===== src/Tcp/Threads/Shared.antt =====
-- The handlers of several connections over one database: the threads of src/quitsies/tcp/server.cpp
-- that run src/quitsies/tcp/request.cpp at the same time. Each call of the database is one step.
use quitsies.Prelude.{ℕ, ◌≡◌, List, [], Option, none, some, ok, err, if◌then◌else◌, ◌==◌}
use quitsies.Text.{Bytes}
use quitsies.Db.Store.{Store}
use quitsies.Tcp.Request.Types.{CommandType}
use quitsies.Tcp.Request.Response.{error_line}
use quitsies.Tcp.Threads.{
  Point, add_locks, add_looks, add_puts, add_unlocks, ended, first_point, one_call,
}

-- `holder` is the thread that has the mutex of the database.
pub record Shared (S : Type 0) : Type 0 where
  pub database : S
  pub holder : Option ℕ
  pub points : ℕ → Point

abbrev pub at {ℓ} : {A : Type ℓ} → (ℕ → A) → ℕ → A → ℕ → A
at points i p j = if i == j then p else points j

-- `lock` waits until the mutex is free.
abbrev pub MayCall : Point → Option ℕ → Type 0
MayCall (add_locks key value) holder = holder ≡ none
MayCall _ holder = Unit {0}

abbrev pub holder_behind : ℕ → Point → Option ℕ → Option ℕ
holder_behind i (add_locks key value) holder = some i
holder_behind i (add_unlocks reply) holder = none
holder_behind i _ holder = holder

-- A handler stands between `lock` and `unlock`.
abbrev pub Inside : Point → Type 0
Inside (add_looks key value) = Unit {0}
Inside (add_puts key value) = Unit {0}
Inside (add_unlocks reply) = Unit {0}
Inside _ = ⊥

-- Clients that send any command.
abbrev pub Any : CommandType → Type 0
Any cmd = Unit {0}

-- `Allowed` says which commands the clients send.
module _ {S : Type 0} (db : Store S) (Allowed : CommandType → Type 0) where
  -- A thread begins a handler, makes a call of the database, or meets an exception of one, which
  -- `prepare_response` catches.
  pub data ThreadStep (v w : Shared S) : Type 0 where
    begins :
        (i : ℕ) (reply : Bytes) (cmd : CommandType) (key : Bytes) (keys : List Bytes)
        (buffer : Bytes)
        → v.points i ≡ ended reply
        → Allowed cmd
        → w ≡ record v { points = at v.points i (first_point cmd key keys buffer) }
        → ThreadStep v w
    returns :
        (i : ℕ) (p : Point) (t : S)
        → MayCall (v.points i) v.holder
        → one_call db (v.points i) v.database ≡ (ok p, t)
        → w ≡ record {
          database = t;
          holder = holder_behind i (v.points i) v.holder;
          points = at v.points i p;
        }
        → ThreadStep v w
    throws :
        (i : ℕ) (what : Bytes) (t : S)
        → MayCall (v.points i) v.holder
        → one_call db (v.points i) v.database ≡ (err what, t)
        → w ≡ record v { database = t; points = at v.points i (ended (error_line what)) }
        → ThreadStep v w

  pub data Threads (v : Shared S) : Shared S → Type 0 where
    nothing_yet : Threads v v
    then_thread : {u w : Shared S} → Threads v u → ThreadStep u w → Threads v w

-- No handler has begun.
abbrev pub idle : {S : Type 0} → S → Shared S
idle s = record { database = s; holder = none; points = λ i. ended [] }
