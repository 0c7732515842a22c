-- ===== src/Tcp/Threads.antt =====
-- The handlers of `prepare_response` as the threads of the pool run them, one call of the database
-- at a time: src/quitsies/tcp/request.cpp.
pub mod Alone
pub mod Shared
pub mod Next
pub mod Exclusion
pub mod Calls
pub mod Absent
pub mod Progress
pub mod Lost
pub mod Returned
pub mod Race
pub mod Serial
mod Tests
use quitsies.Prelude.{
  ℕ, zero, suc, List, [], ◌∷◌, ◌++◌, if◌then◌else◌, not, M, ◌>>=◌, ◌>>◌, pure, raise,
}
use quitsies.Text.{Bytes, codes}
use quitsies.Db.Store.{Status, Store}
use quitsies.Tcp.Request.Types.{CommandType, set, add, get, gets, delete}
use quitsies.Tcp.Request.Response.{put_reply, del_reply, error_line, with_value}

-- Where a handler stands: in front of its next call, or behind its last.
pub data Point : Type 0 where
  add_locks add_looks add_puts : Bytes → Bytes → Point
  add_unlocks : Bytes → Point
  set_puts : Bytes → Bytes → Point
  delete_looks delete_deletes : Bytes → Point
  get_looks : Bytes → List Bytes → Bytes → Point
  refuses : Point
  ended : Bytes → Point

-- The loop over the keys, and the line behind it.
abbrev pub get_point : List Bytes → Bytes → Point
get_point [] ss = ended (ss ++ codes "END\r\n")
get_point (key ∷ keys) ss = get_looks key keys ss

-- The switch on the command.
abbrev pub first_point : CommandType → Bytes → List Bytes → Bytes → Point
first_point delete key keys buffer = delete_looks key
first_point add key keys buffer = add_locks key buffer
first_point set key keys buffer = set_puts key buffer
first_point get key keys buffer = get_looks key keys []
first_point gets key keys buffer = get_looks key keys []
first_point _ key keys buffer = refuses

-- What `add` does once it has looked for the key.
abbrev pub add_looked : Bytes → Bytes → Status → Point
add_looked key value found =
    if not found.is_ok
    then if found.is_not_found then add_puts key value else add_unlocks (error_line found.msg)
    else add_unlocks (codes "NOT_STORED\r\n")

abbrev pub delete_looked : Bytes → Status → Point
delete_looked key found =
    if not found.is_ok then ended (codes "NOT_FOUND\r\n") else delete_deletes key

module _ {S : Type 0} (db : Store S) where
  -- One call of the database, and where the handler stands behind it.
  unfoldable pub one_call : Point → M S Point
  one_call (add_locks key value) = do db.lock; pure (add_looks key value)
  one_call (add_looks key value) = do found ← db.get key; pure (add_looked key value found.0)
  one_call (add_puts key value) = do st ← db.put key value; pure (add_unlocks (put_reply st))
  one_call (add_unlocks reply) = do db.unlock; pure (ended reply)
  one_call (set_puts key value) = do st ← db.put key value; pure (ended (put_reply st))
  one_call (delete_looks key) = do found ← db.get key; pure (delete_looked key found.0)
  one_call (delete_deletes key) = do st ← db.del key; pure (ended (del_reply st))
  one_call (get_looks key keys ss) = do
    found ← db.get key
    pure (get_point keys (with_value db ss key found))
  one_call refuses = raise (codes "unsupported command")
  one_call (ended reply) = pure (ended reply)

  -- A handler that nothing interrupts, with `n` calls at most.
  unfoldable pub calls : ℕ → Point → M S Bytes
  unfolding one_call
  calls n (ended reply) = pure reply
  calls zero _ = raise []
  calls (suc n) p = do q ← one_call p; calls n q
