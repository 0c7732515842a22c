-- ===== src/Db/Store.antt =====
-- src/quitsies/db/store.hpp: what the protocol handlers need of a database. The class is abstract,
-- so it is a parameter of its clients: a record of operations on the database's own state.
use quitsies.Prelude.{Bool, M}
use quitsies.Text.{Bytes}

pub record Status : Type 0 where
  pub is_ok : Bool
  pub is_not_found : Bool
  pub msg : Bytes

-- An operation may throw. `get` returns what it leaves in `*value`, which starts empty.
pub record Store (S : Type 0) : Type 0 where
  pub get : Bytes → M S (Status × Bytes)
  pub del : Bytes → M S Status
  pub put : Bytes → Bytes → M S Status
  pub lock : M S (Unit {0})
  pub unlock : M S (Unit {0})
