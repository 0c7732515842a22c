-- ===== src/Tcp/Memcached/Keeps.antt =====
-- What the specification asks of a database: that it is a map. It is a store that does not fail,
-- and `view` says which map a state of it stands for.
use quitsies.Prelude.{true, false, ◌≡◌, Option, none, some, ok}
use quitsies.Text.{Bytes}
use quitsies.Db.Store.{Status, Store}
use quitsies.Tcp.Memcached.Spec.{Map, update}

-- What `get` answers for what the map has.
abbrev pub Answers : Option Bytes → Status × Bytes → Type 0
Answers none found = (found.0.is_ok ≡ false) × (found.0.is_not_found ≡ true)
Answers (some value) found = (found.0.is_ok ≡ true) × (found.1 ≡ value)

pub record IsMap {S : Type 0} (db : Store S) (view : S → Map) : Type 0 where
  pub gets :
      (key : Bytes) (s : S)
      → (found : Status × Bytes) × (t : S) × (db.get key s ≡ (ok found, t))
        × Answers (view s key) found
        × (view t ≡ view s)
  pub puts :
      (key value : Bytes) (s : S)
      → (st : Status) × (t : S) × (db.put key value s ≡ (ok st, t))
        × (st.is_ok ≡ true)
        × (view t ≡ update key (some value) (view s))
  pub dels :
      (key : Bytes) (s : S)
      → (st : Status) × (t : S) × (db.del key s ≡ (ok st, t))
        × (st.is_ok ≡ true)
        × (view t ≡ update key none (view s))
  pub locks : (s : S) → (t : S) × (db.lock s ≡ (ok tt, t)) × (view t ≡ view s)
  pub unlocks : (s : S) → (t : S) × (db.unlock s ≡ (ok tt, t)) × (view t ≡ view s)
