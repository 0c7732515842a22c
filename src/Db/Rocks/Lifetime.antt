-- ===== src/Db/Rocks/Lifetime.antt =====
-- The pointers of the class `rocks` and its destructor: src/quitsies/db/rocks.hpp. An address is a
-- number, and zero the null pointer.
use quitsies.Prelude.{ℕ, Bool, true, false, List, [], ◌∷◌, if◌then◌else◌, not, ◌==◌}

pub record Pointers : Type 0 where
  pub db : ℕ
  pub has_stats : Bool

-- The constructor does not initialise `_db`, which is what stood there in memory.
abbrev pub constructed : ℕ → Pointers
constructed junk = record { db = junk; has_stats = false }

-- What `open` leaves: `debug` says whether statistics were asked for, and `address` is the one of
-- the open database, or none when the opening failed.
abbrev pub opened : Bool → ℕ → Pointers → Pointers
opened debug address o = record { db = address; has_stats = if debug then true else o.has_stats }

-- The destructor, and the addresses that it deletes.
unfoldable pub destroy : Pointers → List ℕ × Pointers
destroy o =
    let released = if o.has_stats then record o { has_stats = false } else o in
    if not (o.db == 0) then (o.db ∷ [], record released { db = 0 }) else ([], released)
