-- ===== src/Tcp/Memcached/Reference.antt =====
-- The reference database is a map.
use quitsies.Prelude.{refl, fun_ext, Option, none, some}
use quitsies.Text.{Bytes}
use quitsies.Db.Memory.{Memory, memory, lookup, found, ok_status, lookup-insert, lookup-remove}
use quitsies.Tcp.Memcached.Spec.{Map}
use quitsies.Tcp.Memcached.Keeps.{Answers, IsMap}

-- The map that it stands for.
abbrev pub view : Memory → Map
view m k = lookup k m.items

found-Answers : (o : Option Bytes) → Answers o (found o)
found-Answers none = (refl, refl)
found-Answers (some value) = (refl, refl)

pub memory-IsMap : IsMap memory view
unfolding memory
memory-IsMap = record {
  gets = λ key m. (found (lookup key m.items), _, refl, found-Answers (lookup key m.items), refl);
  puts = λ key value m. (ok_status, _, refl, refl, fun_ext λ j. lookup-insert key j value m.items);
  dels = λ key m. (ok_status, _, refl, refl, fun_ext λ j. lookup-remove key j m.items);
  locks = λ m. (_, refl, refl);
  unlocks = λ m. (_, refl, refl);
}
