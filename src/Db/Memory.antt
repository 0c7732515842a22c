-- ===== src/Db/Memory.antt =====
-- A reference database: a map from keys to values, behind the interface of
-- src/quitsies/db/store.hpp. It is what the protocol's theorems are about where they speak of a
-- whole map, and it keeps the calls that it got, newest first.
use quitsies.Prelude.{
  true, false, ◌≡◌, refl, List, [], ◌∷◌, Option, none, some, if◌then◌else◌, arith, ok,
}
use quitsies.Text.{Bytes, eqb, eqb_iff}
use quitsies.Db.Store.{Status, Store}

pub data Call : Type 0 where
  gets_key dels_key : Bytes → Call
  puts_key : Bytes → Bytes → Call
  locks unlocks : Call

pub record Memory : Type 0 where
  pub items : List (Bytes × Bytes)
  pub calls : List Call

unfoldable pub lookup : Bytes → List (Bytes × Bytes) → Option Bytes
unfolding eqb
lookup k [] = none
lookup k ((j, v) ∷ m) = if eqb j k then some v else lookup k m

unfoldable pub insert : Bytes → Bytes → List (Bytes × Bytes) → List (Bytes × Bytes)
unfolding eqb
insert k v [] = (k, v) ∷ []
insert k v ((j, w) ∷ m) = if eqb j k then (k, v) ∷ m else (j, w) ∷ insert k v m

unfoldable pub remove : Bytes → List (Bytes × Bytes) → List (Bytes × Bytes)
unfolding eqb
remove k [] = []
remove k ((j, w) ∷ m) = let rest = remove k m in if eqb j k then rest else (j, w) ∷ rest

abbrev pub ok_status : Status
ok_status = record { is_ok = true; is_not_found = false; msg = [] }

abbrev pub missing : Status
missing = record { is_ok = false; is_not_found = true; msg = [] }

abbrev pub note : Call → Memory → Memory
note c m = record m { calls = c ∷ m.calls }

abbrev pub found : Option Bytes → Status × Bytes
found none = (missing, [])
found (some v) = (ok_status, v)

unfoldable pub memory : Store Memory
unfolding lookup insert remove
memory = record {
  get = λ k m. (ok (found (lookup k m.items)), note (gets_key k) m);
  del = λ k m. (ok ok_status, note (dels_key k) (record m { items = remove k m.items }));
  put = λ k v m. (ok ok_status, note (puts_key k v) (record m { items = insert k v m.items }));
  lock = λ m. (ok tt, note locks m);
  unlock = λ m. (ok tt, note unlocks m);
}

pub lookup-insert :
    (k j v : Bytes) (m : List (Bytes × Bytes))
    → lookup j (insert k v m) ≡ (if eqb k j then some v else lookup j m)
unfolding lookup insert
lookup-insert k j v [] = refl
lookup-insert k j v ((i, w) ∷ m) =
    ground (arith, eqb_iff k j, eqb_iff i k, eqb_iff i j, lookup-insert k j v m)

pub lookup-remove :
    (k j : Bytes) (m : List (Bytes × Bytes))
    → lookup j (remove k m) ≡ (if eqb k j then none else lookup j m)
unfolding lookup remove
lookup-remove k j [] = ground arith
lookup-remove k j ((i, w) ∷ m) =
    ground (arith, eqb_iff k j, eqb_iff i k, eqb_iff i j, lookup-remove k j m)
