-- ===== src/Stats/Table.antt =====
-- `std::map` from a string to a number: a list in the ascending order of its keys, which is the
-- order of its iterator.
use quitsies.Prelude.{
  ℕ, Bool, true, false, ◌≡◌, refl, subst, List, [], ◌∷◌, Option, none, some, if◌then◌else◌, arith,
  ◌==◌, ltb, All, Bool-cases, inl, inr,
}
use quitsies.Text.{Bytes, eqb, eqb_iff}

abbrev pub Table : Type 0
Table = List (Bytes × ℕ)

-- `<` of `std::string`.
unfoldable pub less : Bytes → Bytes → Bool
less _ [] = false
less [] (y ∷ ys) = true
less (x ∷ xs) (y ∷ ys) = let rest = less xs ys in if x == y then rest else ltb x y

unfoldable pub find : Bytes → Table → Option ℕ
unfolding eqb
find k [] = none
find k ((j, w) ∷ m) = let rest = find k m in if eqb j k then some w else rest

-- `m[k] = v`.
unfoldable pub assign : Bytes → ℕ → Table → Table
unfolding eqb less
assign k v [] = (k, v) ∷ []
assign k v ((j, w) ∷ m) =
    let rest = assign k v m in
    if eqb j k then (k, v) ∷ m else if less k j then (k, v) ∷ (j, w) ∷ m else (j, w) ∷ rest

pub find-assign :
    (k j : Bytes) (v : ℕ) (m : Table)
    → find j (assign k v m) ≡ (if eqb k j then some v else find j m)
unfolding find assign
find-assign k j v [] = refl
find-assign k j v ((i, w) ∷ m) =
    ground (arith, eqb_iff k j, eqb_iff i k, eqb_iff i j, find-assign k j v m)

less_trans : (a b c : Bytes) → less a b ≡ true → less b c ≡ true → less a c ≡ true
unfolding less
less_trans a [] c h k = ground arith
less_trans a (y ∷ b) [] h k = ground arith
less_trans [] (y ∷ b) (z ∷ c) h k = refl
less_trans (x ∷ a) (y ∷ b) (z ∷ c) h k = ground (arith, less_trans a b c)

pub less_total : (a b : Bytes) → eqb a b ≡ false → less b a ≡ false → less a b ≡ true
unfolding less eqb
less_total (x ∷ a) (y ∷ b) h k = ground (arith, less_total a b)
less_total _ _ h k = ground arith

abbrev pub Above : Bytes → Bytes × ℕ → Type 0
Above k e = less k e.0 ≡ true

-- Each key is below those behind it.
abbrev pub IsAscending : Table → Type 0
IsAscending [] = Unit {0}
IsAscending ((k, v) ∷ m) = All (Above k) m × IsAscending m

pub All-Above : (j k : Bytes) (m : Table) → less j k ≡ true → All (Above k) m → All (Above j) m
All-Above j k [] h a = tt
All-Above j k ((i, w) ∷ m) h a = (less_trans j k i h a.0, All-Above j k m h a.1)

assign-Above :
    (j k : Bytes) (v : ℕ) (m : Table)
    → less j k ≡ true
    → All (Above j) m
    → All (Above j) (assign k v m)
unfolding assign
assign-Above j k v [] h a = (h, tt)
assign-Above j k v ((i, w) ∷ m) h a = ground (arith, assign-Above j k v m h a.1)

pub assign-IsAscending :
    (k : Bytes) (v : ℕ) (m : Table) → IsAscending m → IsAscending (assign k v m)
unfolding assign
assign-IsAscending k v [] h = (tt, tt)
assign-IsAscending k v ((j, w) ∷ m) h = elim (Bool-cases (eqb j k)) [
  | inl same ↦ rw same (subst (λ i. All (Above i) m) ((eqb_iff j k).0 same) h.0, h.1)
  | inr other ↦ elim (Bool-cases (less k j)) [
    | inl below ↦ rw (other, below) ((below, All-Above k j m below h.0), h)
    | inr above ↦
        rw (other, above)
          (assign-Above j k v m (less_total j k other above) h.0, assign-IsAscending k v m h.1)
  ]
]
