-- ===== src/Stats/Canonical.antt =====
-- A `std::map` is determined by what it finds: src/quitsies/stats/statsd_aggregator.hpp.
use quitsies.Prelude.{
  ℕ, true, false, ◌≡◌, refl, sym, subst, ◌∙◌, [], ◌∷◌, none, some, arith, All, Bool-cases, inl, inr,
}
use quitsies.Text.{Bytes, eqb, eqb_iff}
use quitsies.Stats.Table.{Table, less, find, IsAscending, Above, All-Above, less_total}

less_irreflexive : (k : Bytes) → less k k ≡ false
unfolding less
less_irreflexive [] = refl
less_irreflexive (x ∷ k) = ground (arith, less_irreflexive k)

below-eqb : (j k : Bytes) → less j k ≡ true → eqb k j ≡ false
below-eqb j k h = elim (Bool-cases (eqb k j)) [
  | inl same ↦ cc (subst (λ i. less j i ≡ true) ((eqb_iff k j).0 same) h, less_irreflexive j)
  | inr other ↦ other
]

-- What is below every key is not there.
find-Above : (j : Bytes) (m : Table) → All (Above j) m → find j m ≡ none
unfolding find
find-Above j [] h = refl
find-Above j ((k, v) ∷ m) h = rw (below-eqb j k h.0) (find-Above j m h.1)

find_nil : (k : Bytes) → find k [] ≡ none
unfolding find
find_nil k = refl

some_value : {v w : ℕ} → some v ≡ some w → v ≡ w
some_value e = cc (e)

find_first : (k : Bytes) (v : ℕ) (m : Table) → find k ((k, v) ∷ m) ≡ some v
unfolding find
find_first k v m = rw ((eqb_iff k k).1 refl) refl

find_later : (k i : Bytes) (v : ℕ) (m : Table) → eqb k i ≡ false → find i ((k, v) ∷ m) ≡ find i m
unfolding find
find_later k i v m e = rw e refl

abbrev pub FindsAs : Table → Table → Type 0
FindsAs m n = (k : Bytes) → find k m ≡ find k n

-- The keys behind the first ones.
FindsAs-rest :
    (k : Bytes) (v w : ℕ) (m n : Table)
    → All (Above k) m
    → All (Above k) n
    → FindsAs ((k, v) ∷ m) ((k, w) ∷ n)
    → FindsAs m n
FindsAs-rest k v w m n a b h i = elim (Bool-cases (eqb k i)) [
  | inl same ↦
      subst (λ j. find j m ≡ find j n) ((eqb_iff k i).0 same)
        (find-Above k m a ∙ sym (find-Above k n b))
  | inr other ↦ sym (find_later k i v m other) ∙ h i ∙ find_later k i w n other
]

-- The first key of one is not below that of the other.
less-FindsAs :
    (j k : Bytes) (v w : ℕ) (m n : Table)
    → IsAscending ((k, w) ∷ n)
    → FindsAs ((j, v) ∷ m) ((k, w) ∷ n)
    → less j k ≡ false
less-FindsAs j k v w m n b h = elim (Bool-cases (less j k)) [
  | inl below ↦
      cc (find_first j v m, h j, find-Above j ((k, w) ∷ n) (below, All-Above j k n below b.0))
  | inr above ↦ above
]

-- Two maps that find the same are the same list.
pub Table-ext : (m n : Table) → IsAscending m → IsAscending n → FindsAs m n → m ≡ n
Table-ext [] [] a b h = refl
Table-ext [] ((k, w) ∷ n) a b h = cc (find_nil k, h k, find_first k w n)
Table-ext ((j, v) ∷ m) [] a b h = cc (find_nil j, h j, find_first j v m)
Table-ext ((j, v) ∷ m) ((k, w) ∷ n) a b h = elim (Bool-cases (eqb j k)) [
  | inl same ↦
      let e = (eqb_iff j k).0 same in
      let up = subst (λ i. IsAscending ((i, v) ∷ m)) e a in
      let finds = subst (λ i. FindsAs ((i, v) ∷ m) ((k, w) ∷ n)) e h in
      let value = some_value (sym (find_first k v m) ∙ finds k ∙ find_first k w n) in
      let rest = Table-ext m n a.1 b.1 (FindsAs-rest k v w m n up.0 b.0 finds) in
      λ i. (e i, value i) ∷ rest i
  | inr other ↦ cc (
    less_total j k other (less-FindsAs k j w v n m a (λ i. sym (h i))),
    less-FindsAs j k v w m n b h,
  )
]
