-- ===== src/Stats/Orders.antt =====
-- The order in which threads record statistics: src/quitsies/stats/statsd_aggregator.hpp.
use quitsies.Prelude.{
  ℕ, ◌≡◌, refl, sym, ap, ◌∙◌, List, [], ◌∷◌, Option, none, some, arith, if◌then◌else◌, ∥∥₁_elim,
  Perm, Permᴰ,
}
use quitsies.Text.{Bytes, eqb, eqb_iff}
use quitsies.Stats.Table.{Table, find, assign, find-assign, IsAscending, assign-IsAscending}
use quitsies.Stats.Canonical.{Table-ext}
use quitsies.Stats.Statsd.{Stat, a_counter, a_timer, a_gauge, a_set}
use quitsies.Stats.Aggregator.{Tables, sum_with, counter, timer, gauge, set}
use quitsies.Stats.Totals.{record_stat}

-- The calls between two swaps of the counters, in the order in which they took the mutexes.
unfoldable pub record_all : List Stat → Tables → Tables
unfolding counter timer gauge set
record_all [] t = t
record_all (st ∷ sts) t = record_all sts (record_stat st t)

-- What a call does to the counters.
abbrev count : Stat → Table → Table
count (a_counter name v) m = assign name (sum_with (find name m) v) m
count _ m = m

abbrev count_all : List Stat → Table → Table
count_all [] m = m
count_all (st ∷ sts) m = count_all sts (count st m)

record_stat-counters : (st : Stat) (t : Tables) → (record_stat st t).counters ≡ count st t.counters
unfolding counter timer gauge set
record_stat-counters (a_counter name v) t = refl
record_stat-counters (a_timer name v) t = refl
record_stat-counters (a_gauge name v) t = refl
record_stat-counters (a_set name v) t = refl

record_all-counters :
    (sts : List Stat) (t : Tables) → (record_all sts t).counters ≡ count_all sts t.counters
unfolding record_all
record_all-counters [] t = refl
record_all-counters (st ∷ sts) t =
    record_all-counters sts (record_stat st t) ∙ ap (count_all sts) (record_stat-counters st t)

count-IsAscending : (st : Stat) (m : Table) → IsAscending m → IsAscending (count st m)
count-IsAscending (a_counter name v) m h = assign-IsAscending name (sum_with (find name m) v) m h
count-IsAscending _ m h = h

sum_with_comm :
    (o : Option ℕ) (v w : ℕ) → sum_with (some (sum_with o v)) w ≡ sum_with (some (sum_with o w)) v
sum_with_comm none v w = omega arith
sum_with_comm (some old) v w = omega arith

counted_either :
    (j k i : Bytes) (v w : ℕ) (o p q : Option ℕ)
    → (j ≡ k → o ≡ p)
    → (if eqb k i
        then some (sum_with (if eqb j k then some (sum_with o v) else p) w)
        else if eqb j i
        then some (sum_with o v)
        else q)
      ≡ (if eqb j i
          then some (sum_with (if eqb k j then some (sum_with p w) else o) v)
          else if eqb k i
          then some (sum_with p w)
          else q)
counted_either j k i v w o p q same =
    ground (arith, eqb_iff j k, eqb_iff k j, eqb_iff j i, eqb_iff k i, sum_with_comm o v w)

counted_twice :
    (j k : Bytes) (v w : ℕ) (m : Table) (i : Bytes)
    → find i (count (a_counter k w) (count (a_counter j v) m))
      ≡ find i (count (a_counter j v) (count (a_counter k w) m))
counted_twice j k v w m i =
    rw
      (
        find-assign k i (sum_with (find k (assign j (sum_with (find j m) v) m)) w)
            (assign j (sum_with (find j m) v) m),
        find-assign j i (sum_with (find j (assign k (sum_with (find k m) w) m)) v)
            (assign k (sum_with (find k m) w) m),
        find-assign j k (sum_with (find j m) v) m,
        find-assign k j (sum_with (find k m) w) m,
        find-assign j i (sum_with (find j m) v) m,
        find-assign k i (sum_with (find k m) w) m,
      )
      (counted_either j k i v w (find j m) (find k m) (find i m) (λ e. ap (λ l. find l m) e))

count_comm : (a b : Stat) (m : Table) → IsAscending m → count b (count a m) ≡ count a (count b m)
count_comm (a_counter j v) (a_counter k w) m h =
    let once = count-IsAscending (a_counter j v) m h in
    let other = count-IsAscending (a_counter k w) m h in
    Table-ext _ _ (count-IsAscending (a_counter k w) (count (a_counter j v) m) once)
      (count-IsAscending (a_counter j v) (count (a_counter k w) m) other) (counted_twice j k v w m)
count_comm (a_timer j v) b m h = refl
count_comm (a_gauge j v) b m h = refl
count_comm (a_set j v) b m h = refl
count_comm a (a_timer k w) m h = refl
count_comm a (a_gauge k w) m h = refl
count_comm a (a_set k w) m h = refl

count_all-Perm :
    {ss ts : List Stat}
    → Permᴰ ss ts
    → (m : Table) → IsAscending m
    → count_all ss m ≡ count_all ts m
count_all-Perm Permᴰ.nil m h = refl
count_all-Perm (Permᴰ.cons {a = a} {l₂ = ys} e p) m h =
    count_all-Perm p (count a m) (count-IsAscending a m h) ∙ ap (λ x. count_all ys (count x m)) e
count_all-Perm (Permᴰ.swap {a = a} {b = b} {l = xs} e f) m h =
    ap (count_all xs) (count_comm a b m h ∙ (λ i. count (e i) (count (f i) m)))
count_all-Perm (Permᴰ.trans p q) m h = count_all-Perm p m h ∙ count_all-Perm q m h

Table_set : IsSet Table
Table_set = hlevel

-- The counters do not depend on the order in which the calls took the mutexes: a sum that wraps is
-- the same in each order, and the map puts its names in theirs.
pub record_all-counters_any_order :
    (ss ts : List Stat) (t : Tables)
    → Perm ss ts
    → IsAscending t.counters
    → (record_all ss t).counters ≡ (record_all ts t).counters
record_all-counters_any_order ss ts t p h =
    record_all-counters ss t
    ∙ ∥∥₁_elim p (Table_set _ _) (λ d. count_all-Perm d t.counters h)
    ∙ sym (record_all-counters ts t)
