-- ===== src/Stats/Totals.antt =====
-- What the maps of `statsd_aggregator` hold after any calls, whenever the background thread swaps
-- them out in between.
use quitsies.Prelude.{
  ℕ, ◌+◌, ◌%◌, ◌^◌, ◌≡◌, List, [], ◌∷◌, Option, none, some, if◌then◌else◌, arith, Bool-cases, inl,
  inr,
}
use quitsies.Text.{Bytes, eqb, eqb_iff}
use quitsies.Stats.Table.{Table, find, find-assign, IsAscending, assign-IsAscending}
use quitsies.Stats.Statsd.{Stat, a_counter, a_timer, a_gauge, a_set}
use quitsies.Stats.Aggregator.{
  Tables, no_tables, sum_with, counter, timer, gauge, set, swap_sets, swap_timers, swap_gauges,
  swap_counters,
}

-- A call of the aggregator, or one of the swaps of a round.
pub data Event : Type 0 where
  recorded : Stat → Event
  sets_swapped timers_swapped gauges_swapped counters_swapped : Event

abbrev pub record_stat : Stat → Tables → Tables
record_stat (a_counter name v) t = counter name v t
record_stat (a_timer name v) t = timer name v t
record_stat (a_gauge name v) t = gauge name v t
record_stat (a_set name v) t = set name v t

-- The maps, and the maps of counters that were taken to be sent.
abbrev pub happen : Event → Tables × List Table → Tables × List Table
happen (recorded st) (t, taken) = (record_stat st t, taken)
happen sets_swapped (t, taken) = ((swap_sets t).1, taken)
happen timers_swapped (t, taken) = ((swap_timers t).1, taken)
happen gauges_swapped (t, taken) = ((swap_gauges t).1, taken)
happen counters_swapped (t, taken) = let (m, kept) = swap_counters t in (kept, m ∷ taken)

unfoldable pub happen_all : List Event → Tables × List Table → Tables × List Table
unfolding counter timer gauge set
happen_all [] w = w
happen_all (e ∷ es) w = happen_all es (happen e w)

abbrev pub worth : Option ℕ → ℕ
worth none = 0
worth (some v) = v

-- What the maps that were taken say of a name, in all.
abbrev pub sum_taken : Bytes → List Table → ℕ
sum_taken name [] = 0
sum_taken name (m ∷ ms) = worth (find name m) + sum_taken name ms

-- What the program counted.
abbrev pub added : Bytes → Event → ℕ
added name (recorded (a_counter n v)) = if eqb n name then v else 0
added name _ = 0

abbrev pub sum_added : Bytes → List Event → ℕ
sum_added name [] = 0
sum_added name (e ∷ es) = added name e + sum_added name es

abbrev balance : Bytes → Tables × List Table → ℕ
balance name w = sum_taken name w.1 + worth (find name w.0.counters)

sum_with-worth : (o : Option ℕ) (v : ℕ) → sum_with o v % 2 ^ 64 ≡ (worth o + v) % 2 ^ 64
sum_with-worth none v = omega arith
sum_with-worth (some old) v = omega arith

counter-balance :
    (name n : Bytes) (v : ℕ) (t : Tables) (taken : List Table)
    → balance name (counter n v t, taken) % 2 ^ 64
      ≡ (balance name (t, taken) + (if eqb n name then v else 0)) % 2 ^ 64
unfolding counter
counter-balance name n v t taken = elim (Bool-cases (eqb n name)) [
  | inl same ↦
      rw
        (
          find-assign n name (sum_with (find n t.counters) v) t.counters,
          same,
          (eqb_iff n name).0 same,
        )
        (omega (arith, sum_with-worth (find name t.counters) v))
  | inr other ↦
      rw (find-assign n name (sum_with (find n t.counters) v) t.counters, other) (omega arith)
]

happen-balance :
    (name : Bytes) (e : Event) (w : Tables × List Table)
    → balance name (happen e w) % 2 ^ 64 ≡ (balance name w + added name e) % 2 ^ 64
unfolding timer gauge set find
happen-balance name (recorded (a_counter n v)) (t, taken) = counter-balance name n v t taken
happen-balance name (recorded (a_timer n v)) (t, taken) = omega arith
happen-balance name (recorded (a_gauge n v)) (t, taken) = omega arith
happen-balance name (recorded (a_set n v)) (t, taken) = omega arith
happen-balance name counters_swapped (t, taken) = omega arith
happen-balance name _ (t, taken) = omega arith

happen_all-balance :
    (name : Bytes) (es : List Event) (w : Tables × List Table)
    → balance name (happen_all es w) % 2 ^ 64 ≡ (balance name w + sum_added name es) % 2 ^ 64
unfolding happen_all
happen_all-balance name [] w = omega arith
happen_all-balance name (e ∷ es) w =
    omega (arith, happen_all-balance name es (happen e w), happen-balance name e w)

-- Whatever is recorded and whenever the background thread swaps the maps, no count is lost and none
-- is sent twice: for each name, what the maps of counters taken to be sent hold together with what
-- is still to be sent is the sum of what was counted, modulo 2 ^ 64.
pub happen_all-sum :
    (name : Bytes) (es : List Event)
    → let (t, taken) = happen_all es (no_tables, []) in
      (sum_taken name taken + worth (find name t.counters)) % 2 ^ 64 ≡ sum_added name es % 2 ^ 64
unfolding find
happen_all-sum name es = omega (arith, happen_all-balance name es (no_tables, []))

abbrev pub AreAscending : Tables → Type 0
AreAscending t =
    IsAscending t.sets × IsAscending t.timers × IsAscending t.gauges × IsAscending t.counters

happen-AreAscending :
    (e : Event) (w : Tables × List Table) → AreAscending w.0 → AreAscending (happen e w).0
unfolding counter timer gauge set
happen-AreAscending (recorded (a_counter n v)) (t, taken) (s, m, g, c) =
    (s, m, g, assign-IsAscending n _ t.counters c)
happen-AreAscending (recorded (a_timer n v)) (t, taken) (s, m, g, c) =
    (s, assign-IsAscending n v t.timers m, g, c)
happen-AreAscending (recorded (a_gauge n v)) (t, taken) (s, m, g, c) =
    (s, m, assign-IsAscending n v t.gauges g, c)
happen-AreAscending (recorded (a_set n v)) (t, taken) (s, m, g, c) =
    (assign-IsAscending n v t.sets s, m, g, c)
happen-AreAscending sets_swapped (t, taken) (s, m, g, c) = (tt, m, g, c)
happen-AreAscending timers_swapped (t, taken) (s, m, g, c) = (s, tt, g, c)
happen-AreAscending gauges_swapped (t, taken) (s, m, g, c) = (s, m, tt, c)
happen-AreAscending counters_swapped (t, taken) (s, m, g, c) = (s, m, g, tt)

happen_all-AreAscending_from :
    (es : List Event) (w : Tables × List Table)
    → AreAscending w.0
    → AreAscending (happen_all es w).0
unfolding happen_all
happen_all-AreAscending_from [] w h = h
happen_all-AreAscending_from (e ∷ es) w h =
    happen_all-AreAscending_from es (happen e w) (happen-AreAscending e w h)

-- Whatever is recorded and whenever the maps are swapped, the names of each map ascend strictly, so
-- that a round sends at most one message of a kind for a name.
happen_all-AreAscending : (es : List Event) → AreAscending (happen_all es (no_tables, [])).0
happen_all-AreAscending es = happen_all-AreAscending_from es (no_tables, []) (tt, tt, tt, tt)
