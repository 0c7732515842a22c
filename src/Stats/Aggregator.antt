-- ===== src/Stats/Aggregator.antt =====
-- src/quitsies/stats/statsd_aggregator.hpp and statsd_aggregator.cpp: the statistics between two
-- epochs. Each operation holds the mutex of its map, and so is one step.
use quitsies.Prelude.{ℕ, ◌+◌, ◌%◌, ◌^◌, List, [], ◌∷◌, ◌++◌, Option, none, some, M, ◌>>◌, pure}
use quitsies.Text.{Bytes}
use quitsies.Stats.Table.{Table, find, assign}
use quitsies.Stats.Statsd.{Stat, a_counter, a_timer, a_gauge, a_set, send_stat}

pub record Tables : Type 0 where
  pub sets : Table
  pub timers : Table
  pub gauges : Table
  pub counters : Table

abbrev pub no_tables : Tables
no_tables = record { sets = []; timers = []; gauges = []; counters = [] }

-- The sum is that of `intmax_t`, as a 64-bit word. One that overflows, which the language leaves
-- undefined, is taken to wrap.
abbrev pub sum_with : Option ℕ → ℕ → ℕ
sum_with none v = v
sum_with (some old) v = (old + v) % 2 ^ 64

unfoldable pub counter : Bytes → ℕ → Tables → Tables
unfolding find assign
counter name v t = record t {
  counters = assign name (sum_with (find name t.counters) v) t.counters;
}

unfoldable pub timer : Bytes → ℕ → Tables → Tables
unfolding assign
timer name v t = record t { timers = assign name v t.timers }

unfoldable pub gauge : Bytes → ℕ → Tables → Tables
unfolding assign
gauge name v t = record t { gauges = assign name v t.gauges }

unfoldable pub set : Bytes → ℕ → Tables → Tables
unfolding assign
set name v t = record t { sets = assign name v t.sets }

-- `std::swap` with a new map.
abbrev pub swap_sets : Tables → Table × Tables
swap_sets t = (t.sets, record t { sets = [] })

abbrev pub swap_timers : Tables → Table × Tables
swap_timers t = (t.timers, record t { timers = [] })

abbrev pub swap_gauges : Tables → Table × Tables
swap_gauges t = (t.gauges, record t { gauges = [] })

abbrev pub swap_counters : Tables → Table × Tables
swap_counters t = (t.counters, record t { counters = [] })

-- The calls of `on_epoch` in their order; one may record statistics, and may throw.
abbrev pub Calls : Type 0
Calls = List (M Tables (Unit {0}))

abbrev pub on_epoch : M Tables (Unit {0}) → Calls → Calls
on_epoch call calls = calls ++ call ∷ []

unfoldable pub run_calls : Calls → M Tables (Unit {0})
run_calls [] = pure tt
run_calls (call ∷ calls) = do call; run_calls calls

module _ {N : Type 0} (send_to : Bytes → M N (Unit {0})) (prefix : Bytes) where
  -- A loop of `background_loop` over a map that was swapped out.
  unfoldable pub send_all : (Bytes → ℕ → Stat) → Table → M N (Unit {0})
  unfolding send_stat
  send_all kind [] = pure tt
  send_all kind ((name, v) ∷ m) = do send_stat send_to prefix (kind name v); send_all kind m

  -- The blocks of `background_loop`: a map is swapped for an empty one under its mutex, and what
  -- it held is sent.
  abbrev pub send_sets : M (Tables × N) (Unit {0})
  send_sets (t, n) =
      let (taken, kept) = swap_sets t in let (r, o) = send_all a_set taken n in (r, (kept, o))

  abbrev pub send_timers : M (Tables × N) (Unit {0})
  send_timers (t, n) =
      let (taken, kept) = swap_timers t in let (r, o) = send_all a_timer taken n in (r, (kept, o))

  abbrev pub send_gauges : M (Tables × N) (Unit {0})
  send_gauges (t, n) =
      let (taken, kept) = swap_gauges t in let (r, o) = send_all a_gauge taken n in (r, (kept, o))

  abbrev pub send_counters : M (Tables × N) (Unit {0})
  send_counters (t, n) =
      let (taken, kept) = swap_counters t in
      let (r, o) = send_all a_counter taken n in (r, (kept, o))

  abbrev pub make_calls : Calls → M (Tables × N) (Unit {0})
  make_calls calls (t, n) = let (r, u) = run_calls calls t in (r, (u, n))

  -- One round of `background_loop`, between two sleeps. An exception leaves the loop.
  unfoldable pub background_round : Calls → M (Tables × N) (Unit {0})
  unfolding run_calls send_all
  background_round calls = do make_calls calls; send_sets; send_timers; send_gauges; send_counters
