-- ===== src/Stats/Tests.antt =====
-- The statistics at concrete calls.
use quitsies.Prelude.{◌+◌, ◌%◌, ◌^◌, ◌≡◌, ◌↔◌, refl, List, [], ◌∷◌, ◌++◌, ok, Permᴰ}
use quitsies.Text.{codes}
use quitsies.Stats.Table.{find, assign, less}
use quitsies.Stats.Statsd.{Stat, stat_text, a_counter, a_gauge}
use quitsies.Stats.Aggregator.{Tables, no_tables, Calls, gauge, counter, on_epoch, background_round}
use quitsies.Stats.Epoch.{record_to}
use quitsies.Stats.Orders.{record_all, record_all-counters_any_order}
use quitsies.Stats.Lifetime.{background_loop, left, reported, AllFit, background_loop-reports}
use quitsies.Stats.Totals.{
  Event, recorded, counters_swapped, sets_swapped, happen_all, sum_taken, sum_added, worth,
  happen_all-sum,
}

abbrev calls : Calls
calls = on_epoch (λ t. (ok tt, gauge (codes "keys") 7 t)) []

abbrev counted : Tables
counted = counter (codes "put") 2 (counter (codes "get") 1 (counter (codes "put") 3 no_tables))

round_messages :
    (background_round record_to (codes "q") calls (counted, [])).1.1
    ≡ codes "q.keys:7|g" ∷ codes "q.get:1|c" ∷ codes "q.put:5|c" ∷ []
unfolding background_round counter gauge find assign less stat_text
round_messages = refl

-- A count of 2 ^ 32 is sent as none.
truncated_text : stat_text (codes "q") (a_counter (codes "get") (2 ^ 32)) ≡ codes "q.get:0|c"
unfolding stat_text
truncated_text = refl

abbrev events : List Event
events =
    recorded (a_counter (codes "put") 3)
    ∷ recorded (a_gauge (codes "keys") 7)
    ∷ counters_swapped
    ∷ recorded (a_counter (codes "put") 2)
    ∷ recorded (a_counter (codes "get") 1)
    ∷ sets_swapped
    ∷ []

happen_all-sum_example :
    let (t, taken) = happen_all events (no_tables, []) in
    (sum_taken (codes "put") taken + worth (find (codes "put") t.counters)) % 2 ^ 64
    ≡ sum_added (codes "put") events % 2 ^ 64
happen_all-sum_example = happen_all-sum (codes "put") events

-- Two epochs: what is recorded in the second sleep stays behind.
abbrev sleeps : List (Tables → Tables)
sleeps = counter (codes "get") 1 ∷ counter (codes "lost") 1 ∷ []

background_loop-reports_example :
    let end = background_loop record_to (codes "q") [] sleeps (counted, []) in
    (end.0 ≡ ok tt) ↔ (
      AllFit (codes "q") [] sleeps counted
      × (end.1
          ≡ (left (codes "q") [] sleeps counted, [] ++ reported (codes "q") [] sleeps counted)))
background_loop-reports_example = background_loop-reports (codes "q") [] sleeps counted []

loop_messages : (background_loop record_to (codes "q") [] sleeps (counted, [])).1 ≡ (
  counter (codes "lost") 1 no_tables,
  codes "q.get:1|c" ∷ codes "q.put:5|c" ∷ codes "q.get:1|c" ∷ [],
)
unfolding background_loop counter gauge find assign less stat_text
loop_messages = refl

abbrev in_one_order : List Stat
in_one_order =
    a_counter (codes "put") 3 ∷ a_counter (codes "get") 1 ∷ a_counter (codes "put") 2 ∷ []

abbrev in_another : List Stat
in_another = a_counter (codes "get") 1 ∷ a_counter (codes "put") 3 ∷ a_counter (codes "put") 2 ∷ []

record_all-counters_any_order_example :
    (record_all in_one_order no_tables).counters ≡ (record_all in_another no_tables).counters
record_all-counters_any_order_example =
    record_all-counters_any_order in_one_order in_another no_tables ∣ Permᴰ.swap refl refl ∣₁ tt
