-- ===== src/Stats/Epoch.antt =====
-- What one round of `statsd_aggregator::background_loop` sends.
use quitsies.Prelude.{
  bind-ok, seq-both, ◌↔◌, ℕ, ◌<◌, ◌≡◌, refl, ◌∙◌, ap, List, [], ◌∷◌, ◌++◌, Result, ok, M, ◌>>◌,
  append-nil, append_assoc, arith, length, All, All-append,
}
use quitsies.Text.{Bytes}
use quitsies.Stats.Table.{Table}
use quitsies.Stats.Statsd.{
  Stat, a_counter, a_timer, a_gauge, a_set, stat_text, max_buffer_size, send_stat,
}
use quitsies.Stats.Aggregator.{
  Tables, no_tables, Calls, run_calls, make_calls, send_all, send_sets, send_timers, send_gauges,
  send_counters, background_round,
}

-- The entries of a map, in its order.
abbrev pub stats_of : (Bytes → ℕ → Stat) → Table → List Stat
stats_of kind [] = []
stats_of kind ((name, v) ∷ m) = kind name v ∷ stats_of kind m

-- All that was recorded: the sets, the timers, the gauges and the counters.
abbrev pub all_stats : Tables → List Stat
all_stats t =
    stats_of a_set t.sets
    ++ (stats_of a_timer t.timers ++ (stats_of a_gauge t.gauges ++ stats_of a_counter t.counters))

abbrev pub texts : Bytes → List Stat → List Bytes
texts prefix [] = []
texts prefix (st ∷ sts) = stat_text prefix st ∷ texts prefix sts

-- The message is short enough for the buffer and the null byte.
abbrev pub Fits : Bytes → Stat → Type 0
Fits prefix st = length (stat_text prefix st) < max_buffer_size

-- A socket that takes every datagram.
abbrev pub record_to : Bytes → M (List Bytes) (Unit {0})
record_to text sent = (ok tt, sent ++ text ∷ [])

All-split : {A : Type 0} (P : A → Type 0) (a b : List A) → All P (a ++ b) → All P a × All P b
All-split P [] b h = (tt, h)
All-split P (x ∷ a) b h = let (ha, hb) = All-split P a b h.1 in ((h.0, ha), hb)

texts-append :
    (prefix : Bytes) (a b : List Stat) → texts prefix (a ++ b) ≡ texts prefix a ++ texts prefix b
texts-append prefix [] b = refl
texts-append prefix (st ∷ a) b = ap (λ l. stat_text prefix st ∷ l) (texts-append prefix a b)

send_stat-text :
    (prefix : Bytes) (st : Stat) (sent : List Bytes)
    → Fits prefix st
    → send_stat record_to prefix st sent ≡ (ok tt, sent ++ stat_text prefix st ∷ [])
unfolding send_stat
send_stat-text prefix st sent h = ground arith

seq-ok :
    {S B : Type 0} (m : M S (Unit {0})) (k : M S B) (s t : S) (r : Result B × S)
    → m s ≡ (ok tt, t)
    → k t ≡ r
    → (m >> k) s ≡ r
seq-ok m k s t r e f = bind-ok m (λ u. k) s e ∙ f

send_all-texts :
    (prefix : Bytes) (kind : Bytes → ℕ → Stat) (m : Table) (sent : List Bytes)
    → All (Fits prefix) (stats_of kind m)
    → send_all record_to prefix kind m sent ≡ (ok tt, sent ++ texts prefix (stats_of kind m))
unfolding send_all
send_all-texts prefix kind [] sent h = rw append-nil
send_all-texts prefix kind ((name, v) ∷ m) sent h =
    seq-ok (send_stat record_to prefix (kind name v)) (send_all record_to prefix kind m) sent _ _
      (send_stat-text prefix (kind name v) sent h.0)
      (send_all-texts prefix kind m (sent ++ stat_text prefix (kind name v) ∷ []) h.1
        ∙ rw append_assoc)

texts-all :
    (prefix : Bytes) (sent : List Bytes) (u : Tables)
    → ((sent ++ texts prefix (stats_of a_set u.sets)) ++ texts prefix (stats_of a_timer u.timers))
        ++ texts prefix (stats_of a_gauge u.gauges)
        ++ texts prefix (stats_of a_counter u.counters)
      ≡ sent ++ texts prefix (all_stats u)
texts-all prefix sent u = simp (texts-append, append_assoc)

-- If all messages fit, one message for each entry is sent, and the maps are empty.
pub round-texts :
    (prefix : Bytes) (calls : Calls) (t : Tables) (sent : List Bytes)
    → (run_calls calls t).0 ≡ ok tt
    → All (Fits prefix) (all_stats (run_calls calls t).1)
    → background_round record_to prefix calls (t, sent)
      ≡ (ok tt, (no_tables, sent ++ texts prefix (all_stats (run_calls calls t).1)))
unfolding background_round
round-texts prefix calls t sent returned h =
    let u = (run_calls calls t).1 in
    let counters = send_counters record_to prefix in
    let gauges = send_gauges record_to prefix >> counters in
    let timers = send_timers record_to prefix >> gauges in
    let a = All-split (Fits prefix) (stats_of a_set u.sets) _ h in
    let b = All-split (Fits prefix) (stats_of a_timer u.timers) _ a.1 in
    let c = All-split (Fits prefix) (stats_of a_gauge u.gauges) _ b.1 in
    let one = sent ++ texts prefix (stats_of a_set u.sets) in
    let two = one ++ texts prefix (stats_of a_timer u.timers) in
    let three = two ++ texts prefix (stats_of a_gauge u.gauges) in
    let left = record u { sets = [] } in
    let fewer = record u { sets = []; timers = [] } in
    let least = record u { sets = []; timers = []; gauges = [] } in
    let sets = send_sets record_to prefix >> timers in
    seq-ok (make_calls record_to prefix calls) sets (t, sent) (u, sent) _
      (ap (λ r. (r, (u, sent))) returned)
      (seq-ok (send_sets record_to prefix) timers (u, sent) (left, one) _
        (ap (λ p. (p.0, (left, p.1))) (send_all-texts prefix a_set u.sets sent a.0))
        (seq-ok (send_timers record_to prefix) gauges (left, one) (fewer, two) _
          (ap (λ p. (p.0, (fewer, p.1))) (send_all-texts prefix a_timer u.timers one b.0))
          (seq-ok (send_gauges record_to prefix) counters (fewer, two) (least, three) _
            (ap (λ p. (p.0, (least, p.1))) (send_all-texts prefix a_gauge u.gauges two c.0))
            (ap (λ p. (p.0, (no_tables, p.1)))
                (send_all-texts prefix a_counter u.counters three c.1)
              ∙ ap (λ l. (ok tt, (no_tables, l))) (texts-all prefix sent u)))))

module _ {N : Type 0} (send_to : Bytes → M N (Unit {0})) (prefix : Bytes) where
  send_stat-Fits : (st : Stat) (n : N) → (send_stat send_to prefix st n).0 ≡ ok tt → Fits prefix st
  unfolding send_stat
  send_stat-Fits st n h = ground arith

  send_all-Fits :
      (kind : Bytes → ℕ → Stat) (m : Table) (n : N)
      → (send_all send_to prefix kind m n).0 ≡ ok tt
      → All (Fits prefix) (stats_of kind m)
  unfolding send_all
  send_all-Fits kind [] n h = tt
  send_all-Fits kind ((name, v) ∷ m) n h =
      let sent = send_stat send_to prefix (kind name v) n in
      let (one, others, _) = seq-both sent.0 sent.1 (send_all send_to prefix kind m) tt h in
      (send_stat-Fits (kind name v) n one, send_all-Fits kind m sent.1 others)

  -- Whatever the socket does, the loop goes on only if every call returns and every message fits.
  pub round-Fits :
      (calls : Calls) (t : Tables) (n : N)
      → (background_round send_to prefix calls (t, n)).0 ≡ ok tt
      → ((run_calls calls t).0 ≡ ok tt) × All (Fits prefix) (all_stats (run_calls calls t).1)
  unfolding background_round
  round-Fits calls t n h =
      let (r, u) = run_calls calls t in
      let counters = send_counters send_to prefix in
      let gauges = send_gauges send_to prefix >> counters in
      let timers = send_timers send_to prefix >> gauges in
      let sets = send_sets send_to prefix >> timers in
      let (returned, ls, _) = seq-both r (u, n) sets tt h in
      let a = send_sets send_to prefix (u, n) in
      let (ha, la, _) = seq-both a.0 a.1 timers tt ls in
      let b = send_timers send_to prefix a.1 in
      let (hb, lb, _) = seq-both b.0 b.1 gauges tt la in
      let c = send_gauges send_to prefix b.1 in
      let (hc, lc, _) = seq-both c.0 c.1 counters tt lb in
      (
        returned,
        All-append (Fits prefix) (stats_of a_set u.sets) _ (send_all-Fits a_set u.sets n ha) (
            All-append (Fits prefix) (stats_of a_timer u.timers) _
              (send_all-Fits a_timer u.timers a.1.1 hb)
              (All-append (Fits prefix) (stats_of a_gauge u.gauges) _
                (send_all-Fits a_gauge u.gauges b.1.1 hc)
                (send_all-Fits a_counter u.counters c.1.1 lc))),
      )

-- A round of the loop over a socket that takes every datagram ends without an exception exactly if
-- the calls of the epoch return and the message of each statistic that is recorded once the calls
-- of the epoch are made has fewer than 256 bytes; and then it sends one message for each, the sets
-- before the timers, the gauges and the counters and each map in its order, and leaves the four
-- maps empty.
pub background_round-sends :
    (prefix : Bytes) (calls : Calls) (t : Tables) (sent : List Bytes)
    → let round = background_round record_to prefix calls (t, sent) in
      let (result, recorded) = run_calls calls t in
      (round.0 ≡ ok tt) ↔ (
        (result ≡ ok tt)
        × All (Fits prefix) (all_stats recorded)
        × (round.1 ≡ (no_tables, sent ++ texts prefix (all_stats recorded))))
background_round-sends prefix calls t sent =
    let fits = round-Fits record_to prefix calls t sent in
    (
      λ e. (
        (fits e).0,
        (fits e).1,
        ap (λ p. p.1) (round-texts prefix calls t sent (fits e).0 (fits e).1),
      ),
      λ h. ap (λ p. p.0) (round-texts prefix calls t sent h.0 h.1),
    )
