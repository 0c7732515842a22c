-- ===== src/Stats/Lifetime.antt =====
-- The constructor, the thread and the destructor of `statsd_aggregator`:
-- src/quitsies/stats/statsd_aggregator.hpp and statsd_aggregator.cpp.
use quitsies.Prelude.{
  seq-both, ℕ, Bool, true, false, ◌≡◌, ◌↔◌, refl, ap, subst, ◌∙◌, List, [], ◌∷◌, ◌++◌, append_assoc,
  append-nil, All, ok, err, M, ◌>>=◌, ◌>>◌, pure, bind-ok,
}
use quitsies.Text.{Bytes}
use quitsies.Stats.Aggregator.{Tables, no_tables, Calls, run_calls, background_round}
use quitsies.Stats.Client.{Udp, Statsd, make_statsd, socket_of}
use quitsies.Stats.Epoch.{all_stats, texts, Fits, record_to, round-Fits, round-texts}

pub record StatsdAggregator : Type 0 where
  pub tables : Tables
  pub client : Statsd
  pub period_s : ℕ
  pub running : Bool
  pub calls : Calls

-- What other threads record while the loop sleeps.
abbrev pub slept : {N : Type 0} → (Tables → Tables) → M (Tables × N) (Unit {0})
slept during (t, n) = (ok tt, (during t, n))

module _ {N : Type 0} (send_to : Bytes → M N (Unit {0})) (prefix : Bytes) (calls : Calls) where
  -- The loop, with what is recorded in each of its sleeps. The destructor clears the flag in the
  -- last of them.
  unfoldable pub background_loop : List (Tables → Tables) → M (Tables × N) (Unit {0})
  unfolding background_round
  background_loop [] = pure tt
  background_loop (during ∷ sleeps) = do
    background_round send_to prefix calls
    slept during
    background_loop sleeps

module _ {N : Type 0} (udp : Udp N) where
  -- The constructor starts the thread behind its fields.
  unfoldable pub make_aggregator : Bytes → Bytes → Bytes → ℕ → M N StatsdAggregator
  unfolding make_statsd
  make_aggregator host port prefix period_s = do
    client ← make_statsd udp host port prefix
    pure (record {
      tables = no_tables;
      client = client;
      period_s = period_s;
      running = true;
      calls = [];
    })

  -- The life of the thread, up to the end of the `join` in the destructor.
  unfoldable pub destroy : List (Tables → Tables) → StatsdAggregator → M N StatsdAggregator
  unfolding background_loop
  destroy sleeps a n =
      let (result, (t, o)) =
        background_loop (socket_of udp a.client) a.client.prefix a.calls sleeps (a.tables, n) in
      (
        elim result [ ok u ↦ ok (record a { running = false; tables = t }) | err what ↦ err what ],
        o,
      )

module _ (prefix : Bytes) (calls : Calls) where
  -- The maps when the loop ends, and what it has sent, round by round.
  abbrev pub left : List (Tables → Tables) → Tables → Tables
  left [] t = t
  left (during ∷ sleeps) t = left sleeps (during no_tables)

  abbrev pub reported : List (Tables → Tables) → Tables → List Bytes
  reported [] t = []
  reported (during ∷ sleeps) t =
      texts prefix (all_stats (run_calls calls t).1) ++ reported sleeps (during no_tables)

  abbrev pub AllFit : List (Tables → Tables) → Tables → Type 0
  AllFit [] t = Unit {0}
  AllFit (during ∷ sleeps) t =
      ((run_calls calls t).0 ≡ ok tt)
      × All (Fits prefix) (all_stats (run_calls calls t).1)
      × AllFit sleeps (during no_tables)

  loop-AllFit :
      (sleeps : List (Tables → Tables)) (t : Tables) (sent : List Bytes)
      → (background_loop record_to prefix calls sleeps (t, sent)).0 ≡ ok tt
      → AllFit sleeps t
  unfolding background_loop
  loop-AllFit [] t sent e = tt
  loop-AllFit (during ∷ sleeps) t sent e =
      let round = background_round record_to prefix calls (t, sent) in
      let (went, later, _) =
        seq-both round.0 round.1 (slept during >> background_loop record_to prefix calls sleeps) tt
          e in
      let fits = round-Fits record_to prefix calls t sent went in
      (
        fits.0,
        fits.1,
        loop-AllFit sleeps (during no_tables) _ (
            subst
              (λ p. (background_loop record_to prefix calls sleeps (during p.1.0, p.1.1)).0 ≡ ok tt)
              (round-texts prefix calls t sent fits.0 fits.1) later),
      )

  loop-texts :
      (sleeps : List (Tables → Tables)) (t : Tables) (sent : List Bytes)
      → AllFit sleeps t
      → background_loop record_to prefix calls sleeps (t, sent)
        ≡ (ok tt, (left sleeps t, sent ++ reported sleeps t))
  unfolding background_loop
  loop-texts [] t sent h = rw (append-nil sent) refl
  loop-texts (during ∷ sleeps) t sent h =
      let one = texts prefix (all_stats (run_calls calls t).1) in
      bind-ok (background_round record_to prefix calls)
        (λ u. slept during >> background_loop record_to prefix calls sleeps) (t, sent)
        (round-texts prefix calls t sent h.0 h.1)
      ∙ loop-texts sleeps (during no_tables) (sent ++ one) h.2
      ∙ ap (λ l. (ok tt, (left sleeps (during no_tables), l)))
          (append_assoc sent one (reported sleeps (during no_tables)))

  pub background_loop-reports :
      (sleeps : List (Tables → Tables)) (t : Tables) (sent : List Bytes)
      → let end = background_loop record_to prefix calls sleeps (t, sent) in
        (end.0 ≡ ok tt) ↔ (AllFit sleeps t × (end.1 ≡ (left sleeps t, sent ++ reported sleeps t)))
  background_loop-reports sleeps t sent = (
    λ e.
        let fits = loop-AllFit sleeps t sent e in
        (fits, ap (λ p. p.1) (loop-texts sleeps t sent fits)),
    λ h. ap (λ p. p.0) (loop-texts sleeps t sent h.0),
  )
