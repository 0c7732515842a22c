-- ===== src/Tcp/Threads/Absent.antt =====
-- `add` of src/quitsies/tcp/request.cpp does not replace a value, under any interleaving of
-- handlers of which none is one of `set`.
use quitsies.Prelude.{ℕ, ◌≡◌, ◌≢◌, sym, ap, ◌∙◌, subst, inl, inr, none, ok}
use quitsies.Text.{Bytes}
use quitsies.Db.Store.{Store}
use quitsies.Tcp.Memcached.Spec.{Map}
use quitsies.Tcp.Memcached.Keeps.{IsMap}
use quitsies.Tcp.Threads.{Point, add_puts, set_puts, ended, first_point, one_call}
use quitsies.Tcp.Threads.Shared.{
  Shared, Inside, ThreadStep, begins, returns, throws, Threads, nothing_yet, then_thread, idle,
}
use quitsies.Tcp.Threads.Next.{one_call-Next}
use quitsies.Tcp.Threads.Exclusion.{at-cases, Exclusive, ThreadStep-Exclusive}
use quitsies.Tcp.Threads.Calls.{
  NotSet, NoSet, first_point-NoSet, first_point-starts, Next-NoSet, Next-looked, one_call-absent,
  looks-absent,
}

module _ {S : Type 0} (db : Store S) (view : S → Map) (law : IsMap db view) where
  -- Nobody sets, and whoever is about to add a key has the mutex, and the key is absent.
  abbrev SafeAdds : Shared S → Type 0
  SafeAdds w =
      Exclusive w
      × ((j : ℕ) → NoSet (w.points j))
      × ((j : ℕ) (key value : Bytes) → w.points j ≡ add_puts key value → view w.database key ≡ none)

  -- Another handler was about to add its key when one made a call.
  still_absent :
      (v : Shared S) (i j : ℕ) (k value : Bytes)
      → SafeAdds v
      → i ≢ j
      → v.points j ≡ add_puts k value
      → view (one_call db (v.points i) v.database).1 k ≡ none
  still_absent v i j k value (exclusive, no_set, absent) n e =
      one_call-absent db view law (v.points i) v.database k (no_set i)
        (λ key w f.
          let mine = exclusive i (subst Inside (sym f) tt) in
          let theirs = exclusive j (subst Inside (sym e) tt) in n (cc (mine, theirs)))
        (absent j k value e)

  -- The handler that made the call is now about to add its key.
  newly_absent :
      (v : Shared S) (i : ℕ) (p : Point) (t : S) (k value : Bytes)
      → SafeAdds v
      → one_call db (v.points i) v.database ≡ (ok p, t)
      → p ≡ add_puts k value
      → view (one_call db (v.points i) v.database).1 k ≡ none
  newly_absent v i p t k value (exclusive, no_set, absent) called e =
      let looked =
        Next-looked (v.points i) p k value (one_call-Next db (v.points i) p v.database t called)
          e in
      let before =
        looks-absent db view law k value v.database t p k value
          (subst (λ q. one_call db q v.database ≡ (ok p, t)) looked called) e in
      one_call-absent db view law (v.points i) v.database k (no_set i) (λ key w f. cc (f, looked))
        before

  ThreadStep-NoSet :
      {v w : Shared S}
      → ThreadStep db NotSet v w
      → ((j : ℕ) → NoSet (v.points j))
      → (j : ℕ) → NoSet (w.points j)
  ThreadStep-NoSet {v} (begins i reply cmd key keys buffer e allowed same) h j k value f =
      elim (at-cases (λ p. p ≡ set_puts k value) v.points i (first_point cmd key keys buffer) j
        (subst (λ u. u.points j ≡ set_puts k value) same f)) [
          | inl (_, g) ↦ first_point-NoSet cmd key keys buffer allowed k value g
          | inr (_, g) ↦ h j k value g
        ]
  ThreadStep-NoSet {v} (returns i p t may called same) h j k value f =
      elim (at-cases (λ p. p ≡ set_puts k value) v.points i p j
        (subst (λ u. u.points j ≡ set_puts k value) same f)) [
          | inl (_, g) ↦
              Next-NoSet (v.points i) p (one_call-Next db (v.points i) p v.database t called) k
                value g
          | inr (_, g) ↦ h j k value g
        ]
  ThreadStep-NoSet {v} (throws i what t may called same) h j k value f =
      elim (at-cases (λ p. p ≡ set_puts k value) v.points i (ended _) j
        (subst (λ u. u.points j ≡ set_puts k value) same f)) [
          | inl (_, g) ↦ cc (g)
          | inr (_, g) ↦ h j k value g
        ]

  ThreadStep-absent :
      {v w : Shared S}
      → ThreadStep db NotSet v w
      → SafeAdds v
      → (j : ℕ) (k value : Bytes) → w.points j ≡ add_puts k value
      → view w.database k ≡ none
  ThreadStep-absent {v} (begins i reply cmd key keys buffer e allowed same) h j k value f =
      elim (at-cases (λ p. p ≡ add_puts k value) v.points i (first_point cmd key keys buffer) j
        (subst (λ u. u.points j ≡ add_puts k value) same f)) [
          | inl (_, g) ↦ absurd (first_point-starts cmd key keys buffer k value g)
          | inr (_, g) ↦ ap (λ u. view u.database k) same ∙ h.2 j k value g
        ]
  ThreadStep-absent {v} (returns i p t may called same) h j k value f =
      ap (λ u. view u.database k) same
      ∙ ap (λ r. view r.1 k) (sym called)
      ∙ elim (at-cases (λ p. p ≡ add_puts k value) v.points i p j
          (subst (λ u. u.points j ≡ add_puts k value) same f)) [
            | inl (_, g) ↦ newly_absent v i p t k value h called g
            | inr (n, g) ↦ still_absent v i j k value h n g
          ]
  ThreadStep-absent {v} (throws i what t may called same) h j k value f =
      ap (λ u. view u.database k) same
      ∙ ap (λ r. view r.1 k) (sym called)
      ∙ elim (at-cases (λ p. p ≡ add_puts k value) v.points i (ended _) j
          (subst (λ u. u.points j ≡ add_puts k value) same f)) [
            | inl (_, g) ↦ cc (g)
            | inr (n, g) ↦ still_absent v i j k value h n g
          ]

  Threads-SafeAdds : (s : S) {w : Shared S} → Threads db NotSet (idle s) w → SafeAdds w
  Threads-SafeAdds s nothing_yet =
      ((λ j inside. absurd inside), (λ j k v e. cc (e)), λ j k v e. cc (e))
  Threads-SafeAdds s (then_thread r st) =
      let h = Threads-SafeAdds s r in
      (ThreadStep-Exclusive db NotSet st h.0, ThreadStep-NoSet st h.1, ThreadStep-absent st h)

  -- Over a database that is a map, and however the handlers of add, get and delete interleave, a
  -- handler of add that is in front of its put has a key that the database does not have: it does
  -- not replace a value.
  pub add_puts-absent :
      (s : S) {w : Shared S} (j : ℕ) (key value : Bytes)
      → Threads db NotSet (idle s) w
      → w.points j ≡ add_puts key value
      → view w.database key ≡ none
  add_puts-absent s j key value r e = (Threads-SafeAdds s r).2 j key value e
