-- ===== src/Tcp/Threads/Exclusion.antt =====
-- The mutex of the database under any interleaving of the handlers of
-- src/quitsies/tcp/request.cpp.
use quitsies.Prelude.{
  ℕ, Bool, true, false, ◌≡◌, ◌≢◌, refl, sym, subst, ◌⊎◌, inl, inr, List, Option, some,
  if◌then◌else◌, ◌==◌, ==_iff, arith,
}
use quitsies.Text.{Bytes}
use quitsies.Db.Store.{Store}
use quitsies.Tcp.Request.Types.{CommandType, set, add, get, gets, delete}
use quitsies.Tcp.Threads.{
  Point, add_locks, add_looks, add_puts, add_unlocks, set_puts, delete_looks, delete_deletes,
  get_looks, refuses, ended, first_point,
}
use quitsies.Tcp.Threads.Shared.{
  Shared, at, MayCall, holder_behind, Inside, ThreadStep, begins, returns, throws, Threads,
  nothing_yet, then_thread, idle,
}
use quitsies.Tcp.Threads.Next.{HasEnded, Next, one_call-Next}

-- A thread is the one that moved, or one that did not.
pub at-cases {ℓ} :
    {A : Type ℓ} (P : A → Type 0) (points : ℕ → A) (i : ℕ) (p : A) (j : ℕ)
    → P (at points i p j)
    → ((i ≡ j) × P p) ⊎ ((i ≢ j) × P (points j))
at-cases {A = A} P points i p j h = by_number (i == j) refl h
  where
    by_number :
        (b : Bool)
        → (i == j) ≡ b
        → P (if b then p else points j)
        → ((i ≡ j) × P p) ⊎ ((i ≢ j) × P (points j))
    by_number true e k = inl ((==_iff i j).0 e, k)
    by_number false e k = inr ((λ same. ground (arith, ==_iff i j)), k)

-- Who stands between `lock` and `unlock` has the mutex.
abbrev pub Exclusive : {S : Type 0} → Shared S → Type 0
Exclusive v = (j : ℕ) → Inside (v.points j) → v.holder ≡ some j

pub first_point-outside :
    (cmd : CommandType) (key : Bytes) (keys : List Bytes) (buffer : Bytes)
    → Inside (first_point cmd key keys buffer)
    → ⊥
first_point-outside delete key keys buffer h = h
first_point-outside add key keys buffer h = h
first_point-outside set key keys buffer h = h
first_point-outside get key keys buffer h = h
first_point-outside gets key keys buffer h = h
first_point-outside _ key keys buffer h = h

pub ended-outside : (p : Point) → HasEnded p → Inside p → ⊥
ended-outside p (reply, e) h = subst Inside e h

-- The thread that moved.
mover-holds :
    (i : ℕ) (q p : Point) (holder : Option ℕ)
    → Next q p
    → (Inside q → holder ≡ some i)
    → Inside p
    → holder_behind i q holder ≡ some i
mover-holds i (add_locks key value) p holder n had h = refl
mover-holds i (add_looks key value) p holder n had h = had tt
mover-holds i (add_puts key value) p holder n had h = had tt
mover-holds i (add_unlocks reply) p holder n had h = absurd (ended-outside p n h)
mover-holds i (set_puts key value) p holder n had h = absurd (ended-outside p n h)
mover-holds i (delete_looks key) p holder (inl n) had h = absurd (ended-outside p n h)
mover-holds i (delete_looks key) p holder (inr e) had h = absurd (subst Inside e h)
mover-holds i (delete_deletes key) p holder n had h = absurd (ended-outside p n h)
mover-holds i (get_looks k keys ss) p holder (inl n) had h = absurd (ended-outside p n h)
mover-holds i (get_looks k keys ss) p holder (inr (key, rest, text, e)) had h =
    absurd (subst Inside e h)
mover-holds i refuses p holder n had h = absurd n
mover-holds i (ended reply) p holder n had h = absurd (ended-outside p n h)

-- Another thread that is inside.
other-holds :
    (i j : ℕ) (q : Point) (holder : Option ℕ)
    → i ≢ j
    → MayCall q holder
    → (Inside q → holder ≡ some i)
    → holder ≡ some j
    → holder_behind i q holder ≡ some j
other-holds i j (add_locks key value) holder n free had h = cc (free, h)
other-holds i j (add_unlocks reply) holder n free had h = absurd (n (cc (had tt, h)))
other-holds i j (add_looks key value) holder n free had h = h
other-holds i j (add_puts key value) holder n free had h = h
other-holds i j (set_puts key value) holder n free had h = h
other-holds i j (delete_looks key) holder n free had h = h
other-holds i j (delete_deletes key) holder n free had h = h
other-holds i j (get_looks k keys ss) holder n free had h = h
other-holds i j refuses holder n free had h = h
other-holds i j (ended reply) holder n free had h = h

module _ {S : Type 0} (db : Store S) (Allowed : CommandType → Type 0) where
  pub ThreadStep-Exclusive :
      {v w : Shared S} → ThreadStep db Allowed v w → Exclusive v → Exclusive w
  ThreadStep-Exclusive {v} (begins i reply cmd key keys buffer e allowed same) h =
      subst Exclusive (sym same) (λ j inside.
        elim (at-cases Inside v.points i (first_point cmd key keys buffer) j inside) [
          | inl (_, k) ↦ absurd (first_point-outside cmd key keys buffer k)
          | inr (_, k) ↦ h j k
        ])
  ThreadStep-Exclusive {v} (returns i p t may called same) h =
      subst Exclusive (sym same) (λ j inside. elim (at-cases Inside v.points i p j inside) [
        | inl (i_is_j, k) ↦
            subst (λ m. holder_behind i (v.points i) v.holder ≡ some m) i_is_j
              (mover-holds i (v.points i) p v.holder
                (one_call-Next db (v.points i) p v.database t called) (h i) k)
        | inr (n, k) ↦ other-holds i j (v.points i) v.holder n may (h i) (h j k)
      ])
  ThreadStep-Exclusive {v} (throws i what t may called same) h =
      subst Exclusive (sym same) (λ j inside. elim (at-cases Inside v.points i (ended _) j inside) [
        | inl (_, k) ↦ absurd k
        | inr (_, k) ↦ h j k
      ])

  pub Threads-Exclusive : {v w : Shared S} → Threads db Allowed v w → Exclusive v → Exclusive w
  Threads-Exclusive nothing_yet h = h
  Threads-Exclusive (then_thread r st) h = ThreadStep-Exclusive st (Threads-Exclusive r h)

  -- Whatever commands the clients send and however their handlers interleave, and whatever the
  -- database throws, two handlers are never between `lock` and `unlock` at the same time.
  pub Threads-exclude :
      (s : S) {w : Shared S} (i j : ℕ)
      → Threads db Allowed (idle s) w
      → Inside (w.points i)
      → Inside (w.points j)
      → i ≡ j
  Threads-exclude s i j r hi hj =
      let h = Threads-Exclusive r (λ k inside. absurd inside) in cc (h i hi, h j hj)
