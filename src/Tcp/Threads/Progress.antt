-- ===== src/Tcp/Threads/Progress.antt =====
-- The handlers of src/quitsies/tcp/request.cpp do not block each other for good, over a database
-- that does not fail.
use quitsies.Prelude.{
  ℕ, Bool, true, false, ◌≡◌, ◌≢◌, refl, sym, ap, ◌∙◌, subst, ◌⊎◌, inl, inr, Option, none, some, err,
  if◌then◌else◌, ◌==◌, ==_iff, pure, bind-ok, arith,
}
use quitsies.Text.{Bytes}
use quitsies.Db.Store.{Store}
use quitsies.Tcp.Request.Types.{CommandType}
use quitsies.Tcp.Request.Response.{put_reply}
use quitsies.Tcp.Memcached.Spec.{Map}
use quitsies.Tcp.Memcached.Keeps.{IsMap}
use quitsies.Tcp.Threads.{
  Point, add_locks, add_looks, add_puts, add_unlocks, set_puts, delete_looks, delete_deletes,
  get_looks, refuses, ended, first_point, add_looked, one_call,
}
use quitsies.Tcp.Threads.Shared.{
  Shared, at, MayCall, holder_behind, Inside, ThreadStep, begins, returns, throws, Threads,
  nothing_yet, then_thread, idle,
}
use quitsies.Tcp.Threads.Next.{Next, one_call-Next}

-- Who has the mutex stands between `lock` and `unlock`.
abbrev Used : {S : Type 0} → Shared S → Type 0
Used v = (i : ℕ) → v.holder ≡ some i → Inside (v.points i)

-- A handler that has not ended can make its call.
abbrev pub CanCall : {S : Type 0} → ℕ → Shared S → Type 0
CanCall i v = ((reply : Bytes) → v.points i ≢ ended reply) × MayCall (v.points i) v.holder

Inside-CanCall :
    (p : Point) (holder : Option ℕ)
    → Inside p
    → ((reply : Bytes) → p ≢ ended reply) × MayCall p holder
Inside-CanCall (add_looks key value) holder h = ((λ reply e. cc (e)), tt)
Inside-CanCall (add_puts key value) holder h = ((λ reply e. cc (e)), tt)
Inside-CanCall (add_unlocks reply) holder h = ((λ r e. cc (e)), tt)
Inside-CanCall _ holder h = absurd h

-- A handler waits only for a mutex that somebody has.
MayCall-or_held : (p : Point) (holder : Option ℕ) → MayCall p holder ⊎ ((i : ℕ) × (holder ≡ some i))
MayCall-or_held (add_locks key value) none = inl refl
MayCall-or_held (add_locks key value) (some i) = inr (i, refl)
MayCall-or_held _ holder = inl tt

at-build :
    (P : Point → Type 0) (points : ℕ → Point) (i : ℕ) (p : Point) (j : ℕ)
    → (i ≡ j → P p)
    → (i ≢ j → P (points j))
    → P (at points i p j)
at-build P points i p j h k = by_number (i == j) refl
  where
    by_number : (b : Bool) → (i == j) ≡ b → P (if b then p else points j)
    by_number true e = h ((==_iff i j).0 e)
    by_number false e = k (λ same. ground (arith, ==_iff i j))

-- The thread that moved, if it has the mutex now.
mover-Inside :
    (i : ℕ) (q p : Point) (holder : Option ℕ)
    → Next q p
    → (holder ≡ some i → Inside q)
    → holder_behind i q holder ≡ some i
    → Inside p
mover-Inside i (add_locks key value) p holder n used h = subst Inside (sym n) tt
mover-Inside i (add_looks key value) p holder (inl n) used h = subst Inside (sym n) tt
mover-Inside i (add_looks key value) p holder (inr (reply, n)) used h = subst Inside (sym n) tt
mover-Inside i (add_puts key value) p holder (reply, n) used h = subst Inside (sym n) tt
mover-Inside i (add_unlocks reply) p holder n used h = cc (h)
mover-Inside i (set_puts key value) p holder n used h = absurd (used h)
mover-Inside i (delete_looks key) p holder n used h = absurd (used h)
mover-Inside i (delete_deletes key) p holder n used h = absurd (used h)
mover-Inside i (get_looks k keys ss) p holder n used h = absurd (used h)
mover-Inside i refuses p holder n used h = absurd n
mover-Inside i (ended reply) p holder n used h = absurd (used h)

-- Another thread that has it had it before.
other-held :
    (i j : ℕ) (q : Point) (holder : Option ℕ)
    → i ≢ j
    → holder_behind i q holder ≡ some j
    → holder ≡ some j
other-held i j (add_locks key value) holder n h = absurd (n (cc (h)))
other-held i j (add_unlocks reply) holder n h = cc (h)
other-held i j (add_looks key value) holder n h = h
other-held i j (add_puts key value) holder n h = h
other-held i j (set_puts key value) holder n h = h
other-held i j (delete_looks key) holder n h = h
other-held i j (delete_deletes key) holder n h = h
other-held i j (get_looks k keys ss) holder n h = h
other-held i j refuses holder n h = h
other-held i j (ended reply) holder n h = h

module _ {S : Type 0} (db : Store S) (view : S → Map) (law : IsMap db view) where
  -- A call that is made with the mutex does not throw.
  Inside-returns : (q : Point) (s t : S) (what : Bytes) → Inside q → one_call db q s ≢ (err what, t)
  unfolding one_call
  Inside-returns (add_looks key value) s t what h e =
      let (found, u, got, answer, same) = law.gets key s in
      cc (bind-ok (db.get key) (λ x. pure (add_looked key value x.0)) s got, e)
  Inside-returns (add_puts key value) s t what h e =
      let (st, u, put, fine, same) = law.puts key value s in
      cc (bind-ok (db.put key value) (λ x. pure (add_unlocks (put_reply x))) s put, e)
  Inside-returns (add_unlocks reply) s t what h e =
      let (u, unlocked, same) = law.unlocks s in
      cc (bind-ok db.unlock (λ x. pure (ended reply)) s unlocked, e)
  Inside-returns _ s t what h e = absurd h

  ThreadStep-Used :
      {Allowed : CommandType → Type 0} {v w : Shared S}
      → ThreadStep db Allowed v w
      → Used v
      → Used w
  ThreadStep-Used {Allowed} {v} (begins i reply cmd key keys buffer e allowed same) h =
      subst Used (sym same) (λ j holds.
        at-build Inside v.points i (first_point cmd key keys buffer) j
          (λ i_is_j. absurd (subst Inside e (h i (holds ∙ ap (λ m. some m) (sym i_is_j)))))
          (λ n. h j holds))
  ThreadStep-Used {Allowed} {v} (returns i p t may called same) h =
      let next = one_call-Next db (v.points i) p v.database t called in
      subst Used (sym same) (λ j holds.
        at-build Inside v.points i p j
          (λ i_is_j.
            mover-Inside i (v.points i) p v.holder next (h i)
              (holds ∙ ap (λ m. some m) (sym i_is_j)))
          (λ n. h j (other-held i j (v.points i) v.holder n holds)))
  ThreadStep-Used {Allowed} {v} (throws i what t may called same) h =
      subst Used (sym same) (λ j holds.
        at-build Inside v.points i (ended _) j
          (λ i_is_j. absurd (
            Inside-returns (v.points i) v.database t what
              (h i (holds ∙ ap (λ m. some m) (sym i_is_j))) called))
          (λ n. h j holds))

  Threads-Used :
      {Allowed : CommandType → Type 0} (s : S) {w : Shared S}
      → Threads db Allowed (idle s) w
      → Used w
  Threads-Used s nothing_yet = λ i e. cc (e)
  Threads-Used s (then_thread r st) = ThreadStep-Used st (Threads-Used s r)

  -- Over a database that is a map, the mutex is never lost and the handlers never wait for each
  -- other in a ring: however they have interleaved, as long as a handler has not ended there is one
  -- that has not and that can make its call.
  pub Threads-CanCall :
      (Allowed : CommandType → Type 0) (s : S) {w : Shared S} (j : ℕ)
      → Threads db Allowed (idle s) w
      → ((reply : Bytes) → w.points j ≢ ended reply)
      → (i : ℕ) × CanCall i w
  Threads-CanCall Allowed s {w} j r n = elim (MayCall-or_held (w.points j) w.holder) [
    | inl may ↦ (j, (n, may))
    | inr (i, holds) ↦ (i, Inside-CanCall (w.points i) w.holder (Threads-Used s r i holds))
  ]
