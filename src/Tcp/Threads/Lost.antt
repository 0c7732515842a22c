-- ===== src/Tcp/Threads/Lost.antt =====
-- An exception between `lock` and `unlock` of src/quitsies/tcp/request.cpp.
use quitsies.Prelude.{ℕ, ◌≡◌, sym, subst, inl, inr, Option, some, err}
use quitsies.Text.{Bytes}
use quitsies.Db.Store.{Store}
use quitsies.Tcp.Request.Types.{CommandType}
use quitsies.Tcp.Threads.{
  Point, add_locks, add_looks, add_puts, add_unlocks, set_puts, delete_looks, delete_deletes,
  get_looks, refuses, ended, first_point, one_call,
}
use quitsies.Tcp.Threads.Shared.{
  Shared, at, MayCall, holder_behind, Inside, ThreadStep, begins, returns, throws, Threads,
  nothing_yet, then_thread, idle,
}
use quitsies.Tcp.Threads.Next.{Next, one_call-Next}
use quitsies.Tcp.Request.Response.{error_line}
use quitsies.Tcp.Threads.Exclusion.{at-cases, first_point-outside, ended-outside, Threads-Exclusive}

-- The mutex belongs to a thread whose handler has ended.
abbrev pub Lost : {S : Type 0} → ℕ → Shared S → Type 0
Lost i v = (v.holder ≡ some i) × ((j : ℕ) → Inside (v.points j) → ⊥)

-- A handler that is outside makes a call while the mutex is lost.
call-Lost :
    (i j : ℕ) (q p : Point) (holder : Option ℕ)
    → Next q p
    → MayCall q holder
    → (Inside q → ⊥)
    → holder ≡ some i
    → (holder_behind j q holder ≡ some i) × (Inside p → ⊥)
call-Lost i j (add_locks key value) p holder n free out h = cc (free, h)
call-Lost i j (add_looks key value) p holder n free out h = absurd (out tt)
call-Lost i j (add_puts key value) p holder n free out h = absurd (out tt)
call-Lost i j (add_unlocks reply) p holder n free out h = absurd (out tt)
call-Lost i j (set_puts key value) p holder n free out h = (h, ended-outside p n)
call-Lost i j (delete_looks key) p holder (inl n) free out h = (h, ended-outside p n)
call-Lost i j (delete_looks key) p holder (inr e) free out h = (h, λ k. subst Inside e k)
call-Lost i j (delete_deletes key) p holder n free out h = (h, ended-outside p n)
call-Lost i j (get_looks k keys ss) p holder (inl n) free out h = (h, ended-outside p n)
call-Lost i j (get_looks k keys ss) p holder (inr (key, rest, text, e)) free out h =
    (h, λ k. subst Inside e k)
call-Lost i j refuses p holder n free out h = absurd n
call-Lost i j (ended reply) p holder n free out h = (h, ended-outside p n)

module _ {S : Type 0} (db : Store S) (Allowed : CommandType → Type 0) where
  ThreadStep-Lost : (i : ℕ) {v w : Shared S} → ThreadStep db Allowed v w → Lost i v → Lost i w
  ThreadStep-Lost i {v} (begins j reply cmd key keys buffer e allowed same) h =
      subst (Lost i) (sym same) (
        h.0,
        λ m inside. elim (at-cases Inside v.points j (first_point cmd key keys buffer) m inside) [
          | inl (_, k) ↦ first_point-outside cmd key keys buffer k
          | inr (_, k) ↦ h.1 m k
        ],
      )
  ThreadStep-Lost i {v} (returns j p t may called same) h =
      let next = one_call-Next db (v.points j) p v.database t called in
      let (held, out) = call-Lost i j (v.points j) p v.holder next may (h.1 j) h.0 in
      subst (Lost i) (sym same) (
        held,
        λ m inside. elim (at-cases Inside v.points j p m inside) [
          | inl (_, k) ↦ out k
          | inr (_, k) ↦ h.1 m k
        ],
      )
  ThreadStep-Lost i {v} (throws j what t may called same) h = subst (Lost i) (sym same) (
    h.0,
    λ m inside. elim (at-cases Inside v.points j (ended _) m inside) [
      | inl (_, k) ↦ k
      | inr (_, k) ↦ h.1 m k
    ],
  )

  Threads-Lost : (i : ℕ) {v w : Shared S} → Threads db Allowed v w → Lost i v → Lost i w
  Threads-Lost i nothing_yet h = h
  Threads-Lost i (then_thread r st) h = ThreadStep-Lost i st (Threads-Lost i r h)

  pub throws-Lost :
      (s : S) {v w : Shared S} (i : ℕ) (what : Bytes) (t : S)
      → Threads db Allowed (idle s) v
      → Inside (v.points i)
      → one_call db (v.points i) v.database ≡ (err what, t)
      → Threads db Allowed
          (record v { database = t; points = at v.points i (ended (error_line what)) })
          w
      → Lost i w
  throws-Lost s {v} i what t before inside thrown later =
      let h = Threads-Exclusive db Allowed before (λ k k_inside. absurd k_inside) in
      Threads-Lost i later (
        h i inside,
        λ m m_inside. elim (at-cases Inside v.points i (ended (error_line what)) m m_inside) [
          | inl (_, k) ↦ k
          | inr (n, k) ↦ n (cc (h i inside, h m k))
        ],
      )
