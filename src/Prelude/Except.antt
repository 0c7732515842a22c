-- ===== src/Prelude/Except.antt =====
-- Exceptions as values. `err what` is a `std::exception` in flight, with its `what()`.
use Prim.Native.Nat.{ℕ}
use mathlib.Core.List.{List}
use mathlib.Core.Path.{◌≡◌, refl, sym, subst}

pub data Result {ℓ} (A : Type ℓ) : Type ℓ where
  ok : A → Result A
  err : List ℕ → Result A

-- A computation on a state that the exception does not roll back.
abbrev pub M : Type 0 → Type 0 → Type 0
M S A = S → Result A × S

infixl 5 ◌>>=◌ ◌>>◌
abbrev pub ◌>>=◌ : {S A B : Type 0} → M S A → (A → M S B) → M S B
◌>>=◌ m f s = let (r, t) = m s in elim r [ ok a ↦ f a t | err e ↦ (err e, t) ]

abbrev pub ◌>>◌ : {S B : Type 0} → M S (Unit {0}) → M S B → M S B
m >> k = m >>= λ _. k

abbrev pub pure : {S A : Type 0} → A → M S A
pure a s = (ok a, s)

abbrev pub raise : {S A : Type 0} → List ℕ → M S A
raise e s = (err e, s)

-- What runs behind a computation that returned.
pub bind-ok :
    {S A B : Type 0} (m : M S A) (f : A → M S B) (s : S) {a : A} {t : S}
    → m s ≡ (ok a, t)
    → (m >>= f) s ≡ f a t
bind-ok {S} {A} {B} m f s {a} {t} e =
    subst
      (λ p.
        (elim p.0 as (λ _. Result B × S) [ ok b ↦ f b p.1 | err what ↦ (err what, p.1) ]) ≡ f a t)
      (sym e) refl

pub bind_assoc :
    {S A B C : Type 0} (m : M S A) (f : A → M S B) (g : B → M S C) (s : S)
    → ((m >>= f) >>= g) s ≡ (m >>= λ a. f a >>= g) s
bind_assoc {S} {A} {B} {C} m f g s = by_result (m s).0
  where
    t : S
    t = (m s).1

    by_result :
        (r : Result A)
        → (let (q, u) : Result B × S = elim r [ ok a ↦ f a t | err e ↦ (err e, t) ] in
            elim q as (λ _. Result C × S) [ ok b ↦ g b u | err e ↦ (err e, u) ])
          ≡ elim r as (λ _. Result C × S) [ ok a ↦ (f a >>= g) t | err e ↦ (err e, t) ]
    by_result (ok a) = refl
    by_result (err e) = refl

pub bind_cong :
    {S A B : Type 0} (m : M S A) (f g : A → M S B) (s : S)
    → ((a : A) (t : S) → f a t ≡ g a t)
    → (m >>= f) s ≡ (m >>= g) s
bind_cong {S} {A} {B} m f g s same = by_result (m s).0
  where
    t : S
    t = (m s).1

    by_result :
        (r : Result A)
        → elim r as (λ _. Result B × S) [ ok a ↦ f a t | err e ↦ (err e, t) ]
          ≡ elim r as (λ _. Result B × S) [ ok a ↦ g a t | err e ↦ (err e, t) ]
    by_result (ok a) = same a t
    by_result (err e) = refl

-- Only a computation that returned has a pure result behind it.
pub bind_pure-returned :
    {S A B : Type 0} (m : M S A) (f : A → B) (s : S) (b : B) (t : S)
    → (m >>= λ a. pure (f a)) s ≡ (ok b, t)
    → (a : A) × (m s ≡ (ok a, t)) × (f a ≡ b)
bind_pure-returned {S} {A} {B} m f s b t e = by_result (m s).0 (m s).1 e
  where
    by_result :
        (r : Result A) (u : S)
        → elim r as (λ _. Result B × S) [ ok a ↦ (ok (f a), u) | err what ↦ (err what, u) ]
          ≡ (ok b, t)
        → (a : A) × (◌≡◌ {A = Result A × S} (r, u) (ok a, t)) × (f a ≡ b)
    by_result (ok a) u h = (a, cc (h), cc (h))
    by_result (err what) u h = cc (h)

-- If a sequence returned, both parts did, and it is the second part behind the first.
pub seq-both :
    {S B : Type 0} (r : Result (Unit {0})) (t : S) (k : M S B) (b : B)
    → (elim r as (λ _. Result B × S) [ ok a ↦ k t | err what ↦ (err what, t) ]).0 ≡ ok b
    → (r ≡ ok tt)
      × ((k t).0 ≡ ok b)
      × ((elim r as (λ _. Result B × S) [ ok a ↦ k t | err what ↦ (err what, t) ]) ≡ k t)
seq-both (ok u) t k b h = (refl, h, refl)
seq-both (err what) t k b h = cc (h)

-- Two calls that returned the same.
pub ok-parts :
    {S A : Type 0} {a b : A} {s t : S} → Path (Result A × S) (ok a, s) (ok b, t) → (a ≡ b) × (s ≡ t)
ok-parts e = (cc (e), cc (e))
