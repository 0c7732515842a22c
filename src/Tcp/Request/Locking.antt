-- ===== src/Tcp/Request/Locking.antt =====
-- The lock of the database around the commands. The store behind the interface is any one whose
-- lock is counted: `held` says how often the lock is held in a state.
use quitsies.Prelude.{
  ℕ, suc, Bool, true, false, ◌≡◌, refl, ◌∙◌, List, [], ◌∷◌, Result, ok, err, M, ◌>>=◌, pure,
  Bool-cases, inl, inr, not, ◌&&◌, if◌then◌else◌,
}
use quitsies.Text.{Bytes, codes}
use quitsies.Db.Store.{Status, Store}
use quitsies.Tcp.Request.Types.{CommandType, set, add, get, gets, delete}
use quitsies.Tcp.Request.Response.{
  with_value, put_reply, del_reply, del_found, delete_key, add_found, add_key, get_keys, unlocked,
  respond,
}

-- What is asked of the store: only `lock` and `unlock` change the count, and they do not throw.
pub record Counted {S : Type 0} (db : Store S) (held : S → ℕ) : Type 0 where
  pub get_keeps : (key : Bytes) (s : S) → held (db.get key s).1 ≡ held s
  pub del_keeps : (key : Bytes) (s : S) → held (db.del key s).1 ≡ held s
  pub put_keeps : (key value : Bytes) (s : S) → held (db.put key value s).1 ≡ held s
  pub lock_counts : (s : S) → held (db.lock s).1 ≡ suc (held s)
  pub unlock_counts : (s : S) (n : ℕ) → held s ≡ suc n → held (db.unlock s).1 ≡ n
  pub lock_ok : (s : S) → (db.lock s).0 ≡ ok tt
  pub unlock_ok : (s : S) → (db.unlock s).0 ≡ ok tt

abbrev pub is_err : {A : Type 0} → Result A → Bool
is_err (ok a) = false
is_err (err e) = true

abbrev pub is_add : CommandType → Bool
is_add add = true
is_add _ = false

module _ {S : Type 0} (db : Store S) (held : S → ℕ) (laws : Counted db held) where
  -- The computation leaves the count as it was.
  abbrev Keeps : {A : Type 0} → M S A → Type 0
  Keeps m = (s : S) → held (m s).1 ≡ held s

  Keeps-elim :
      {A B : Type 0} (r : Result A) (t : S) (f : A → M S B)
      → ((a : A) → Keeps (f a))
      → held (elim r as (λ _. Result B × S) [ ok a ↦ f a t | err e ↦ (err e, t) ]).1 ≡ held t
  Keeps-elim (ok a) t f h = h a t
  Keeps-elim (err e) t f h = refl

  Keeps-bind :
      {A B : Type 0} (m : M S A) (f : A → M S B)
      → Keeps m
      → ((a : A) → Keeps (f a))
      → Keeps (m >>= f)
  Keeps-bind m f h k s = Keeps-elim (m s).0 (m s).1 f k ∙ h s

  put-Keeps : (key value : Bytes) → Keeps (db.put key value >>= λ st. pure (put_reply st))
  put-Keeps key value =
      Keeps-bind (db.put key value) (λ st. pure (put_reply st)) (laws.put_keeps key value)
        (λ st s. refl)

  get_keys-Keeps : (keys : List Bytes) (ss : Bytes) → Keeps (get_keys db keys ss)
  unfolding get_keys
  get_keys-Keeps [] ss = λ s. refl
  get_keys-Keeps (key ∷ keys) ss =
      Keeps-bind (db.get key) (λ found. get_keys db keys (with_value db ss key found))
        (laws.get_keeps key) (λ found. get_keys-Keeps keys _)

  add_found-Keeps :
      (key value : Bytes) (found : Status × Bytes) → Keeps (add_found db key value found)
  unfolding add_found
  add_found-Keeps key value found s = elim (Bool-cases found.0.is_ok) [
    | inl e ↦ rw e refl
    | inr e ↦ rw e (elim (Bool-cases found.0.is_not_found) [
      | inl n ↦ rw n (put-Keeps key value s)
      | inr n ↦ rw n refl
    ])
  ]

  -- The count is back at `n`, unless an exception is in flight: then the lock is still held.
  abbrev Leaks : ℕ → Result Bytes × S → Type 0
  Leaks n out = held out.1 ≡ (if is_err out.0 then suc n else n)

  unlocked-Leaks : (n : ℕ) (reply : Bytes) (t : S) → held t ≡ suc n → Leaks n (unlocked db reply t)
  unlocked-Leaks n reply t h = rw (laws.unlock_ok t, ◌>>=◌) (laws.unlock_counts t n h)

  reply-Leaks :
      (n : ℕ) (r : Result Bytes) (t : S)
      → held t ≡ suc n
      → Leaks n (elim r as (λ _. Result Bytes × S) [ ok a ↦ unlocked db a t | err e ↦ (err e, t) ])
  reply-Leaks n (ok a) t h = unlocked-Leaks n a t h
  reply-Leaks n (err e) t h = h

  found-Leaks :
      (n : ℕ) (key value : Bytes) (r : Result (Status × Bytes)) (t : S)
      → held t ≡ suc n
      → Leaks n (elim r as (λ _. Result Bytes × S) [
        | ok found ↦ (add_found db key value found >>= unlocked db) t
        | err e ↦ (err e, t)
      ])
  found-Leaks n key value (ok found) t h =
      reply-Leaks n (add_found db key value found t).0 (add_found db key value found t).1
        (add_found-Keeps key value found t ∙ h)
  found-Leaks n key value (err e) t h = h

  add_key-Leaks : (key value : Bytes) (s : S) → Leaks (held s) (add_key db key value s)
  unfolding add_key
  add_key-Leaks key value s =
      let t = (db.lock s).1 in
      rw (laws.lock_ok s, ◌>>=◌)
        (found-Leaks (held s) key value (db.get key t).0 (db.get key t).1
          (laws.get_keeps key t ∙ laws.lock_counts s))

  delete_key-Keeps : (key : Bytes) → Keeps (delete_key db key)
  unfolding delete_key
  delete_key-Keeps key =
      Keeps-bind (db.get key)
        (λ found. if not found.0.is_ok then pure (codes "NOT_FOUND\r\n") else del_found db key)
        (laws.get_keeps key)
        λ found s. elim (Bool-cases found.0.is_ok) [
          | inl e ↦ rw e (
              Keeps-bind (db.del key) (λ st. pure (del_reply st)) (laws.del_keeps key)
                (λ st t. refl) s)
          | inr e ↦ rw e refl
        ]

  -- Every command but `add` leaves the lock alone. `add` takes it and gives it back, on all of its
  -- branches, exactly if no operation throws under it: an exception leaves the lock held, since the
  -- `catch` of `prepare_response` does not unlock.
  pub respond-held :
      (c : CommandType) (key : Bytes) (keys : List Bytes) (buffer : Bytes) (s : S)
      → held (respond db c key keys buffer s).1
        ≡ (if is_add c && is_err (respond db c key keys buffer s).0 then suc (held s) else held s)
  unfolding respond
  respond-held add key keys buffer s = add_key-Leaks key buffer s
  respond-held set key keys buffer s = put-Keeps key buffer s
  respond-held get key keys buffer s = get_keys-Keeps (key ∷ keys) [] s
  respond-held gets key keys buffer s = get_keys-Keeps (key ∷ keys) [] s
  respond-held delete key keys buffer s = delete_key-Keeps key s
  respond-held _ key keys buffer s = refl
