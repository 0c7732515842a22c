-- ===== src/Tcp/Threads/Serial/Present.antt =====
-- What stays in a database that is a map while handlers of src/quitsies/tcp/request.cpp call it.
use quitsies.Prelude.{
  ◌≡◌, ◌≢◌, refl, sym, subst, ap, ◌∙◌, inl, inr, List, Option, none, some, ok, Bool-cases,
}
use quitsies.Text.{Bytes, eqb}
use quitsies.Db.Store.{Store}
use quitsies.Tcp.Request.Types.{CommandType, set, add, get, gets, delete}
use quitsies.Tcp.Request.Response.{put_reply, with_value}
use quitsies.Tcp.Memcached.Spec.{Map, update}
use quitsies.Tcp.Memcached.Keeps.{IsMap}
use quitsies.Tcp.Threads.{
  Point, add_locks, add_looks, add_puts, add_unlocks, set_puts, delete_looks, delete_deletes,
  get_looks, refuses, ended, first_point, add_looked, delete_looked, get_point, one_call,
}
use quitsies.Tcp.Threads.Next.{Next, one_call-Next}
use quitsies.Tcp.Threads.Calls.{behind}
use quitsies.Tcp.Threads.Returned.{returned_hit, returned_missed}

abbrev pub IsPresent : Option Bytes → Type 0
IsPresent o = (value : Bytes) × (o ≡ some value)

-- The handler is not one of `delete` in front of its deletion.
abbrev pub NoDelete : Point → Type 0
NoDelete p = (key : Bytes) → p ≢ delete_deletes key

update-IsPresent :
    (key value k : Bytes) (f : Map) → IsPresent (f k) → IsPresent (update key (some value) f k)
update-IsPresent key value k f (old, e) = elim (Bool-cases (eqb key k)) [
  | inl same ↦ (value, rw same refl)
  | inr other ↦ (old, rw other e)
]

-- Only a handler that has looked is about to delete, and the same key.
pub Next-deletes : (q p : Point) (k : Bytes) → Next q p → p ≡ delete_deletes k → q ≡ delete_looks k
Next-deletes (add_locks key value) p k n e = cc (n, e)
Next-deletes (add_looks key value) p k (inl n) e = cc (n, e)
Next-deletes (add_looks key value) p k (inr (reply, n)) e = cc (n, e)
Next-deletes (add_puts key value) p k (reply, n) e = cc (n, e)
Next-deletes (add_unlocks reply) p k (r, n) e = cc (n, e)
Next-deletes (set_puts key value) p k (r, n) e = cc (n, e)
Next-deletes (delete_looks key) p k (inl (r, n)) e = cc (n, e)
Next-deletes (delete_looks key) p k (inr n) e = cc (n, e)
Next-deletes (delete_deletes key) p k (r, n) e = cc (n, e)
Next-deletes (get_looks j keys ss) p k (inl (r, n)) e = cc (n, e)
Next-deletes (get_looks j keys ss) p k (inr (a, b, c, n)) e = cc (n, e)
Next-deletes refuses p k n e = absurd n
Next-deletes (ended reply) p k (r, n) e = cc (n, e)

pub first_point-NoDelete :
    (cmd : CommandType) (key : Bytes) (keys : List Bytes) (buffer : Bytes)
    → NoDelete (first_point cmd key keys buffer)
first_point-NoDelete delete key keys buffer k e = cc (e)
first_point-NoDelete add key keys buffer k e = cc (e)
first_point-NoDelete set key keys buffer k e = cc (e)
first_point-NoDelete get key keys buffer k e = cc (e)
first_point-NoDelete gets key keys buffer k e = cc (e)
first_point-NoDelete _ key keys buffer k e = cc (e)

module _ {S : Type 0} (db : Store S) (view : S → Map) (law : IsMap db view) where
  kept :
      (s t u : S) (k : Bytes)
      → t ≡ u
      → view u ≡ view s
      → IsPresent (view s k)
      → IsPresent (view t k)
  kept s t u k e same (value, there) = (value, ap (λ x. view x k) e ∙ ap (λ f. f k) same ∙ there)

  stored :
      (s t u : S) (k key value : Bytes)
      → t ≡ u
      → view u ≡ update key (some value) (view s)
      → IsPresent (view s k)
      → IsPresent (view t k)
  stored s t u k key value e same there =
      subst (λ o. IsPresent o) (sym (ap (λ x. view x k) e ∙ ap (λ f. f k) same))
        (update-IsPresent key value k (view s) there)

  -- A call that is no deletion removes nothing.
  pub one_call-IsPresent :
      (q : Point) (s : S) (k : Bytes)
      → NoDelete q
      → IsPresent (view s k)
      → IsPresent (view (one_call db q s).1 k)
  unfolding one_call
  one_call-IsPresent (add_locks key value) s k n h =
      let (t, e, same) = law.locks s in
      kept s _ t k (behind db view law db.lock (λ u. add_looks key value) s e) same h
  one_call-IsPresent (add_looks key value) s k n h =
      let (found, t, e, answer, same) = law.gets key s in
      kept s _ t k (behind db view law (db.get key) (λ x. add_looked key value x.0) s e) same h
  one_call-IsPresent (add_puts key value) s k n h =
      let (st, t, e, fine, same) = law.puts key value s in
      stored s _ t k key value
        (behind db view law (db.put key value) (λ x. add_unlocks (put_reply x)) s e) same h
  one_call-IsPresent (add_unlocks reply) s k n h =
      let (t, e, same) = law.unlocks s in
      kept s _ t k (behind db view law db.unlock (λ u. ended reply) s e) same h
  one_call-IsPresent (set_puts key value) s k n h =
      let (st, t, e, fine, same) = law.puts key value s in
      stored s _ t k key value
        (behind db view law (db.put key value) (λ x. ended (put_reply x)) s e) same h
  one_call-IsPresent (delete_looks key) s k n h =
      let (found, t, e, answer, same) = law.gets key s in
      kept s _ t k (behind db view law (db.get key) (λ x. delete_looked key x.0) s e) same h
  one_call-IsPresent (delete_deletes key) s k n h = absurd (n key refl)
  one_call-IsPresent (get_looks key keys ss) s k n h =
      let (found, t, e, answer, same) = law.gets key s in
      kept s _ t k
        (behind db view law (db.get key) (λ x. get_point keys (with_value db ss key x)) s e) same h
  one_call-IsPresent refuses s k n h = h
  one_call-IsPresent (ended reply) s k n h = h

  looked-IsPresent :
      (key : Bytes) (s t : S) (p : Point) (o : Option Bytes)
      → view s key ≡ o
      → one_call db (delete_looks key) s ≡ (ok p, t)
      → p ≡ delete_deletes key
      → IsPresent (view t key)
  looked-IsPresent key s t p none there called e =
      let (u, missed, same) = returned_missed db view law key s there in cc (missed, called, e)
  looked-IsPresent key s t p (some old) there called e =
      let (u, hit, same) = returned_hit db view law key old s there in
      kept s t u key (cc (hit, called)) same (old, there)

  -- A handler that goes on to delete its key has found it.
  pub deletes-IsPresent :
      (q p : Point) (s t : S) (key : Bytes)
      → one_call db q s ≡ (ok p, t)
      → p ≡ delete_deletes key
      → IsPresent (view t key)
  deletes-IsPresent q p s t key called e =
      let looked = Next-deletes q p key (one_call-Next db q p s t called) e in
      looked-IsPresent key s t p (view s key) refl
        (subst (λ x. one_call db x s ≡ (ok p, t)) looked called) e
