-- ===== src/Tcp/Threads/Calls.antt =====
-- What one call of a handler of src/quitsies/tcp/request.cpp leaves of a database that is a map.
use quitsies.Prelude.{
  ◌≡◌, ◌≢◌, refl, ap, ◌∙◌, inl, inr, List, Option, none, some, ok, M, pure, ◌>>=◌, bind-ok, arith,
}
use quitsies.Text.{Bytes}
use quitsies.Db.Store.{Status, Store}
use quitsies.Tcp.Request.Types.{CommandType, set, add, get, gets, delete}
use quitsies.Tcp.Request.Response.{del_reply, with_value}
use quitsies.Tcp.Memcached.Spec.{Map}
use quitsies.Tcp.Memcached.Keeps.{Answers, IsMap}
use quitsies.Tcp.Threads.{
  Point, add_locks, add_looks, add_puts, add_unlocks, set_puts, delete_looks, delete_deletes,
  get_looks, refuses, ended, first_point, add_looked, delete_looked, get_point, one_call,
}
use quitsies.Tcp.Threads.Next.{Next}

-- The client sends anything but `set`.
abbrev pub NotSet : CommandType → Type 0
NotSet cmd = cmd ≢ set

-- The handler is not one of `set` in front of its put.
abbrev pub NoSet : Point → Type 0
NoSet p = (key value : Bytes) → p ≢ set_puts key value

-- The handler is not one of `add` in front of its put.
abbrev pub NoAdd : Point → Type 0
NoAdd p = (key value : Bytes) → p ≢ add_puts key value

pub first_point-NoSet :
    (cmd : CommandType) (key : Bytes) (keys : List Bytes) (buffer : Bytes)
    → NotSet cmd
    → NoSet (first_point cmd key keys buffer)
first_point-NoSet delete key keys buffer n k v e = cc (e)
first_point-NoSet add key keys buffer n k v e = cc (e)
first_point-NoSet set key keys buffer n k v e = n refl
first_point-NoSet get key keys buffer n k v e = cc (e)
first_point-NoSet gets key keys buffer n k v e = cc (e)
first_point-NoSet _ key keys buffer n k v e = cc (e)

pub first_point-starts :
    (cmd : CommandType) (key : Bytes) (keys : List Bytes) (buffer k v : Bytes)
    → first_point cmd key keys buffer ≢ add_puts k v
first_point-starts delete key keys buffer k v e = cc (e)
first_point-starts add key keys buffer k v e = cc (e)
first_point-starts set key keys buffer k v e = cc (e)
first_point-starts get key keys buffer k v e = cc (e)
first_point-starts gets key keys buffer k v e = cc (e)
first_point-starts _ key keys buffer k v e = cc (e)

pub Next-NoSet : (q p : Point) → Next q p → NoSet p
Next-NoSet (add_locks key value) p n k v e = cc (n, e)
Next-NoSet (add_looks key value) p (inl n) k v e = cc (n, e)
Next-NoSet (add_looks key value) p (inr (reply, n)) k v e = cc (n, e)
Next-NoSet (add_puts key value) p (reply, n) k v e = cc (n, e)
Next-NoSet (add_unlocks reply) p (r, n) k v e = cc (n, e)
Next-NoSet (set_puts key value) p (r, n) k v e = cc (n, e)
Next-NoSet (delete_looks key) p (inl (r, n)) k v e = cc (n, e)
Next-NoSet (delete_looks key) p (inr n) k v e = cc (n, e)
Next-NoSet (delete_deletes key) p (r, n) k v e = cc (n, e)
Next-NoSet (get_looks j keys ss) p (inl (r, n)) k v e = cc (n, e)
Next-NoSet (get_looks j keys ss) p (inr (a, b, c, n)) k v e = cc (n, e)
Next-NoSet refuses p n k v e = absurd n
Next-NoSet (ended reply) p (r, n) k v e = cc (n, e)

-- Only a handler that has looked is about to put, and for the same key.
pub Next-looked : (q p : Point) (k v : Bytes) → Next q p → p ≡ add_puts k v → q ≡ add_looks k v
Next-looked (add_locks key value) p k v n e = cc (n, e)
Next-looked (add_looks key value) p k v (inl n) e = cc (n, e)
Next-looked (add_looks key value) p k v (inr (reply, n)) e = cc (n, e)
Next-looked (add_puts key value) p k v (reply, n) e = cc (n, e)
Next-looked (add_unlocks reply) p k v (r, n) e = cc (n, e)
Next-looked (set_puts key value) p k v (r, n) e = cc (n, e)
Next-looked (delete_looks key) p k v (inl (r, n)) e = cc (n, e)
Next-looked (delete_looks key) p k v (inr n) e = cc (n, e)
Next-looked (delete_deletes key) p k v (r, n) e = cc (n, e)
Next-looked (get_looks j keys ss) p k v (inl (r, n)) e = cc (n, e)
Next-looked (get_looks j keys ss) p k v (inr (a, b, c, n)) e = cc (n, e)
Next-looked refuses p k v n e = absurd n
Next-looked (ended reply) p k v (r, n) e = cc (n, e)

looked-absent :
    (key value : Bytes) (o : Option Bytes) (found : Status × Bytes) (k v : Bytes)
    → Answers o found
    → add_looked key value found.0 ≡ add_puts k v
    → o ≡ none
looked-absent key value none found k v h e = refl
looked-absent key value (some old) found k v h e = ground (arith, h.0, e)

module _ {S : Type 0} (db : Store S) (view : S → Map) (law : IsMap db view) where
  pub behind :
      {A : Type 0} (m : M S A) (f : A → Point) (s : S) {a : A} {t : S}
      → m s ≡ (ok a, t)
      → ((m >>= λ x. pure (f x)) s).1 ≡ t
  behind m f s e = ap (λ p. p.1) (bind-ok m (λ x. pure (f x)) s e)

  -- A call that is no put stores nothing.
  pub one_call-absent :
      (q : Point) (s : S) (k : Bytes)
      → NoSet q
      → NoAdd q
      → view s k ≡ none
      → view (one_call db q s).1 k ≡ none
  unfolding one_call
  one_call-absent (add_locks key value) s k n m h =
      let (t, e, same) = law.locks s in
      ap (λ u. view u k) (behind db.lock (λ u. add_looks key value) s e) ∙ ap (λ f. f k) same ∙ h
  one_call-absent (add_looks key value) s k n m h =
      let (found, t, e, answer, same) = law.gets key s in
      ap (λ u. view u k) (behind (db.get key) (λ x. add_looked key value x.0) s e)
      ∙ ap (λ f. f k) same
      ∙ h
  one_call-absent (add_puts key value) s k n m h = absurd (m key value refl)
  one_call-absent (add_unlocks reply) s k n m h =
      let (t, e, same) = law.unlocks s in
      ap (λ u. view u k) (behind db.unlock (λ u. ended reply) s e) ∙ ap (λ f. f k) same ∙ h
  one_call-absent (set_puts key value) s k n m h = absurd (n key value refl)
  one_call-absent (delete_looks key) s k n m h =
      let (found, t, e, answer, same) = law.gets key s in
      ap (λ u. view u k) (behind (db.get key) (λ x. delete_looked key x.0) s e)
      ∙ ap (λ f. f k) same
      ∙ h
  one_call-absent (delete_deletes key) s k n m h =
      let (st, t, e, fine, same) = law.dels key s in
      ap (λ u. view u k) (behind (db.del key) (λ x. ended (del_reply x)) s e)
      ∙ ap (λ f. f k) same
      ∙ ground (arith, h)
  one_call-absent (get_looks key keys ss) s k n m h =
      let (found, t, e, answer, same) = law.gets key s in
      ap (λ u. view u k) (behind (db.get key) (λ x. get_point keys (with_value db ss key x)) s e)
      ∙ ap (λ f. f k) same
      ∙ h
  one_call-absent refuses s k n m h = h
  one_call-absent (ended reply) s k n m h = h

  pub looks-absent :
      (key value : Bytes) (s t : S) (p : Point) (k v : Bytes)
      → one_call db (add_looks key value) s ≡ (ok p, t)
      → p ≡ add_puts k v
      → view s key ≡ none
  unfolding one_call
  looks-absent key value s t p k v e f =
      let (found, u, got, answer, same) = law.gets key s in
      let once = bind-ok (db.get key) (λ x. pure (add_looked key value x.0)) s got in
      looked-absent key value (view s key) found k v answer (cc (once, e, f))
