-- ===== src/Tcp/Threads/Returned.antt =====
-- What each call of a handler of src/quitsies/tcp/request.cpp returns over a database that is a map.
use quitsies.Prelude.{true, ◌≡◌, refl, ap, ◌∙◌, subst, [], none, some, ok, pure, bind-ok, arith}
use quitsies.Text.{Bytes, codes}
use quitsies.Db.Store.{Status, Store}
use quitsies.Tcp.Request.Response.{put_reply, del_reply, with_value}
use quitsies.Tcp.Memcached.Spec.{Map, update, values_text, with_key}
use quitsies.Tcp.Memcached.Keeps.{Answers, IsMap}
use quitsies.Tcp.Memcached.Replies.{with_value-text}
use quitsies.Tcp.Threads.{
  add_locks, add_looks, add_puts, add_unlocks, set_puts, delete_looks, delete_deletes, get_looks,
  get_point, ended, add_looked, delete_looked, one_call,
}

looked-none :
    (key value : Bytes) (found : Status × Bytes)
    → Answers none found
    → add_looked key value found.0 ≡ add_puts key value
looked-none key value found h = ground (arith, h)

put_reply-stored : (st : Status) → st.is_ok ≡ true → put_reply st ≡ codes "STORED\r\n"
put_reply-stored st h = rw h refl

module _ {S : Type 0} (db : Store S) (view : S → Map) (law : IsMap db view) where
  pub returned_locks :
      (key value : Bytes) (s : S)
      → (t : S) × (one_call db (add_locks key value) s ≡ (ok (add_looks key value), t))
        × (view t ≡ view s)
  unfolding one_call
  returned_locks key value s =
      let (t, e, same) = law.locks s in
      (t, bind-ok db.lock (λ u. pure (add_looks key value)) s e, same)

  pub returned_looks :
      (key value : Bytes) (s : S)
      → view s key ≡ none
      → (t : S) × (one_call db (add_looks key value) s ≡ (ok (add_puts key value), t))
        × (view t ≡ view s)
  unfolding one_call
  returned_looks key value s absent =
      let (found, t, e, answer, same) = law.gets key s in
      (
        t,
        bind-ok (db.get key) (λ x. pure (add_looked key value x.0)) s e
            ∙ ap (λ p. (ok p, t))
                (looked-none key value found (subst (λ o. Answers o found) absent answer)),
        same,
      )

  pub returned_sets :
      (key value : Bytes) (s : S)
      → (t : S) × (one_call db (set_puts key value) s ≡ (ok (ended (codes "STORED\r\n")), t))
        × (view t ≡ update key (some value) (view s))
  unfolding one_call
  returned_sets key value s =
      let (st, t, e, fine, same) = law.puts key value s in
      (
        t,
        bind-ok (db.put key value) (λ x. pure (ended (put_reply x))) s e
            ∙ ap (λ r. (ok (ended r), t)) (put_reply-stored st fine),
        same,
      )

  pub returned_puts :
      (key value : Bytes) (s : S)
      → (t : S) × (one_call db (add_puts key value) s ≡ (ok (add_unlocks (codes "STORED\r\n")), t))
        × (view t ≡ update key (some value) (view s))
  unfolding one_call
  returned_puts key value s =
      let (st, t, e, fine, same) = law.puts key value s in
      (
        t,
        bind-ok (db.put key value) (λ x. pure (add_unlocks (put_reply x))) s e
            ∙ ap (λ r. (ok (add_unlocks r), t)) (put_reply-stored st fine),
        same,
      )

  pub returned_unlocks :
      (reply : Bytes) (s : S)
      → (t : S) × (one_call db (add_unlocks reply) s ≡ (ok (ended reply), t)) × (view t ≡ view s)
  unfolding one_call
  returned_unlocks reply s =
      let (t, e, same) = law.unlocks s in (t, bind-ok db.unlock (λ u. pure (ended reply)) s e, same)

  pub returned_hit :
      (key old : Bytes) (s : S)
      → view s key ≡ some old
      → (t : S) × (one_call db (delete_looks key) s ≡ (ok (delete_deletes key), t))
        × (view t ≡ view s)
  unfolding one_call
  returned_hit key old s there =
      let (found, t, e, answer, same) = law.gets key s in
      (
        t,
        bind-ok (db.get key) (λ x. pure (delete_looked key x.0)) s e
            ∙ ap (λ p. (ok p, t)) (hit key found (subst (λ o. Answers o found) there answer)),
        same,
      )
    where
      hit :
          (key : Bytes) (found : Status × Bytes)
          → Answers (some old) found
          → delete_looked key found.0 ≡ delete_deletes key
      hit key found h = ground (arith, h.0)

  pub returned_missed :
      (key : Bytes) (s : S)
      → view s key ≡ none
      → (t : S) × (one_call db (delete_looks key) s ≡ (ok (ended (codes "NOT_FOUND\r\n")), t))
        × (view t ≡ view s)
  unfolding one_call
  returned_missed key s absent =
      let (found, t, e, answer, same) = law.gets key s in
      (
        t,
        bind-ok (db.get key) (λ x. pure (delete_looked key x.0)) s e
            ∙ ap (λ p. (ok p, t)) (missed key found (subst (λ o. Answers o found) absent answer)),
        same,
      )
    where
      missed :
          (key : Bytes) (found : Status × Bytes)
          → Answers none found
          → delete_looked key found.0 ≡ ended (codes "NOT_FOUND\r\n")
      missed key found h = ground (arith, h.0)

  pub returned_deletes :
      (key : Bytes) (s : S)
      → (t : S) × (one_call db (delete_deletes key) s ≡ (ok (ended (codes "DELETED\r\n")), t))
        × (view t ≡ update key none (view s))
  unfolding one_call
  returned_deletes key s =
      let (st, t, e, fine, same) = law.dels key s in
      (
        t,
        bind-ok (db.del key) (λ x. pure (ended (del_reply x))) s e
            ∙ ap (λ r. (ok (ended r), t)) (deleted st fine),
        same,
      )
    where
      deleted : (st : Status) → st.is_ok ≡ true → del_reply st ≡ codes "DELETED\r\n"
      deleted st h = rw h refl

  pub returned_found :
      (key value old : Bytes) (s : S)
      → view s key ≡ some old
      → (t : S) × (one_call db (add_looks key value) s
          ≡ (ok (add_unlocks (codes "NOT_STORED\r\n")), t))
        × (view t ≡ view s)
  unfolding one_call
  returned_found key value old s there =
      let (found, t, e, answer, same) = law.gets key s in
      (
        t,
        bind-ok (db.get key) (λ x. pure (add_looked key value x.0)) s e
            ∙ ap (λ p. (ok p, t))
                (present key value found (subst (λ o. Answers o found) there answer)),
        same,
      )
    where
      present :
          (key value : Bytes) (found : Status × Bytes)
          → Answers (some old) found
          → add_looked key value found.0 ≡ add_unlocks (codes "NOT_STORED\r\n")
      present key value found h = ground (arith, h)

  pub returned_got :
      (key : Bytes) (s : S)
      → (t : S) × (one_call db (get_looks key [] []) s
          ≡ (ok (ended (values_text (with_key key (view s key) []))), t))
        × (view t ≡ view s)
  unfolding one_call
  returned_got key s =
      let (found, t, e, answer, same) = law.gets key s in
      (
        t,
        bind-ok (db.get key) (λ x. pure (get_point [] (with_value db [] key x))) s e
            ∙ ap (λ r. (ok (ended r), t))
                (with_value-text db view law [] key (view s key) found [] answer),
        same,
      )
