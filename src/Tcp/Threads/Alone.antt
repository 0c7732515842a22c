-- ===== src/Tcp/Threads/Alone.antt =====
-- A handler that is cut at its calls of the database is the handler of
-- src/quitsies/tcp/request.cpp, when nothing comes between the calls.
use quitsies.Prelude.{
  ℕ, zero, suc, ◌+◌, ◌≡◌, refl, sym, ap, subst, ◌∙◌, List, [], ◌∷◌, length, if◌then◌else◌, not,
  Bool, true, false, ◌>>=◌, pure, bind_assoc, bind_cong, arith,
}
use quitsies.Text.{Bytes, codes}
use quitsies.Db.Store.{Status, Store}
use quitsies.Tcp.Request.Types.{CommandType, set, add, get, gets, delete}
use quitsies.Tcp.Request.Response.{
  put_reply, del_reply, error_line, with_value, delete_key, del_found, add_key, add_found, unlocked,
  set_key, get_keys, respond,
}
use quitsies.Tcp.Threads.{
  add_locks, add_looks, add_puts, add_unlocks, set_puts, delete_looks, delete_deletes, ended,
  get_point, first_point, add_looked, delete_looked, one_call, calls,
}

module _ {S : Type 0} (db : Store S) where
  calls-ended : (n : ℕ) (reply : Bytes) (s : S) → calls db n (ended reply) s ≡ pure reply s
  unfolding calls
  calls-ended zero reply s = refl
  calls-ended (suc n) reply s = refl

  calls-set :
      (n : ℕ) (key value : Bytes) (s : S)
      → calls db (suc n) (set_puts key value) s ≡ set_key db key value s
  unfolding calls one_call set_key
  calls-set n key value s =
      bind_assoc (db.put key value) (λ st. pure (ended (put_reply st))) (calls db n) s
      ∙ bind_cong (db.put key value) _ _ s (λ st t. calls-ended n (put_reply st) t)

  calls-unlocks :
      (n : ℕ) (reply : Bytes) (s : S) → calls db (suc n) (add_unlocks reply) s ≡ unlocked db reply s
  unfolding calls one_call
  calls-unlocks n reply s =
      bind_assoc db.unlock (λ u. pure (ended reply)) (calls db n) s
      ∙ bind_cong db.unlock _ _ s (λ u t. calls-ended n reply t)

  calls-puts :
      (n : ℕ) (key value : Bytes) (s : S)
      → calls db (suc (suc n)) (add_puts key value) s
        ≡ (do st ← db.put key value; unlocked db (put_reply st)) s
  unfolding calls one_call
  calls-puts n key value s =
      bind_assoc (db.put key value) (λ st. pure (add_unlocks (put_reply st))) (calls db (suc n)) s
      ∙ bind_cong (db.put key value) _ _ s (λ st t. calls-unlocks n (put_reply st) t)

  -- What `add` does with what it found.
  calls-looked :
      (n : ℕ) (key value : Bytes) (found : Status × Bytes) (s : S)
      → calls db (suc (suc n)) (add_looked key value found.0) s
        ≡ (do reply ← add_found db key value found; unlocked db reply) s
  unfolding add_found
  calls-looked n key value (st, text) s = by_status st.is_ok st.is_not_found
    where
      by_status :
          (fine absent : Bool)
          → calls db
              (suc (suc n))
              (if not fine
                then if absent then add_puts key value else add_unlocks (error_line st.msg)
                else add_unlocks (codes "NOT_STORED\r\n"))
              s
            ≡ (do
              reply ←
                  if not fine
                  then if absent
                    then (do status ← db.put key value; pure (put_reply status))
                    else pure (error_line st.msg)
                  else pure (codes "NOT_STORED\r\n")
              unlocked db reply)
                s
      by_status true absent = calls-unlocks (suc n) _ s
      by_status false false = calls-unlocks (suc n) _ s
      by_status false true =
          calls-puts n key value s
          ∙ sym (bind_assoc (db.put key value) (λ status. pure (put_reply status)) (unlocked db) s)

  calls-add :
      (n : ℕ) (key value : Bytes) (s : S)
      → calls db (suc (suc (suc (suc n)))) (add_locks key value) s ≡ add_key db key value s
  unfolding calls one_call add_key
  calls-add n key value s =
      bind_assoc db.lock (λ u. pure (add_looks key value)) (calls db (suc (suc (suc n)))) s
      ∙ bind_cong db.lock _ _ s (λ u t.
        bind_assoc (db.get key) (λ found. pure (add_looked key value found.0))
          (calls db (suc (suc n))) t
        ∙ bind_cong (db.get key) _ _ t (λ found v. calls-looked n key value found v))

  calls-deletes :
      (n : ℕ) (key : Bytes) (s : S) → calls db (suc n) (delete_deletes key) s ≡ del_found db key s
  unfolding calls one_call
  calls-deletes n key s =
      bind_assoc (db.del key) (λ st. pure (ended (del_reply st))) (calls db n) s
      ∙ bind_cong (db.del key) _ _ s (λ st t. calls-ended n (del_reply st) t)

  calls-delete :
      (n : ℕ) (key : Bytes) (s : S)
      → calls db (suc (suc n)) (delete_looks key) s ≡ delete_key db key s
  unfolding calls one_call delete_key
  calls-delete n key s =
      bind_assoc (db.get key) (λ found. pure (delete_looked key found.0)) (calls db (suc n)) s
      ∙ bind_cong (db.get key) _ _ s (λ found t. by_status found.0.is_ok t)
    where
      by_status :
          (fine : Bool) (t : S)
          → calls db
              (suc n)
              (if not fine then ended (codes "NOT_FOUND\r\n") else delete_deletes key)
              t
            ≡ (if not fine then pure (codes "NOT_FOUND\r\n") else del_found db key) t
      by_status true t = calls-deletes n key t
      by_status false t = calls-ended (suc n) _ t

  -- One call more for each key.
  abbrev more : List Bytes → ℕ → ℕ
  more [] n = n
  more (key ∷ keys) n = suc (more keys n)

  more-length : (keys : List Bytes) (n : ℕ) → more keys n ≡ length keys + n
  more-length [] n = omega arith
  more-length (key ∷ keys) n = omega (arith, more-length keys n)

  calls-get :
      (n : ℕ) (keys : List Bytes) (ss : Bytes) (s : S)
      → calls db (more keys n) (get_point keys ss) s ≡ get_keys db keys ss s
  unfolding calls one_call get_keys
  calls-get n [] ss s = calls-ended n _ s
  calls-get n (key ∷ keys) ss s =
      bind_assoc (db.get key) (λ found. pure (get_point keys (with_value db ss key found)))
        (calls db (more keys n)) s
      ∙ bind_cong (db.get key) _ _ s (λ found t. calls-get n keys (with_value db ss key found) t)

  -- Each handler makes at most as many calls as it has keys and four more, and run without an
  -- interruption these calls are the handler: the same reply or exception, and the same state.
  pub calls-respond :
      (cmd : CommandType) (key : Bytes) (keys : List Bytes) (buffer : Bytes) (s : S)
      → calls db (length (key ∷ keys) + 4) (first_point cmd key keys buffer) s
        ≡ respond db cmd key keys buffer s
  unfolding respond calls one_call
  calls-respond cmd key keys buffer s =
      subst (λ n. calls db n (first_point cmd key keys buffer) s ≡ respond db cmd key keys buffer s)
        (more-length (key ∷ keys) 4) (by_command cmd)
    where
      enough : (suc (suc (suc (suc (more keys 1))))) ≡ more (key ∷ keys) 4
      enough = omega (arith, more-length keys 1, more-length (key ∷ keys) 4)

      by_command :
          (c : CommandType)
          → calls db (more (key ∷ keys) 4) (first_point c key keys buffer) s
            ≡ respond db c key keys buffer s
      by_command delete =
          ap (λ n. calls db n (delete_looks key) s) (sym enough)
          ∙ calls-delete (suc (suc (more keys 1))) key s
      by_command add =
          ap (λ n. calls db n (add_locks key buffer) s) (sym enough)
          ∙ calls-add (more keys 1) key buffer s
      by_command set = calls-set _ key buffer s
      by_command get = calls-get 4 (key ∷ keys) [] s
      by_command gets = calls-get 4 (key ∷ keys) [] s
      by_command _ = refl
