-- ===== src/Tcp/Threads/Next.antt =====
-- Where a handler of src/quitsies/tcp/request.cpp may stand behind each call of the database.
use quitsies.Prelude.{
  Bool, true, false, ◌≡◌, refl, sym, subst, ◌⊎◌, inl, inr, List, [], ◌∷◌, ok, bind_pure-returned,
}
use quitsies.Text.{Bytes}
use quitsies.Db.Store.{Status, Store}
use quitsies.Tcp.Threads.{
  Point, add_locks, add_looks, add_puts, add_unlocks, set_puts, delete_looks, delete_deletes,
  get_looks, refuses, ended, get_point, add_looked, delete_looked, one_call,
}

abbrev pub HasEnded : Point → Type 0
HasEnded p = (reply : Bytes) × (p ≡ ended reply)

abbrev pub Unlocks : Point → Type 0
Unlocks p = (reply : Bytes) × (p ≡ add_unlocks reply)

-- Where a handler may stand behind a call that returned.
abbrev pub Next : Point → Point → Type 0
Next (add_locks key value) p = p ≡ add_looks key value
Next (add_looks key value) p = (p ≡ add_puts key value) ⊎ Unlocks p
Next (add_puts key value) p = Unlocks p
Next (delete_looks key) p = HasEnded p ⊎ (p ≡ delete_deletes key)
Next (get_looks k keys ss) p =
    HasEnded p
    ⊎ ((key : Bytes) × (rest : List Bytes) × (text : Bytes) × (p ≡ get_looks key rest text))
Next refuses p = ⊥
Next _ p = HasEnded p

add_looked-Next :
    (key value : Bytes) (st : Status) → Next (add_looks key value) (add_looked key value st)
add_looked-Next key value st = by_status st.is_ok st.is_not_found
  where
    by_status :
        (fine absent : Bool)
        → Next
            (add_looks key value)
            (add_looked key value (record st { is_ok = fine; is_not_found = absent }))
    by_status true absent = inr (_, refl)
    by_status false true = inl refl
    by_status false false = inr (_, refl)

delete_looked-Next : (key : Bytes) (st : Status) → Next (delete_looks key) (delete_looked key st)
delete_looked-Next key st = by_status st.is_ok
  where
    by_status :
        (fine : Bool) → Next (delete_looks key) (delete_looked key (record st { is_ok = fine }))
    by_status true = inr refl
    by_status false = inl (_, refl)

get_point-Next :
    (k : Bytes) (keys : List Bytes) (ss text : Bytes)
    → Next (get_looks k keys ss) (get_point keys text)
get_point-Next k [] ss text = inl (_, refl)
get_point-Next k (key ∷ keys) ss text = inr (key, keys, text, refl)

module _ {S : Type 0} (db : Store S) where
  pub one_call-Next : (q p : Point) (s t : S) → one_call db q s ≡ (ok p, t) → Next q p
  unfolding one_call
  one_call-Next (add_locks key value) p s t e =
      let (a, called, same) = bind_pure-returned db.lock _ s p t e in sym same
  one_call-Next (add_looks key value) p s t e =
      let (a, called, same) =
        bind_pure-returned (db.get key) (λ found. add_looked key value found.0) s p t e in
      subst (Next (add_looks key value)) same (add_looked-Next key value a.0)
  one_call-Next (add_puts key value) p s t e =
      let (a, called, same) = bind_pure-returned (db.put key value) _ s p t e in (_, sym same)
  one_call-Next (add_unlocks reply) p s t e =
      let (a, called, same) = bind_pure-returned db.unlock _ s p t e in (_, sym same)
  one_call-Next (set_puts key value) p s t e =
      let (a, called, same) = bind_pure-returned (db.put key value) _ s p t e in (_, sym same)
  one_call-Next (delete_looks key) p s t e =
      let (a, called, same) =
        bind_pure-returned (db.get key) (λ found. delete_looked key found.0) s p t e in
      subst (Next (delete_looks key)) same (delete_looked-Next key a.0)
  one_call-Next (delete_deletes key) p s t e =
      let (a, called, same) = bind_pure-returned (db.del key) _ s p t e in (_, sym same)
  one_call-Next (get_looks k keys ss) p s t e =
      let (a, called, same) = bind_pure-returned (db.get k) _ s p t e in
      subst (Next (get_looks k keys ss)) same (get_point-Next k keys ss _)
  one_call-Next refuses p s t e = cc (e)
  one_call-Next (ended reply) p s t e = (reply, cc (e))
