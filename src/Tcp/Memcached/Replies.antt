-- ===== src/Tcp/Memcached/Replies.antt =====
-- The handlers of `request::prepare_response` over a database that is a map.
use quitsies.Prelude.{
  ◌≡◌, refl, ap, ◌∙◌, sym, subst, List, [], ◌∷◌, ◌++◌, Option, none, some, Result, ok, append_assoc,
  M, ◌>>=◌, pure, bind-ok, not, if◌then◌else◌,
}
use quitsies.Text.{Bytes, codes}
use quitsies.Db.Store.{Status, Store}
use quitsies.Tcp.Request.Response.{
  value_block, caught, delete_key, del_found, del_reply, put_reply, add_key, add_found, unlocked,
  set_key, get_keys, with_value,
}
use quitsies.Tcp.Memcached.Spec.{
  Map, update, Reply, stored, values, values_text, text, with_key, select, add_to, delete_from,
}
use quitsies.Tcp.Memcached.Keeps.{Answers, IsMap}

value_block-append :
    (key value : Bytes) (vs : List (Bytes × Bytes))
    → value_block key value ++ values_text vs ≡ values_text ((key, value) ∷ vs)
unfolding value_block
value_block-append key value vs = simp append_assoc

module _ {S : Type 0} (db : Store S) (view : S → Map) (law : IsMap db view) where
  -- A handler's result and database agree with a reply and a map.
  pub record Agrees (run : Result Bytes × S) (spec : Map × Reply) : Type 0 where
    pub replied : caught run.0 ≡ text spec.1
    pub viewed : view run.1 ≡ spec.0

  -- What a handler does behind a call that returned.
  behind :
      {A : Type 0} (m : M S A) (f : A → M S Bytes) (s : S) {a : A} {t : S} (spec : Map × Reply)
      → m s ≡ (ok a, t)
      → Agrees (f a t) spec
      → Agrees ((m >>= f) s) spec
  behind m f s spec e = subst (λ r. Agrees r spec) (sym (bind-ok m f s e))

  put-Agrees :
      (key value : Bytes) (s : S)
      → Agrees
          ((db.put key value >>= λ st. pure (put_reply st)) s)
          (update key (some value) (view s), stored)
  put-Agrees key value s =
      let (st, t, e, fine, v) = law.puts key value s in
      behind (db.put key value) (λ st. pure (put_reply st)) s _ e
        (record { replied = rw fine refl; viewed = v })

  pub set_key-Agrees :
      (key value : Bytes) (s : S)
      → Agrees (set_key db key value s) (update key (some value) (view s), stored)
  unfolding set_key
  set_key-Agrees key value s = put-Agrees key value s

  unlocked-Agrees :
      (reply : Bytes) (s : S) (spec : Map × Reply)
      → reply ≡ text spec.1
      → view s ≡ spec.0
      → Agrees (unlocked db reply s) spec
  unlocked-Agrees reply s spec h v =
      let (t, e, same) = law.unlocks s in
      behind db.unlock (λ _. pure reply) s spec e (record { replied = h; viewed = same ∙ v })

  add_missing :
      (key value : Bytes) (found : Status × Bytes)
      → Answers none found
      → add_found db key value found ≡ (db.put key value >>= λ st. pure (put_reply st))
  unfolding add_found
  add_missing key value found (missed, not_found) = rw (missed, not_found) refl

  add_present :
      (key value old : Bytes) (found : Status × Bytes)
      → Answers (some old) found
      → add_found db key value found ≡ pure (codes "NOT_STORED\r\n")
  unfolding add_found
  add_present key value old found (hit, same) = rw hit refl

  add_found-Agrees :
      (key value : Bytes) (old : Option Bytes) (found : Status × Bytes) (s : S) (f : Map)
      → Answers old found
      → view s ≡ f
      → Agrees ((add_found db key value found >>= unlocked db) s) (add_to key value f old)
  add_found-Agrees key value none found s f a v =
      let (st, t, e, fine, put) = law.puts key value s in
      let reply = λ (st : Status). pure (put_reply st) in
      subst (λ m. Agrees ((m >>= unlocked db) s) (add_to key value f none))
        (sym (add_missing key value found a))
        (behind (db.put key value >>= reply) (unlocked db) s _
          (bind-ok (db.put key value) reply s e)
          (unlocked-Agrees (put_reply st) t _ (rw fine refl)
            (put ∙ ap (update key (some value)) v)))
  add_found-Agrees key value (some old) found s f a v =
      subst (λ m. Agrees ((m >>= unlocked db) s) (add_to key value f (some old)))
        (sym (add_present key value old found a))
        (unlocked-Agrees (codes "NOT_STORED\r\n") s _ refl v)

  pub add_key-Agrees :
      (key value : Bytes) (s : S)
      → Agrees (add_key db key value s) (add_to key value (view s) (view s key))
  unfolding add_key
  add_key-Agrees key value s =
      let rest = λ (found : Status × Bytes). add_found db key value found >>= unlocked db in
      let (t, e, same) = law.locks s in
      let (found, u, g, a, v) = law.gets key t in
      behind db.lock (λ _. db.get key >>= rest) s _ e
        (behind (db.get key) rest t _ g (
          add_found-Agrees key value (view s key) found u (view s)
            (subst (λ f. Answers (f key) found) same a) (v ∙ same)))

  found-Agrees :
      (key : Bytes) (old : Option Bytes) (found : Status × Bytes) (s : S) (f : Map)
      → Answers old found
      → view s ≡ f
      → Agrees
          ((if not found.0.is_ok then pure (codes "NOT_FOUND\r\n") else del_found db key) s)
          (delete_from key f old)
  found-Agrees key none found s f (missed, not_found) v =
      rw missed (record { replied = refl; viewed = v })
  found-Agrees key (some old) found s f (hit, same) v =
      let (st, t, e, fine, gone) = law.dels key s in
      rw hit (
        behind (db.del key) (λ st. pure (del_reply st)) s _ e
          (record { replied = rw fine refl; viewed = gone ∙ ap (update key none) v }))

  pub delete_key-Agrees :
      (key : Bytes) (s : S) → Agrees (delete_key db key s) (delete_from key (view s) (view s key))
  unfolding delete_key
  delete_key-Agrees key s =
      let (found, t, g, a, v) = law.gets key s in
      behind (db.get key)
        (λ found. if not found.0.is_ok then pure (codes "NOT_FOUND\r\n") else del_found db key) s _
        g (found-Agrees key (view s key) found t (view s) a v)

  pub with_value-text :
      (ss key : Bytes) (o : Option Bytes) (found : Status × Bytes) (vs : List (Bytes × Bytes))
      → Answers o found
      → with_value db ss key found ++ values_text vs ≡ ss ++ values_text (with_key key o vs)
  with_value-text ss key none found vs (missed, not_found) = rw missed refl
  with_value-text ss key (some value) found vs (hit, same) =
      rw (hit, same)
        (append_assoc ss (value_block key value) (values_text vs)
          ∙ ap (λ t. ss ++ t) (value_block-append key value vs))

  get_keys-Agrees_from :
      (keys : List Bytes) (ss : Bytes) (s : S)
      → (t : S) × (get_keys db keys ss s ≡ (ok (ss ++ values_text (select (view s) keys)), t))
        × (view t ≡ view s)
  unfolding get_keys
  get_keys-Agrees_from [] ss s = (s, refl, refl)
  get_keys-Agrees_from (key ∷ keys) ss s =
      let (found, t, g, a, v) = law.gets key s in
      let (u, r, w) = get_keys-Agrees_from keys (with_value db ss key found) t in
      (
        u,
        bind-ok (db.get key) (λ found. get_keys db keys (with_value db ss key found)) s g
            ∙ r
            ∙ ap (λ f. (ok (with_value db ss key found ++ values_text (select f keys)), u)) v
            ∙ ap (λ b. (ok b, u))
                (with_value-text ss key (view s key) found (select (view s) keys) a),
        w ∙ v,
      )

  pub get_keys-Agrees :
      (keys : List Bytes) (s : S)
      → Agrees (get_keys db keys [] s) (view s, values (select (view s) keys))
  get_keys-Agrees keys s =
      let (t, e, v) = get_keys-Agrees_from keys [] s in
      subst (λ r. Agrees r (view s, values (select (view s) keys))) (sym e)
        (record { replied = refl; viewed = v })
