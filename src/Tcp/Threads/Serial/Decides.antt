-- ===== src/Tcp/Threads/Serial/Decides.antt =====
-- What one call of a handler of src/quitsies/tcp/request.cpp decides.
use quitsies.Prelude.{
  ℕ, false, ◌≡◌, refl, sym, subst, [], ◌∷◌, Option, none, some, Result, ok, err, ==_iff,
}
use quitsies.Text.{Bytes}
use quitsies.Db.Store.{Store}
use quitsies.Tcp.Memcached.Spec.{
  Map, Op, set_op, add_op, get_op, delete_op, deleted, not_found, apply, values_text, with_key,
  text, stored, not_stored, reply_to,
}
use quitsies.Tcp.Memcached.History.{Explains, Explains-append}
use quitsies.Tcp.Memcached.Keeps.{IsMap}
use quitsies.Tcp.Threads.{
  Point, add_locks, add_looks, add_puts, add_unlocks, set_puts, delete_looks, delete_deletes,
  get_looks, refuses, ended, one_call,
}
use quitsies.Tcp.Threads.Returned.{
  returned_locks, returned_looks, returned_puts, returned_sets, returned_unlocks, returned_hit,
  returned_missed, returned_deletes, returned_found, returned_got,
}
use quitsies.Tcp.Threads.Serial.Present.{IsPresent}
use quitsies.Tcp.Threads.Shared.{at}
use quitsies.Tcp.Threads.Serial.{Mode, adding, setting, Serial, decides, took}

-- A handler of `add` or `set` as the mode says, of a `get` of one key or, on the thread that may
-- delete, of `delete`, whose reply is this one once it is decided.
abbrev pub Decided : Mode → ℕ → ℕ → Point → Option Bytes → Type 0
Decided mode deleter i (add_locks key value) o = mode ≡ adding
Decided mode deleter i (add_looks key value) o = mode ≡ adding
Decided mode deleter i (add_puts key value) o = mode ≡ adding
Decided mode deleter i (add_unlocks reply) o = o ≡ some reply
Decided mode deleter i (get_looks key keys ss) o = (keys ≡ []) × (ss ≡ [])
Decided mode deleter i (ended reply) o = o ≡ some reply
Decided mode deleter i (delete_looks key) o = i ≡ deleter
Decided mode deleter i (delete_deletes key) o = i ≡ deleter
Decided mode deleter i (set_puts key value) o = mode ≡ setting
Decided mode deleter i _ o = ⊥

module _ {S : Type 0} (db : Store S) (view : S → Map) (law : IsMap db view) (mode : Mode)
    (deleter : ℕ) where
  -- The history explains the database, and the handler is as it says.
  abbrev pub Fits : Map → ℕ → Point → Serial → Result Point × S → Type 0
  Fits f i q g (ok p, t) =
      Explains f (took q p i g).history (view t)
      × Decided mode deleter i p ((took q p i g).decided i)
  Fits f i q g (err what, t) = ⊥

  -- The command takes effect over this map.
  decides-Explains :
      (f m : Map) (i : ℕ) (op : Op) (reply : Bytes) (g : Serial) (t : S)
      → Explains f g.history m
      → reply ∷ [] ≡ reply_to op (apply op m).1
      → (apply op m).0 ≡ view t
      → Explains f (decides i op reply g).history (view t)
  decides-Explains f m i op reply g t h replied viewed =
      subst (Explains f (decides i op reply g).history) viewed
        (Explains-append f m g.history i op (reply ∷ []) h replied)

  at_self : (o : Option Bytes) (i : ℕ) (g : Serial) → at g.decided i o i ≡ o
  at_self o i g = rw ((==_iff i i).1 refl) refl

  looks-Fits :
      (f : Map) (i : ℕ) (key value : Bytes) (s : S) (g : Serial) (o : Option Bytes)
      → view s key ≡ o
      → mode ≡ adding
      → Explains f g.history (view s)
      → Fits f i (add_looks key value) g (one_call db (add_looks key value) s)
  looks-Fits f i key value s g none there d h =
      let (t, e, same) = returned_looks db view law key value s there in
      subst (Fits f i (add_looks key value) g) (sym e)
        (subst (Explains f g.history) (sym same) h, d)
  looks-Fits f i key value s g (some old) there d h =
      let (t, e, same) = returned_found db view law key value old s there in
      subst (Fits f i (add_looks key value) g) (sym e) (
        decides-Explains f (view s) i (add_op key 0 0 false value) (text not_stored) g t h
            (rw there refl) (rw there (sym same)),
        at_self (some (text not_stored)) i g,
      )

  misses-Fits :
      (f : Map) (i : ℕ) (key : Bytes) (s : S) (g : Serial) (o : Option Bytes)
      → view s key ≡ o
      → i ≡ deleter
      → Explains f g.history (view s)
      → Fits f i (delete_looks key) g (one_call db (delete_looks key) s)
  misses-Fits f i key s g (some old) there d h =
      let (t, e, same) = returned_hit db view law key old s there in
      subst (Fits f i (delete_looks key) g) (sym e) (subst (Explains f g.history) (sym same) h, d)
  misses-Fits f i key s g none there d h =
      let (t, e, same) = returned_missed db view law key s there in
      subst (Fits f i (delete_looks key) g) (sym e) (
        decides-Explains f (view s) i (delete_op key false) (text not_found) g t h (rw there refl)
            (rw there (sym same)),
        at_self (some (text not_found)) i g,
      )

  gets-Fits :
      (f : Map) (i : ℕ) (key : Bytes) (s : S) (g : Serial)
      → Explains f g.history (view s)
      → Fits f i (get_looks key [] []) g (one_call db (get_looks key [] []) s)
  gets-Fits f i key s g h =
      let (t, e, same) = returned_got db view law key s in
      let reply = values_text (with_key key (view s key) []) in
      subst (Fits f i (get_looks key [] []) g) (sym e) (
        decides-Explains f (view s) i (get_op (key ∷ [])) reply g t h refl (sym same),
        at_self (some reply) i g,
      )

  -- What a call decides is what the specification says over the map that it meets, and it does not
  -- throw.
  pub one_call-Fits :
      (f : Map) (i : ℕ) (q : Point) (s : S) (g : Serial)
      → Decided mode deleter i q (g.decided i)
      → ((key value : Bytes) → q ≡ add_puts key value → view s key ≡ none)
      → ((key : Bytes) → q ≡ delete_deletes key → IsPresent (view s key))
      → Explains f g.history (view s)
      → Fits f i q g (one_call db q s)
  unfolding one_call
  one_call-Fits f i (add_locks key value) s g d absent present h =
      let (t, e, same) = returned_locks db view law key value s in
      subst (Fits f i (add_locks key value) g) (sym e)
        (subst (Explains f g.history) (sym same) h, d)
  one_call-Fits f i (add_looks key value) s g d absent present h =
      looks-Fits f i key value s g (view s key) refl d h
  one_call-Fits f i (add_puts key value) s g d absent present h =
      let (t, e, same) = returned_puts db view law key value s in
      let none_yet = absent key value refl in
      subst (Fits f i (add_puts key value) g) (sym e) (
        decides-Explains f (view s) i (add_op key 0 0 false value) (text stored) g t h
            (rw none_yet refl) (rw none_yet (sym same)),
        at_self (some (text stored)) i g,
      )
  one_call-Fits f i (add_unlocks reply) s g d absent present h =
      let (t, e, same) = returned_unlocks db view law reply s in
      subst (Fits f i (add_unlocks reply) g) (sym e) (subst (Explains f g.history) (sym same) h, d)
  one_call-Fits f i (get_looks key keys ss) s g (no_keys, no_text) absent present h =
      subst (λ q. Fits f i q g (one_call db q s))
        (λ j. get_looks key (sym no_keys j) (sym no_text j)) (gets-Fits f i key s g h)
  one_call-Fits f i (ended reply) s g d absent present h = (h, d)
  one_call-Fits f i (set_puts key value) s g d absent present h =
      let (t, e, same) = returned_sets db view law key value s in
      subst (Fits f i (set_puts key value) g) (sym e) (
        decides-Explains f (view s) i (set_op key 0 0 false value) (text stored) g t h refl
            (sym same),
        at_self (some (text stored)) i g,
      )
  one_call-Fits f i (delete_looks key) s g d absent present h =
      misses-Fits f i key s g (view s key) refl d h
  one_call-Fits f i (delete_deletes key) s g d absent present h =
      let (t, e, same) = returned_deletes db view law key s in
      let (old, there) = present key refl in
      subst (Fits f i (delete_deletes key) g) (sym e) (
        decides-Explains f (view s) i (delete_op key false) (text deleted) g t h (rw there refl)
            (rw there (sym same)),
        at_self (some (text deleted)) i g,
      )
  one_call-Fits f i refuses s g d absent present h = absurd d
