-- ===== src/Tcp/Request/Endings.antt =====
-- The replies of the handlers of `request::prepare_response` end a line.
use quitsies.Prelude.{
  ℕ, Bool, true, false, ◌≡◌, refl, List, [], ◌∷◌, ◌++◌, Option, none, some, Result, ok, err, M,
  ◌>>=◌, pure, Bool-cases, inl, inr, not, ◌&&◌, ◌==◌, if◌then◌else◌,
}
use quitsies.Text.{Bytes, codes, crlf}
use quitsies.Db.Store.{Status, Store}
use quitsies.Tcp.Request.Types.{CommandType, no_command, set, add, get, gets, delete, ping}
use quitsies.Tcp.Request.Response.{
  del_found, error_line, caught, put_reply, del_reply, with_value, delete_key, add_found, add_key,
  set_key, get_keys, unlocked, respond, answer,
}

-- The text ends with a carriage return and a line feed.
abbrev pub ends_crlf : Bytes → Bool
ends_crlf [] = false
ends_crlf (c ∷ []) = false
ends_crlf (c ∷ d ∷ []) = c == b'\r' && d == b'\n'
ends_crlf (c ∷ d ∷ e ∷ rest) = ends_crlf (d ∷ e ∷ rest)

ends_crlf-cons : (c : ℕ) (b : Bytes) → ends_crlf b ≡ true → ends_crlf (c ∷ b) ≡ true
ends_crlf-cons c [] h = cc
ends_crlf-cons c (d ∷ []) h = cc
ends_crlf-cons c (d ∷ e ∷ rest) h = h

pub ends_crlf-append : (a b : Bytes) → ends_crlf b ≡ true → ends_crlf (a ++ b) ≡ true
ends_crlf-append [] b h = h
ends_crlf-append (c ∷ a) b h = ends_crlf-cons c (a ++ b) (ends_crlf-append a b h)

error_line-ends_crlf : (what : Bytes) → ends_crlf (error_line what) ≡ true
error_line-ends_crlf what =
    ends_crlf-append (codes "ERROR ") (what ++ crlf) (ends_crlf-append what crlf refl)

put_reply-ends_crlf : (st : Status) → ends_crlf (put_reply st) ≡ true
put_reply-ends_crlf st = elim (Bool-cases st.is_ok) [
  | inl e ↦ rw e refl
  | inr e ↦ rw e (error_line-ends_crlf st.msg)
]

del_reply-ends_crlf : (st : Status) → ends_crlf (del_reply st) ≡ true
del_reply-ends_crlf st = elim (Bool-cases st.is_ok) [
  | inl e ↦ rw e refl
  | inr e ↦ rw e (error_line-ends_crlf st.msg)
]

-- Whatever the state, the handler writes a complete reply, or throws.
abbrev Ends : {S : Type 0} → M S Bytes → Type 0
Ends {S} m = (s : S) → ends_crlf (caught (m s).0) ≡ true

Ends-elim :
    {S A : Type 0} (r : Result A) (t : S) (f : A → M S Bytes)
    → ((a : A) → Ends (f a))
    → ends_crlf (caught (elim r as (λ _. Result Bytes × S) [ ok a ↦ f a t | err e ↦ (err e, t) ]).0)
      ≡ true
Ends-elim (ok a) t f h = h a t
Ends-elim (err e) t f h = error_line-ends_crlf e

Ends-bind : {S A : Type 0} (m : M S A) (f : A → M S Bytes) → ((a : A) → Ends (f a)) → Ends (m >>= f)
Ends-bind m f h s = Ends-elim (m s).0 (m s).1 f h

Ends-elim_reply :
    {S : Type 0} (r : Result Bytes) (t : S) (f : Bytes → M S Bytes)
    → ends_crlf (caught r) ≡ true
    → ((a : Bytes) → ends_crlf a ≡ true → Ends (f a))
    → ends_crlf (caught (elim r as (λ _. Result Bytes × S) [ ok a ↦ f a t | err e ↦ (err e, t) ]).0)
      ≡ true
Ends-elim_reply (ok a) t f e h = h a e t
Ends-elim_reply (err what) t f e h = error_line-ends_crlf what

module _ {S : Type 0} (db : Store S) where
  get_keys-Ends : (keys : List Bytes) (ss : Bytes) → Ends (get_keys db keys ss)
  unfolding get_keys
  get_keys-Ends [] ss = λ s. ends_crlf-append ss (codes "END\r\n") refl
  get_keys-Ends (key ∷ keys) ss =
      Ends-bind (db.get key) (λ found. get_keys db keys (with_value db ss key found))
        (λ found. get_keys-Ends keys _)

  set_key-Ends : (key value : Bytes) → Ends (set_key db key value)
  unfolding set_key
  set_key-Ends key value =
      Ends-bind (db.put key value) (λ st. pure (put_reply st)) (λ st s. put_reply-ends_crlf st)

  delete_key-Ends : (key : Bytes) → Ends (delete_key db key)
  unfolding delete_key
  delete_key-Ends key =
      Ends-bind (db.get key)
        (λ found. if not found.0.is_ok then pure (codes "NOT_FOUND\r\n") else del_found db key)
        λ found s. elim (Bool-cases found.0.is_ok) [
          | inl e ↦ rw e (
              Ends-bind (db.del key) (λ st. pure (del_reply st)) (λ st t. del_reply-ends_crlf st) s)
          | inr e ↦ rw e refl
        ]

  add_found-Ends :
      (key value : Bytes) (found : Status × Bytes) → Ends (add_found db key value found)
  unfolding add_found
  add_found-Ends key value found s = elim (Bool-cases found.0.is_ok) [
    | inl e ↦ rw e refl
    | inr e ↦ rw e (elim (Bool-cases found.0.is_not_found) [
      | inl n ↦ rw n (
          Ends-bind (db.put key value) (λ st. pure (put_reply st)) (λ st t. put_reply-ends_crlf st)
            s)
      | inr n ↦ rw n (error_line-ends_crlf found.0.msg)
    ])
  ]

  unlocked-Ends : (reply : Bytes) → ends_crlf reply ≡ true → Ends (unlocked db reply)
  unlocked-Ends reply h = Ends-bind db.unlock (λ _. pure reply) (λ _ s. h)

  -- `add` replies with what the inner steps say, or with the exception of one of the four calls.
  add_key-Ends : (key value : Bytes) → Ends (add_key db key value)
  unfolding add_key
  add_key-Ends key value =
      Ends-bind db.lock
        (λ _. db.get key >>= λ found. add_found db key value found >>= λ reply. unlocked db reply)
        λ _.
          Ends-bind (db.get key)
            (λ found. add_found db key value found >>= λ reply. unlocked db reply)
            λ found s.
              Ends-elim_reply (add_found db key value found s).0 (add_found db key value found s).1
                (unlocked db) (add_found-Ends key value found s) unlocked-Ends

  respond-Ends :
      (c : CommandType) (key : Bytes) (keys : List Bytes) (buffer : Bytes)
      → Ends (respond db c key keys buffer)
  unfolding respond
  respond-Ends delete key keys buffer = delete_key-Ends key
  respond-Ends add key keys buffer = add_key-Ends key buffer
  respond-Ends set key keys buffer = set_key-Ends key buffer
  respond-Ends get key keys buffer = get_keys-Ends (key ∷ keys) []
  respond-Ends gets key keys buffer = get_keys-Ends (key ∷ keys) []
  respond-Ends _ key keys buffer = λ s. refl

module _ {S : Type 0} where
  pub answer-ends_crlf :
      (db : Option (Store S)) (c : CommandType) (keys : List Bytes) (buffer : Bytes) (s : S)
      → ends_crlf (answer db c keys buffer s).0 ≡ true
  unfolding answer
  answer-ends_crlf none ping keys buffer s = refl
  answer-ends_crlf none _ keys buffer s = refl
  answer-ends_crlf (some db) ping keys buffer s = refl
  answer-ends_crlf (some db) no_command [] buffer s = refl
  answer-ends_crlf (some db) no_command (key ∷ keys) buffer s =
      respond-Ends db no_command key keys buffer s
  answer-ends_crlf (some db) _ [] buffer s = refl
  answer-ends_crlf (some db) c (key ∷ keys) buffer s = respond-Ends db c key keys buffer s
