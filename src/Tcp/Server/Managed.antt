-- ===== src/Tcp/Server/Managed.antt =====
-- The set of the manager, and the invariant of the server that its operations keep.
use quitsies.Prelude.{
  ℕ, suc, ◌<◌, Bool, true, false, ◌≡◌, refl, subst, sym, ap, ◌∙◌, List, [], ◌∷◌, if◌then◌else◌,
  arith, ◌==◌, Bool-cases, inl, inr, ==_iff,
}
use quitsies.Tcp.Request.Types.{CommandType}
use quitsies.Tcp.Connection.{Connection, Outcome, start, close, make_connection}
use quitsies.Tcp.Connection.Invariant.{Inv, close-Inv, start-make_connection-Inv}
use quitsies.Tcp.Request.Process.{to_size}
use quitsies.Tcp.Server.{
  Server, to_int32, contains, insert, erase, put, manager_start, manager_stop, on_accept, on_signal,
  settle_outcome,
}

pub ==_refl : (k : ℕ) → (k == k) ≡ true
==_refl k = (==_iff k k).1 refl

pub contains-insert :
    (k j : ℕ) (js : List ℕ) → contains (insert k js) j ≡ (if k == j then true else contains js j)
unfolding insert contains
contains-insert k j js = elim (Bool-cases (contains js k)) [
  | inl e ↦
      rw (e, insert)
        (elim (Bool-cases (k == j)) [
          | inl same ↦ rw same (subst (λ i. contains js i ≡ true) ((==_iff k j).0 same) e)
          | inr other ↦ rw other
        ])
  | inr e ↦ rw (e, insert)
]

pub contains-erase :
    (k j : ℕ) (js : List ℕ) → contains (erase k js) j ≡ (if k == j then false else contains js j)
unfolding erase contains
contains-erase k j [] = ground arith
contains-erase k j (i ∷ js) = ground (arith, contains-erase k j js)

pub put_self {ℓ} :
    {A : Type ℓ} (conns : ℕ → A) (k j : ℕ) (c : A) → (k == j) ≡ true → put conns k c j ≡ c
unfolding put
put_self conns k j c e = ground arith

pub put_other {ℓ} :
    {A : Type ℓ} (conns : ℕ → A) (k j : ℕ) (c : A) → (k == j) ≡ false → put conns k c j ≡ conns j
unfolding put
put_other conns k j c e = ground arith

-- Every connection that was made keeps its own invariant, and is open exactly while the manager
-- has it; and a server that no longer accepts has none.
pub record Sound (srv : Server) : Type 0 where
  pub live : (k : ℕ) → k < srv.next_id → Inv (srv.conns k)
  pub tracked : (k : ℕ) → k < srv.next_id → contains srv.managed k ≡ (srv.conns k).is_open
  pub born : (k : ℕ) → contains srv.managed k ≡ true → k < srv.next_id
  pub drained : srv.accepting ≡ false → srv.managed ≡ []

-- One connection changes, and the set with it.
change-Sound :
    (srv : Server) (k : ℕ) (c : Connection) (js : List ℕ)
    → Sound srv
    → k < srv.next_id
    → Inv c
    → contains js k ≡ c.is_open
    → ((j : ℕ) → (k == j) ≡ false → contains js j ≡ contains srv.managed j)
    → (srv.accepting ≡ false → js ≡ [])
    → Sound (record srv { managed = js; conns = put srv.conns k c })
change-Sound srv k c js s h v o others d = record {
  live = λ j hj. elim (Bool-cases (k == j)) [
    | inl e ↦ rw (put_self srv.conns k j c e) v
    | inr e ↦ rw (put_other srv.conns k j c e) (s.live j hj)
  ];
  tracked = λ j hj. elim (Bool-cases (k == j)) [
    | inl e ↦
        rw (put_self srv.conns k j c e)
          (subst (λ i. contains js i ≡ c.is_open) ((==_iff k j).0 e) o)
    | inr e ↦ rw (put_other srv.conns k j c e) (others j e ∙ s.tracked j hj)
  ];
  born = λ j hj. elim (Bool-cases (k == j)) [
    | inl e ↦ subst (λ i. i < srv.next_id) ((==_iff k j).0 e) h
    | inr e ↦ s.born j (sym (others j e) ∙ hj)
  ];
  drained = d;
}

pub manager_stop-Sound :
    (srv : Server) (k : ℕ) → Sound srv → k < srv.next_id → Sound (manager_stop k srv)
unfolding manager_stop
manager_stop-Sound srv k s h =
    change-Sound srv k (close (srv.conns k)) (erase k srv.managed) s h
      (close-Inv (srv.conns k) (s.live k h)) (contains-erase k k srv.managed ∙ rw (==_refl k))
      (λ j e. contains-erase k j srv.managed ∙ rw e) (λ a. ap (erase k) (s.drained a))

pub settle_outcome-Sound :
    (srv : Server) (k : ℕ) (o : Outcome)
    → Sound srv
    → k < srv.next_id
    → Inv o.after
    → o.after.is_open ≡ (srv.conns k).is_open
    → Sound (settle_outcome k o srv)
unfolding settle_outcome
settle_outcome-Sound srv k o s h v same =
    let kept = record srv { conns = put srv.conns k o.after } in
    let sound =
      change-Sound srv k o.after srv.managed s h v (s.tracked k h ∙ sym same) (λ j e. refl)
        s.drained in
    elim (Bool-cases o.stops) [
      | inl e ↦ rw e (manager_stop-Sound kept k sound h)
      | inr e ↦ rw e sound
    ]

-- One connection is new.
grow-Sound :
    (srv : Server) (conns : ℕ → Connection) (c : Connection)
    → Sound srv
    → srv.accepting ≡ true
    → Inv c
    → c.is_open ≡ true
    → ((j : ℕ) → (srv.next_id == j) ≡ true → conns j ≡ c)
    → ((j : ℕ) → (srv.next_id == j) ≡ false → conns j ≡ srv.conns j)
    → Sound (record srv {
      managed = insert srv.next_id srv.managed;
      conns = conns;
      next_id = suc srv.next_id;
    })
grow-Sound srv conns c s a v o here there = record {
  live = λ j hj. elim (Bool-cases (srv.next_id == j)) [
    | inl e ↦ rw (here j e) v
    | inr e ↦ rw (there j e) (s.live j (ground arith))
  ];
  tracked = λ j hj. elim (Bool-cases (srv.next_id == j)) [
    | inl e ↦ rw (here j e, contains-insert srv.next_id j srv.managed, e) (sym o)
    | inr e ↦
        rw (there j e, contains-insert srv.next_id j srv.managed, e) (s.tracked j (ground arith))
  ];
  born = λ j hj. elim (Bool-cases (srv.next_id == j)) [
    | inl e ↦ ground arith
    | inr e ↦ le_suc (
        s.born j (
          subst (λ b. (if b then true else contains srv.managed j) ≡ true) e
            (sym (contains-insert srv.next_id j srv.managed) ∙ hj)))
  ];
  drained = λ d. cc;
}
  where
    le_suc : {i n : ℕ} → i < n → i < suc n
    le_suc h = omega arith

start-is_open : (c : Connection) → (start c).is_open ≡ c.is_open
unfolding start
start-is_open c = ground arith

accepted-Sound :
    (junk : CommandType) (srv : Server) (c : Connection)
    → Sound srv
    → srv.accepting ≡ true
    → Inv (start c)
    → c.is_open ≡ true
    → Sound (
        manager_start srv.next_id
          (record srv { conns = put srv.conns srv.next_id c; next_id = suc srv.next_id }))
unfolding manager_start
accepted-Sound junk srv c s a v o =
    let k = srv.next_id in
    let made = put srv.conns k c in
    grow-Sound srv (put made k (start (made k))) (start c) s a v (start-is_open c ∙ o)
      (λ j e.
        put_self made k j (start (made k)) e ∙ ap start (put_self srv.conns k k c (==_refl k)))
      (λ j e. put_other made k j (start (made k)) e ∙ put_other srv.conns k j c e)

accept-Sound :
    (b : Bool) (junk : CommandType) (srv : Server) (c : Connection)
    → srv.accepting ≡ b
    → Sound srv
    → Inv (start c)
    → c.is_open ≡ true
    → Sound (elim b as (λ _. Server) [
      | true ↦
          manager_start srv.next_id
            (record srv { conns = put srv.conns srv.next_id c; next_id = suc srv.next_id })
      | false ↦ srv
    ])
accept-Sound true junk srv c e s v o = accepted-Sound junk srv c s e v o
accept-Sound false junk srv c e s v o = s

pub on_accept-Sound : (junk : CommandType) (srv : Server) → Sound srv → Sound (on_accept junk srv)
unfolding on_accept
on_accept-Sound junk srv s =
    let limit = to_size srv.read_timeout in
    let timeout = to_int32 srv.req_max_bytes in
    accept-Sound srv.accepting junk srv
      (make_connection junk srv.now limit srv.write_timeout timeout) refl s
      (start-make_connection-Inv junk srv.now limit srv.write_timeout timeout) refl

signal-managed : (c : Connection) (b : Bool) → Inv c → Inv (if b then close c else c)
signal-managed c true v = close-Inv c v
signal-managed c false v = v

signal-is_open :
    (c : Connection) (b : Bool) → b ≡ c.is_open → false ≡ (if b then close c else c).is_open
signal-is_open c true e = refl
signal-is_open c false e = e

pub on_signal-Sound : (srv : Server) → Sound srv → Sound (on_signal srv)
unfolding on_signal
on_signal-Sound srv s = record {
  live = λ j hj. signal-managed (srv.conns j) (contains srv.managed j) (s.live j hj);
  tracked = λ j hj. signal-is_open (srv.conns j) (contains srv.managed j) (s.tracked j hj);
  born = λ j hj. cc (hj);
  drained = λ d. refl;
}
