-- ===== src/Tcp/Server/Clients/Holding.antt =====
-- What the connections of a server hold of their clients' commands, and that the handlers of
-- src/quitsies/tcp/server.cpp keep it.
use quitsies.Prelude.{
  ℕ, suc, ◌<◌, Bool, true, false, ◌≡◌, refl, sym, subst, [], arith, ◌==◌, Bool-cases, inl, inr,
  ==_iff,
}
use quitsies.Prelude.Int.{pos}
use quitsies.Text.{Bytes}
use quitsies.Tcp.Request.Types.{CommandType}
use quitsies.Tcp.Request.Process.{to_size}
use quitsies.Tcp.Connection.{Connection, Outcome, make_connection, start, close}
use quitsies.Tcp.Connection.Holding.{Holds, close-Holds, start-Holds}
use quitsies.Tcp.Server.{
  Server, contains, put, to_int32, manager_start, manager_stop, on_accept, on_signal,
  settle_outcome,
}
use quitsies.Tcp.Server.Managed.{==_refl, put_self, put_other}

-- Every connection that was accepted holds what its client sent of its command.
pub record Holding (srv : Server) (held : ℕ → Bytes) : Type 0 where
  pub unlimited : srv.read_timeout ≡ pos 0
  pub holds : (k : ℕ) → k < srv.next_id → Holds (held k) (srv.conns k)

abbrev AllHold : ℕ → (ℕ → Bytes) → (ℕ → Connection) → Type 0
AllHold n held conns = (j : ℕ) → j < n → Holds (held j) (conns j)

-- Only the client with number `k` has sent something.
abbrev pub SameBut : ℕ → (ℕ → Bytes) → (ℕ → Bytes) → Type 0
SameBut k held after = (j : ℕ) → (k == j) ≡ false → after j ≡ held j

change-AllHold :
    (n : ℕ) (conns : ℕ → Connection) (held after : ℕ → Bytes) (k : ℕ) (c : Connection)
    → AllHold n held conns
    → SameBut k held after
    → Holds (after k) c
    → AllHold n after (put conns k c)
change-AllHold n conns held after k c h same here j b = elim (Bool-cases (k == j)) [
  | inl e ↦ rw (put_self conns k j c e) (subst (λ i. Holds (after i) c) ((==_iff k j).0 e) here)
  | inr e ↦ rw (put_other conns k j c e, same j e) (h j b)
]

pub settle_outcome-Holding :
    (srv : Server) (held after : ℕ → Bytes) (k : ℕ) (o : Outcome)
    → Holding srv held
    → SameBut k held after
    → Holds (after k) o.after
    → Holding (settle_outcome k o srv) after
unfolding settle_outcome manager_stop
settle_outcome-Holding srv held after k o h same here =
    let kept = put srv.conns k o.after in
    let all = change-AllHold srv.next_id srv.conns held after k o.after h.holds same here in
    let at_k = subst (Holds (after k)) (sym (put_self srv.conns k k o.after (==_refl k))) here in
    elim (Bool-cases o.stops) [
      | inl e ↦ rw e record {
        unlimited = h.unlimited;
        holds =
            change-AllHold srv.next_id kept after after k (close (kept k)) all (λ j f. refl)
              (close-Holds (after k) (kept k) at_k);
      }
      | inr e ↦ rw e record { unlimited = h.unlimited; holds = all }
    ]

-- One client sent something.
pub sends-Holding :
    (srv : Server) (held : ℕ → Bytes) (k : ℕ) (a : Bytes) (o : Outcome)
    → Holding srv held
    → Holds a o.after
    → Holding (settle_outcome k o srv) (put held k a)
sends-Holding srv held k a o h here =
    settle_outcome-Holding srv held (put held k a) k o h (λ j e. put_other held k j a e)
      (subst (λ x. Holds x o.after) (sym (put_self held k k a (==_refl k))) here)

pub on_signal-Holding :
    (srv : Server) (held : ℕ → Bytes) → Holding srv held → Holding (on_signal srv) held
unfolding on_signal
on_signal-Holding srv held h = record {
  unlimited = h.unlimited;
  holds = λ j b. elim (Bool-cases (contains srv.managed j)) [
    | inl e ↦ rw e (close-Holds (held j) (srv.conns j) (h.holds j b))
    | inr e ↦ rw e (h.holds j b)
  ];
}

grown-AllHold :
    (n : ℕ) (conns : ℕ → Connection) (held : ℕ → Bytes) (c : Connection)
    → AllHold n held conns
    → Holds [] (start c)
    → let made = put conns n c in AllHold (suc n) (put held n []) (put made n (start (made n)))
grown-AllHold n conns held c h here j b =
    let made = put conns n c in
    elim (Bool-cases (n == j)) [
      | inl e ↦
          rw
            (
              put_self held n j [] e,
              put_self made n j (start (made n)) e,
              put_self conns n n c (==_refl n),
            )
            here
      | inr e ↦
          rw
            (
              put_other held n j [] e,
              put_other made n j (start (made n)) e,
              put_other conns n j c e,
            )
            (h j (ground arith))
    ]

forget-AllHold :
    (n : ℕ) (conns : ℕ → Connection) (held : ℕ → Bytes)
    → AllHold n held conns
    → AllHold n (put held n []) conns
forget-AllHold n conns held h j b = rw (put_other held n j [] (above n j b)) (h j b)
  where
    above : (n j : ℕ) → j < n → (n == j) ≡ false
    above n j b = ground arith

accept-Holding :
    (b : Bool) (srv : Server) (held : ℕ → Bytes) (c : Connection)
    → Holding srv held
    → Holds [] (start c)
    → Holding
        (elim b as (λ _. Server) [
          | true ↦
              manager_start srv.next_id
                (record srv { conns = put srv.conns srv.next_id c; next_id = suc srv.next_id })
          | false ↦ srv
        ])
        (put held srv.next_id [])
unfolding manager_start
accept-Holding true srv held c h here = record {
  unlimited = h.unlimited;
  holds = grown-AllHold srv.next_id srv.conns held c h.holds here;
}
accept-Holding false srv held c h here = record {
  unlimited = h.unlimited;
  holds = forget-AllHold srv.next_id srv.conns held h.holds;
}

pub on_accept-Holding :
    (junk : CommandType) (srv : Server) (held : ℕ → Bytes)
    → Holding srv held
    → Holding (on_accept junk srv) (put held srv.next_id [])
unfolding on_accept
on_accept-Holding junk srv held h =
    accept-Holding srv.accepting srv held
      (make_connection junk srv.now (to_size srv.read_timeout) srv.write_timeout
        (to_int32 srv.req_max_bytes))
      h
      (subst
        (λ t. Holds [] (
          start (
            make_connection junk srv.now (to_size t) srv.write_timeout
              (to_int32 srv.req_max_bytes))))
        (sym h.unlimited) (start-Holds junk srv.now srv.write_timeout (to_int32 srv.req_max_bytes)))
