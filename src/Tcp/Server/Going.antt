-- ===== src/Tcp/Server/Going.antt =====
-- What the handlers leave outstanding: src/quitsies/tcp/server.cpp over connection.cpp. A
-- connection that is open goes on with a read or a write.
use quitsies.Prelude.{
  ℕ, suc, ◌<◌, ◌==◌, Bool, true, false, ◌≡◌, refl, sym, subst, ◌∙◌, ◌⊎◌, inl, inr, some, List,
  Result, ok, err, if◌then◌else◌, arith, Bool-cases,
}
use quitsies.Text.{Bytes}
use quitsies.Tcp.Request.Types.{StatusType, finished, CommandType}
use quitsies.Tcp.Connection.{
  Connection, ErrorCode, success, aborted, failure, Outcome, start, close, on_finished, on_status,
  on_write, on_read_timer, on_write_timer,
}
use quitsies.Tcp.Server.{
  Server, contains, make_server, put, manager_start, manager_stop, on_accept, on_signal,
  settle_outcome,
}
use quitsies.Tcp.Server.Managed.{put_self, put_other}

-- A read or a write is outstanding.
abbrev pub Works : Connection → Type 0
Works c = (0 < c.reads) ⊎ ((text : Bytes) × (c.writing ≡ some text))

abbrev pub Goes : Connection → Type 0
Goes c = (c.is_open ≡ false) ⊎ Works c

-- The handler returned, and asks for a stop or leaves something outstanding.
abbrev pub Continues : Result Outcome → Type 0
Continues (ok o) = (o.stops ≡ true) ⊎ Works o.after
Continues (err what) = Unit {0}

abbrev pub Proceeds : Result Outcome → Type 0
Proceeds (ok o) = (o.stops ≡ true) ⊎ Goes o.after
Proceeds (err what) = Unit {0}

pub Continues-Proceeds : (r : Result Outcome) → Continues r → Proceeds r
Continues-Proceeds (ok o) (inl stops) = inl stops
Continues-Proceeds (ok o) (inr works) = inr (inr works)
Continues-Proceeds (err what) h = tt

start-Works : (c : Connection) → Works (start c)
unfolding start
start-Works c = inl (ground arith)

on_finished-Continues : (c : Connection) → Continues (on_finished c)
unfolding on_finished start
on_finished-Continues c = ground arith

pub on_status-Continues : (st : StatusType) (c : Connection) → Continues (on_status st c)
unfolding on_status
on_status-Continues finished c = on_finished-Continues c
on_status-Continues _ c = ground arith

pub on_write-Continues :
    (ec : ErrorCode) (c : Connection)
    → (ec ≡ aborted → c.is_open ≡ false)
    → ((on_write ec c).stops ≡ true) ⊎ Goes (on_write ec c).after
unfolding on_write
on_write-Continues success c h = inr (inr (start-Works _))
on_write-Continues aborted c h = inr (inl (h refl))
on_write-Continues failure c h = inl refl

pub on_read_timer-stops : (c : Connection) → (on_read_timer success c).stops ≡ true
unfolding on_read_timer
on_read_timer-stops c = refl

pub on_write_timer-stops : (c : Connection) → (on_write_timer success c).stops ≡ true
unfolding on_write_timer
on_write_timer-stops c = refl

abbrev pub AllGo : Server → Type 0
AllGo srv = (k : ℕ) → k < srv.next_id → Goes (srv.conns k)

AllGo-put :
    (srv : Server) (k : ℕ) (c : Connection) (js : List ℕ)
    → Goes c
    → AllGo srv
    → AllGo (record srv { managed = js; conns = put srv.conns k c })
AllGo-put srv k c js g all j h = elim (Bool-cases (k == j)) [
  | inl same ↦ subst Goes (sym (put_self srv.conns k j c same)) g
  | inr other ↦ subst Goes (sym (put_other srv.conns k j c other)) (all j h)
]

pub settle_outcome-AllGo :
    (srv : Server) (k : ℕ) (o : Outcome)
    → (o.stops ≡ true) ⊎ Goes o.after
    → AllGo srv
    → AllGo (settle_outcome k o srv)
unfolding settle_outcome manager_stop
settle_outcome-AllGo srv k o h all =
    let kept = put srv.conns k o.after in
    elim (Bool-cases o.stops) [
      | inl stops ↦ rw stops (λ j b. elim (Bool-cases (k == j)) [
        | inl same ↦ subst Goes (sym (put_self kept k j (close (kept k)) same)) (inl refl)
        | inr other ↦
            subst Goes
              (sym
                (put_other kept k j (close (kept k)) other ∙ put_other srv.conns k j o.after other))
              (all j b)
      ])
      | inr stays ↦ rw stays (AllGo-put srv k o.after srv.managed (goes h stays) all)
    ]
  where
    goes : (o.stops ≡ true) ⊎ Goes o.after → o.stops ≡ false → Goes o.after
    goes (inl stops) stays = cc (stops, stays)
    goes (inr g) stays = g

-- A connection that was accepted is started.
pub accept-AllGo :
    (b : Bool) (srv : Server) (c : Connection)
    → AllGo srv
    → AllGo (elim b as (λ _. Server) [
      | true ↦
          manager_start srv.next_id
            (record srv { conns = put srv.conns srv.next_id c; next_id = suc srv.next_id })
      | false ↦ srv
    ])
unfolding manager_start
accept-AllGo false srv c all = all
accept-AllGo true srv c all = λ j h.
    let k = srv.next_id in
    let made = put srv.conns k c in
    elim (Bool-cases (k == j)) [
      | inl same ↦
          subst Goes (sym (put_self made k j (start (made k)) same)) (inr (start-Works (made k)))
      | inr other ↦
          subst Goes
            (sym (put_other made k j (start (made k)) other ∙ put_other srv.conns k j c other))
            (all j (ground arith))
    ]

pub on_accept-AllGo : (junk : CommandType) (srv : Server) → AllGo srv → AllGo (on_accept junk srv)
unfolding on_accept
on_accept-AllGo junk srv all = accept-AllGo srv.accepting srv _ all

close_or_not : (c : Connection) (b : Bool) → Goes c → Goes (if b then close c else c)
close_or_not c true g = inl refl
close_or_not c false g = g

pub on_signal-AllGo : (srv : Server) → AllGo srv → AllGo (on_signal srv)
unfolding on_signal
on_signal-AllGo srv all j h = close_or_not (srv.conns j) (contains srv.managed j) (all j h)

pub make_server-AllGo : (unborn : ℕ → Connection) (began : ℕ) → AllGo (make_server unborn began)
unfolding make_server
make_server-AllGo unborn began k h = absurd (omega arith)
