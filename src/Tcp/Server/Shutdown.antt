-- ===== src/Tcp/Server/Shutdown.antt =====
-- Behind a signal the handlers of src/quitsies/tcp/server.cpp and connection.cpp come to an end, and
-- `server::run` returns.
use quitsies.Prelude.{
  ℕ, zero, suc, ◌+◌, ◌-◌, ◌*◌, ◌≤◌, ◌<◌, List, ◌==◌, Bool-cases, Bool, true, false, ◌||◌, ◌≡◌, refl,
  sym, ap, subst, ◌∙◌, ◌⊎◌, inl, inr, Option, none, some, ok, arith, ==_iff,
}
use quitsies.Prelude.{[], if◌then◌else◌}
use quitsies.Text.{Bytes}
use quitsies.Db.Store.{Store}
use quitsies.Tcp.Request.Types.{CommandType, no_command}
use quitsies.Tcp.Connection.{
  ErrorCode, Connection, success, aborted, failure, Outcome, close, on_read,
}
use quitsies.Tcp.Server.{
  Server, erase, put, make_server, contains, settle_outcome, on_signal, on_accept, manager_stop,
  manager_stop_all,
}
use quitsies.Tcp.Connection.Opening.{
  IsOpenAs, on_read-IsOpenAs, on_write-is_open, on_read_timer-is_open, on_write_timer-is_open,
}
use quitsies.Tcp.Server.Managed.{Sound, put_self, put_other, on_signal-Sound}
use quitsies.Tcp.Server.Step.{Reach, Reach-Sound}
use quitsies.Tcp.Server.Run.{
  IoService, ops, writes_of, connection_ops, outstanding, complete_accept, complete_signal,
  run_returns,
}
use quitsies.Tcp.Server.Drain.{
  total-same, total-find, OpsAtMost, on_read-ops, on_read_failed-ops, on_write-ops,
  on_write_failed-ops, on_read_timer-ops, on_write_timer-ops, settle_outcome-ops,
}
use quitsies.Tcp.Server.Ending.{
  Ending, AllShut, read_served, write_served, Closed, measure, settled, EndStep, accept_ended,
  read_ended, read_queued, write_ended, write_queued, read_timed_out, write_timed_out, Ends, now,
  then_handler,
}

zero_or_positive : (n : ℕ) → (n ≡ 0) ⊎ (0 < n)
zero_or_positive zero = inl refl
zero_or_positive (suc n) = inr (omega arith)

or_true : (a : Bool) {b : Bool} → b ≡ true → (a || b) ≡ true
or_true true e = refl
or_true false e = e

on_signal-ops : (srv : Server) → connection_ops (on_signal srv) ≡ connection_ops srv
unfolding on_signal manager_stop_all
on_signal-ops srv =
    total-same (λ j. ops (srv.conns j)) (λ j. ops ((on_signal srv).conns j)) srv.next_id
      (λ j h. close_or_not (srv.conns j) (contains srv.managed j))
  where
    close_or_not : (c : Connection) (b : Bool) → ops (if b then close c else c) ≡ ops c
    close_or_not c true = refl
    close_or_not c false = refl

settle_outcome-accepting :
    (k : ℕ) (o : Outcome) (srv : Server) → (settle_outcome k o srv).accepting ≡ srv.accepting
unfolding settle_outcome manager_stop
settle_outcome-accepting k o srv = ground arith

AllShut-put :
    (srv : Server) (k : ℕ) (c : Connection) (js : List ℕ)
    → c.is_open ≡ false
    → AllShut srv
    → AllShut (record srv { managed = js; conns = put srv.conns k c })
AllShut-put srv k c js e shut j h = elim (Bool-cases (k == j)) [
  | inl same ↦ ap (λ d. d.is_open) (put_self srv.conns k j c same) ∙ e
  | inr other ↦ ap (λ d. d.is_open) (put_other srv.conns k j c other) ∙ shut j h
]

-- The end of a handler opens no connection.
settle_outcome-AllShut :
    (k : ℕ) (o : Outcome) (srv : Server)
    → o.after.is_open ≡ false
    → AllShut srv
    → AllShut (settle_outcome k o srv)
unfolding settle_outcome manager_stop
settle_outcome-AllShut k o srv e shut =
    let kept = record srv { conns = put srv.conns k o.after } in
    let still = AllShut-put srv k o.after srv.managed e shut in
    elim (Bool-cases o.stops) [
      | inl stops ↦
          rw stops (AllShut-put kept k (close (kept.conns k)) (erase k srv.managed) refl still)
      | inr stays ↦ rw stays still
    ]

-- A signal closes every connection.
Sound-AllShut : (srv : Server) → Sound srv → srv.accepting ≡ false → AllShut srv
unfolding contains
Sound-AllShut srv s a k h = sym (s.tracked k h) ∙ ap (λ js. contains js k) (s.drained a)

on_signal-AllShut : (srv : Server) → Sound srv → AllShut (on_signal srv)
unfolding on_signal manager_stop_all
on_signal-AllShut srv s = Sound-AllShut (on_signal srv) (on_signal-Sound srv s) refl

-- The measure falls, and the server stays closed.
abbrev Lower : {S : Type 0} → Ending S → Ending S → Type 0
Lower v w = (measure w < measure v) × Closed w.io

settled-Lower :
    {S : Type 0} (k : ℕ) (o : Outcome) (q : ℕ) (t : S) (v : Ending S)
    → k < v.io.srv.next_id
    → Closed v.io
    → o.after.is_open ≡ (v.io.srv.conns k).is_open
    → ops o.after + 2 * q < ops (v.io.srv.conns k) + 2 * v.queued
    → Lower v (settled k o q t v)
settled-Lower k o q t v h c same l = (
  omega (arith, settle_outcome-ops k o v.io.srv h),
  (
    (settle_outcome-accepting k o v.io.srv ∙ c.0.0, c.0.1),
    settle_outcome-AllShut k o v.io.srv (same ∙ c.1 k h) c.1,
  ),
)

if_not : {A : Type 0} (b : Bool) (x y : A) → b ≡ false → (if b then x else y) ≡ y
if_not true x y e = cc (e)
if_not false x y e = refl

elim_not :
    (b : Bool) (x y : Server) → b ≡ false → (elim b as (λ _. Server) [ true ↦ x | false ↦ y ]) ≡ y
elim_not true x y e = cc (e)
elim_not false x y e = refl

complete_accept-closed :
    (ec : ErrorCode) (junk : CommandType) (io : IoService)
    → io.srv.accepting ≡ false
    → complete_accept ec junk io ≡ record io { accepts = io.accepts - 1 }
unfolding complete_accept on_accept
complete_accept-closed success junk io c =
    if_not io.srv.accepting _ _ c
    ∙ ap (λ s. record io { srv = s; accepts = io.accepts - 1 })
        (elim_not io.srv.accepting _ io.srv c)
complete_accept-closed aborted junk io c = if_not io.srv.accepting _ _ c
complete_accept-closed failure junk io c = if_not io.srv.accepting _ _ c

complete_accept-Lower :
    {S : Type 0} (ec : ErrorCode) (junk : CommandType) (v : Ending S)
    → 0 < v.io.accepts
    → Closed v.io
    → Lower v (record v { io = complete_accept ec junk v.io })
complete_accept-Lower ec junk v h c =
    subst (λ io. Lower v (record v { io = io })) (sym (complete_accept-closed ec junk v.io c.0.0))
      (omega arith, c)

-- On a closed connection nothing is served.
not_open : {A : Type 0} (b : Bool) → b ≡ false → b ≡ true → A
not_open true e f = cc (e)
not_open false e f = cc (f)

module _ {S : Type 0} (db : Option (Store S)) where
  on_read-is_open :
      (ec : ErrorCode) (chunk : Bytes) (c : Connection) (s t : S) (o : Outcome)
      → on_read db ec chunk c s ≡ (ok o, t)
      → o.after.is_open ≡ c.is_open
  on_read-is_open ec chunk c s t o e =
      subst (λ out. IsOpenAs c.is_open out.0) e (on_read-IsOpenAs db ec chunk c s)

  read_queued-Lower :
      (k q : ℕ) (chunk : Bytes) (o : Outcome) (t : S) (v : Ending S)
      → k < v.io.srv.next_id
      → 0 < (v.io.srv.conns k).reads
      → v.queued ≡ suc q
      → on_read db success chunk (v.io.srv.conns k) v.database ≡ (ok o, t)
      → Closed v.io
      → Lower v (settled k o q t v)
  read_queued-Lower k q chunk o t v h b e r c =
      let at_most =
        subst (λ p. OpsAtMost (ops (v.io.srv.conns k) + 1) p.0) r
          (on_read-ops db chunk (v.io.srv.conns k) v.database b) in
      settled-Lower k o q t v h c
        (on_read-is_open success chunk (v.io.srv.conns k) v.database t o r) (omega arith)

  EndStep-Lower : {v w : Ending S} → EndStep db v w → Closed v.io → Lower v w
  EndStep-Lower {v} (accept_ended ec junk h e) c =
      subst (Lower v) (sym e) (complete_accept-Lower ec junk v h c)
  EndStep-Lower {v} (read_ended k ec chunk o t h b n r e) c =
      let less =
        on_read_failed-ops db ec chunk (v.io.srv.conns k) v.database o n b (ap (λ p. p.0) r) in
      subst (Lower v) (sym e) (
        settled-Lower k o v.queued t v h c
          (on_read-is_open ec chunk (v.io.srv.conns k) v.database t o r) (omega arith))
  EndStep-Lower {v} (read_served k chunk o t h b opened r e) c =
      not_open (v.io.srv.conns k).is_open (c.1 k h) opened
  EndStep-Lower {v} (read_queued k q chunk o t h b u r e) c =
      subst (Lower v) (sym e) (read_queued-Lower k q chunk o t v h b u r c)
  EndStep-Lower {v} (write_ended k ec text h b n e) c =
      let less = on_write_failed-ops ec (v.io.srv.conns k) text n b in
      subst (Lower v) (sym e) (
        settled-Lower k _ v.queued v.database v h c (on_write-is_open ec (v.io.srv.conns k))
          (omega arith))
  EndStep-Lower {v} (write_served k text h b opened e) c =
      not_open (v.io.srv.conns k).is_open (c.1 k h) opened
  EndStep-Lower {v} (write_queued k q text h b u e) c =
      let most = on_write-ops (v.io.srv.conns k) text b in
      subst (Lower v) (sym e) (
        settled-Lower k _ q v.database v h c (on_write-is_open success (v.io.srv.conns k))
          (omega arith))
  EndStep-Lower {v} (read_timed_out k h b e) c =
      let less = on_read_timer-ops (v.io.srv.conns k) b in
      subst (Lower v) (sym e) (
        settled-Lower k _ v.queued v.database v h c
          (on_read_timer-is_open success (v.io.srv.conns k)) (omega arith))
  EndStep-Lower {v} (write_timed_out k h b e) c =
      let less = on_write_timer-ops (v.io.srv.conns k) b in
      subst (Lower v) (sym e) (
        settled-Lower k _ v.queued v.database v h c
          (on_write_timer-is_open success (v.io.srv.conns k)) (omega arith))

  Ends-Lower :
      {v w : Ending S} {n : ℕ}
      → Ends db v n w
      → Closed v.io
      → (n + measure w ≤ measure v) × Closed w.io
  Ends-Lower now c = (omega arith, c)
  Ends-Lower (then_handler r st) c =
      let (bound, closed) = Ends-Lower r c in
      let (less, still) = EndStep-Lower st closed in (omega arith, still)

  read_may_end :
      (v : Ending S) (k : ℕ)
      → k < v.io.srv.next_id
      → 0 < (v.io.srv.conns k).reads
      → (w : Ending S) × EndStep db v w
  unfolding on_read
  read_may_end v k h b = (_, read_ended k aborted [] _ v.database h b (λ e. cc (e)) refl refl)

  connection_may_end :
      (v : Ending S) (k : ℕ)
      → k < v.io.srv.next_id
      → (text : Option Bytes) → (v.io.srv.conns k).writing ≡ text
      → 0 < ops (v.io.srv.conns k)
      → (w : Ending S) × EndStep db v w
  connection_may_end v k h (some text) b p = (_, write_ended k aborted text h b (λ e. cc (e)) refl)
  connection_may_end v k h none b p = elim (zero_or_positive (v.io.srv.conns k).reads) [
    | inr some_read ↦ read_may_end v k h some_read
    | inl no_read ↦ elim (zero_or_positive (v.io.srv.conns k).read_waits) [
      | inr some_wait ↦ (_, read_timed_out k h some_wait refl)
      | inl no_wait ↦ (_, write_timed_out k h (omega (arith, ap writes_of b)) refl)
    ]
  ]

  -- A server that is closed has something to run as long as `run` does not return.
  may_end :
      (v : Ending S) → Closed v.io → (run_returns v.io ≡ true) ⊎ ((w : Ending S) × EndStep db v w)
  may_end v c = elim (zero_or_positive v.io.accepts) [
    | inr some_accept ↦ inr (_, accept_ended aborted no_command some_accept refl)
    | inl no_accept ↦ elim (zero_or_positive (connection_ops v.io.srv)) [
      | inr some_op ↦
          let (k, h, p) = total-find (λ j. ops (v.io.srv.conns j)) v.io.srv.next_id some_op in
          inr (connection_may_end v k h (v.io.srv.conns k).writing refl p)
      | inl no_op ↦ inl (or_true v.io.stopped ((==_iff (outstanding v.io) 0).1 (omega arith)))
    ]
  ]

  pub shutdown-Ends :
      (unborn : ℕ → Connection) (began q : ℕ) (io : IoService) (first s : S) (n : ℕ) (w : Ending S)
      → Reach db (make_server unborn began, first) (io.srv, s)
      → io.signal_waits ≡ 1
      → Ends db (record { queued = q; io = complete_signal io; database = s }) n w
      → (n < 2 * q + outstanding io)
        × AllShut w.io.srv
        × ((run_returns w.io ≡ true) ⊎ ((u : Ending S) × EndStep db w u))
  unfolding complete_signal on_signal manager_stop_all
  shutdown-Ends unborn began q io first s n w reached one r =
      let shut = on_signal-AllShut io.srv (Reach-Sound db unborn began first reached) in
      let (bound, closed) = Ends-Lower r ((refl, omega arith), shut) in
      let same = on_signal-ops io.srv in (omega arith, closed.1, may_end w closed)
