-- ===== src/Tcp/Server/Expiry.antt =====
-- The expiry of a connection's timers, which the constructor of src/quitsies/tcp/connection.cpp
-- sets and no handler moves.
use quitsies.Prelude.{ℕ, ◌≤◌, ◌<◌, true, false, ◌≡◌, refl, ◌∙◌, Option, some, arith}
use quitsies.Text.{Bytes}
use quitsies.Db.Store.{Store}
use quitsies.Tcp.Connection.{
  Connection, Outcome, success, close, is_positive, start, on_write, on_read_timer,
}
use quitsies.Tcp.Server.{Server, put, manager_stop, settle_outcome}
use quitsies.Tcp.Server.Managed.{==_refl, put_self}
use quitsies.Tcp.Server.Step.{Step, sent, read_timed_out}

restarted :
    (c : Connection)
    → is_positive c.read_timeout ≡ true
    → (0 < (on_write success c).after.read_waits)
      × ((on_write success c).after.read_expiry ≡ c.read_expiry)
      × ((on_write success c).stops ≡ false)
unfolding on_write start
restarted c h = ground arith

settle-now :
    (k : ℕ) (o : Outcome) (srv : Server)
    → ((settle_outcome k o srv).now ≡ srv.now) × ((settle_outcome k o srv).next_id ≡ srv.next_id)
unfolding settle_outcome manager_stop
settle-now k o srv = ground arith

settle-goes_on :
    (k : ℕ) (o : Outcome) (srv : Server)
    → o.stops ≡ false
    → (settle_outcome k o srv).conns k ≡ o.after
unfolding settle_outcome
settle-goes_on k o srv h = rw h (put_self srv.conns k k o.after (==_refl k))

settle-closes :
    (k : ℕ) (o : Outcome) (srv : Server)
    → o.stops ≡ true
    → ((settle_outcome k o srv).conns k).is_open ≡ false
unfolding settle_outcome manager_stop
settle-closes k o srv h =
    let kept = put srv.conns k o.after in rw (h, put_self kept k k (close (kept k)) (==_refl k))

timed_out-stops : (c : Connection) → (on_read_timer success c).stops ≡ true
unfolding on_read_timer
timed_out-stops c = refl

-- A client that was served for as long as its read timeout may be cut off at once: when its reply
-- has been sent and the expiry has passed, the wait that the next read begins can end without any
-- time in between, and its handler closes the connection.
pub sent-timed_out :
    {S : Type 0} (db : Option (Store S)) (srv : Server) (s : S) (k : ℕ) (text : Bytes)
    → k < srv.next_id
    → (srv.conns k).writing ≡ some text
    → is_positive (srv.conns k).read_timeout ≡ true
    → (srv.conns k).read_expiry ≤ srv.now
    → (u : Server × S) × Step db (srv, s) u
      × (w : Server × S) × Step db u w
      × (w.0.now ≡ srv.now)
      × ((w.0.conns k).is_open ≡ false)
sent-timed_out db srv s k text h b p x =
    let o = on_write success (srv.conns k) in
    let sent_to = settle_outcome k o srv in
    let c = sent_to.conns k in
    let cut = settle_outcome k (on_read_timer success c) sent_to in
    let (waits, expiry, on) = restarted (srv.conns k) p in
    let same = settle-goes_on k o srv on in
    let (time, ids) = settle-now k o srv in
    let timed_out =
      read_timed_out k (rw ids h) (rw same waits) (rw time (rw (same, expiry) x)) refl in
    (
      (sent_to, s),
      sent k success text h b refl,
      (cut, s),
      timed_out,
      (settle-now k (on_read_timer success c) sent_to).0 ∙ time,
      settle-closes k (on_read_timer success c) sent_to (timed_out-stops c),
    )
