-- ===== src/Tcp/Server/Step.antt =====
-- The server among its clients: the events that the network library may deliver in any order, as
-- steps, and what holds after any number of them.
use quitsies.Prelude.{
  ℕ, ◌+◌, ◌≤◌, ◌<◌, true, false, ◌≡◌, refl, subst, sym, ap, ◌∙◌, Option, some, [], ok, arith,
  length,
}
use quitsies.Prelude.Int.{ℤ}
use quitsies.Text.{Bytes}
use quitsies.Db.Store.{Store}
use quitsies.Tcp.Request.Types.{CommandType}
use quitsies.Tcp.Connection.{
  Connection, ErrorCode, success, Outcome, on_read, on_write, on_read_timer, on_write_timer,
  stale_read, stale_write, is_positive,
}
use quitsies.Tcp.Connection.Invariant.{
  Returns, on_read-Returns, on_write-Inv, on_read_timer-Inv, on_write_timer-Inv, stale_read-Inv,
  stale_write-Inv,
}
use quitsies.Tcp.Connection.Opening.{
  IsOpenAs, on_read-IsOpenAs, on_write-is_open, on_read_timer-is_open, on_write_timer-is_open,
  stale_read-is_open, stale_write-is_open,
}
use quitsies.Tcp.Server.{
  Server, contains, make_server, on_accept, on_signal, settle_outcome, set_read_timeout,
  set_write_timeout, set_max_request_bytes,
}
use quitsies.Tcp.Server.Managed.{Sound, settle_outcome-Sound, on_accept-Sound, on_signal-Sound}

-- The size of the buffer that a read fills.
abbrev pub buffer_size : ℕ
buffer_size = 8192

contains-nil : (k : ℕ) → contains [] k ≡ false
unfolding contains
contains-nil k = refl

settings-Sound :
    (srv : Server) (read write : ℤ) (limit time : ℕ)
    → Sound srv
    → Sound (record srv {
      read_timeout = read;
      write_timeout = write;
      req_max_bytes = limit;
      now = time;
    })
settings-Sound srv read write limit time s = record {
  live = s.live;
  tracked = s.tracked;
  born = s.born;
  drained = s.drained;
}

make_server-Sound : (unborn : ℕ → Connection) (began : ℕ) → Sound (make_server unborn began)
unfolding make_server contains
make_server-Sound unborn began = record {
  live = λ k h. absurd (omega arith);
  tracked = λ k h. absurd (omega arith);
  born = λ k h. cc (h);
  drained = λ a. refl;
}

module _ {S : Type 0} (db : Option (Store S)) where
  -- One step is one handler that runs to its end before the next one begins, as when one thread
  -- calls `run`. A handler runs for an operation that is outstanding. A timer's wait ends without an
  -- error only once the timer has expired; it may then have been cancelled behind its expiry.
  pub data Step (v w : Server × S) : Type 0 where
    accepted : (junk : CommandType) → w ≡ (on_accept junk v.0, v.1) → Step v w
    received :
        (k : ℕ) (ec : ErrorCode) (chunk : Bytes) (o : Outcome) (t : S)
        → k < v.0.next_id
        → 0 < (v.0.conns k).reads
        → length chunk ≤ buffer_size
        → on_read db ec chunk (v.0.conns k) v.1 ≡ (ok o, t)
        → w ≡ (settle_outcome k o v.0, t)
        → Step v w
    sent :
        (k : ℕ) (ec : ErrorCode) (text : Bytes)
        → k < v.0.next_id
        → (v.0.conns k).writing ≡ some text
        → w ≡ (settle_outcome k (on_write ec (v.0.conns k)) v.0, v.1)
        → Step v w
    read_timed_out :
        (k : ℕ)
        → k < v.0.next_id
        → 0 < (v.0.conns k).read_waits
        → (v.0.conns k).read_expiry ≤ v.0.now
        → w ≡ (settle_outcome k (on_read_timer success (v.0.conns k)) v.0, v.1)
        → Step v w
    write_timed_out :
        (k : ℕ)
        → k < v.0.next_id
        → 0 < (v.0.conns k).write_waits
        → (v.0.conns k).write_expiry ≤ v.0.now
        → w ≡ (settle_outcome k (on_write_timer success (v.0.conns k)) v.0, v.1)
        → Step v w
    read_was_due :
        (k : ℕ)
        → k < v.0.next_id
        → is_positive (v.0.conns k).read_timeout ≡ true
        → (v.0.conns k).read_expiry ≤ v.0.now
        → w ≡ (settle_outcome k (stale_read (v.0.conns k)) v.0, v.1)
        → Step v w
    write_was_due :
        (k : ℕ)
        → k < v.0.next_id
        → is_positive (v.0.conns k).write_timeout ≡ true
        → (v.0.conns k).write_expiry ≤ v.0.now
        → w ≡ (settle_outcome k (stale_write (v.0.conns k)) v.0, v.1)
        → Step v w
    signalled : w ≡ (on_signal v.0, v.1) → Step v w
    set_read : (t : ℤ) → w ≡ (set_read_timeout t v.0, v.1) → Step v w
    set_write : (t : ℤ) → w ≡ (set_write_timeout t v.0, v.1) → Step v w
    set_max : (n : ℕ) → w ≡ (set_max_request_bytes n v.0, v.1) → Step v w
    passed : (n : ℕ) → w ≡ (record (v.0) { now = v.0.now + n }, v.1) → Step v w

  pub data Reach (v : Server × S) : Server × S → Type 0 where
    here : Reach v v
    then_step : {u w : Server × S} → Reach v u → Step u w → Reach v w

  abbrev SoundAt : Server × S → Type 0
  SoundAt v = Sound v.0

  received-Sound :
      (v : Server × S) (k : ℕ) (ec : ErrorCode) (chunk : Bytes) (o : Outcome) (t : S)
      → k < v.0.next_id
      → 0 < (v.0.conns k).reads
      → on_read db ec chunk (v.0.conns k) v.1 ≡ (ok o, t)
      → Sound v.0
      → Sound (settle_outcome k o v.0)
  received-Sound v k ec chunk o t h r e s =
      let c = v.0.conns k in
      settle_outcome-Sound v.0 k o s h
        (subst (λ out. Returns out.0) e (on_read-Returns db ec chunk c v.1 (s.live k h) r))
        (subst (λ out. IsOpenAs c.is_open out.0) e (on_read-IsOpenAs db ec chunk c v.1))

  Step-Sound : {v w : Server × S} → Step v w → Sound v.0 → Sound w.0
  Step-Sound {v} (accepted junk e) s = subst SoundAt (sym e) (on_accept-Sound junk v.0 s)
  Step-Sound {v} (received k ec chunk o t h r l e f) s =
      subst SoundAt (sym f) (received-Sound v k ec chunk o t h r e s)
  Step-Sound {v} (sent k ec text h b f) s = subst SoundAt (sym f) (
      settle_outcome-Sound v.0 k _ s h (on_write-Inv ec (v.0.conns k) text (s.live k h) b)
        (on_write-is_open ec (v.0.conns k)))
  Step-Sound {v} (read_timed_out k h b x f) s = subst SoundAt (sym f) (
      settle_outcome-Sound v.0 k _ s h (on_read_timer-Inv success (v.0.conns k) (s.live k h))
        (on_read_timer-is_open success (v.0.conns k)))
  Step-Sound {v} (write_timed_out k h b x f) s = subst SoundAt (sym f) (
      settle_outcome-Sound v.0 k _ s h (on_write_timer-Inv success (v.0.conns k) (s.live k h))
        (on_write_timer-is_open success (v.0.conns k)))
  Step-Sound {v} (read_was_due k h b x f) s = subst SoundAt (sym f) (
      settle_outcome-Sound v.0 k _ s h (stale_read-Inv (v.0.conns k) (s.live k h))
        (stale_read-is_open (v.0.conns k)))
  Step-Sound {v} (write_was_due k h b x f) s = subst SoundAt (sym f) (
      settle_outcome-Sound v.0 k _ s h (stale_write-Inv (v.0.conns k) (s.live k h))
        (stale_write-is_open (v.0.conns k)))
  Step-Sound {v} (signalled f) s = subst SoundAt (sym f) (on_signal-Sound v.0 s)
  Step-Sound {v} (set_read t f) s =
      subst SoundAt (sym f) (unfold set_read_timeout in settings-Sound v.0 t _ _ _ s)
  Step-Sound {v} (set_write t f) s =
      subst SoundAt (sym f) (unfold set_write_timeout in settings-Sound v.0 _ t _ _ s)
  Step-Sound {v} (set_max n f) s =
      subst SoundAt (sym f) (unfold set_max_request_bytes in settings-Sound v.0 _ _ n _ s)
  Step-Sound {v} (passed n f) s = subst SoundAt (sym f) (settings-Sound v.0 _ _ _ (v.0.now + n) s)

  Reach-Sound_from : {v w : Server × S} → Sound v.0 → Reach v w → Sound w.0
  Reach-Sound_from s here = s
  Reach-Sound_from s (then_step r st) = Step-Sound st (Reach-Sound_from s r)

  module _ (unborn : ℕ → Connection) (began : ℕ) (s : S) {w : Server × S}
      (r : Reach (make_server unborn began, s) w) where
    -- After any sequence of events, each connection that was ever accepted keeps the invariant
    -- `Inv`, and is open exactly while the manager has it.
    pub Reach-Sound : Sound w.0
    Reach-Sound = Reach-Sound_from (make_server-Sound unborn began) r

    -- Once a signal has stopped the server, no connection is open, whatever events were still to
    -- be delivered.
    Reach-stopped :
        (k : ℕ) → w.0.accepting ≡ false → k < w.0.next_id → (w.0.conns k).is_open ≡ false
    Reach-stopped k a h =
        sym (Reach-Sound.tracked k h)
        ∙ ap (λ js. contains js k) (Reach-Sound.drained a)
        ∙ contains-nil k
