-- ===== src/Tcp/Server/Active.antt =====
-- Every open connection of the server goes on: src/quitsies/tcp/server.cpp over connection.cpp.
use quitsies.Prelude.{
  ℕ, ◌-◌, ◌<◌, true, false, ◌≡◌, refl, sym, subst, ◌⊎◌, inl, inr, Option, none, some, ok, arith,
}
use quitsies.Text.{Bytes}
use quitsies.Db.Store.{Store}
use quitsies.Tcp.Request.Process.{process, get_response, is_finished}
use quitsies.Tcp.Connection.{Connection, ErrorCode, success, aborted, failure, Outcome, on_read}
use quitsies.Tcp.Connection.Invariant.{Phase}
use quitsies.Tcp.Server.{
  Server, contains, make_server, settle_outcome, set_read_timeout, set_write_timeout,
  set_max_request_bytes,
}
use quitsies.Tcp.Server.Step.{
  Step, accepted, received, sent, read_timed_out, write_timed_out, read_was_due, write_was_due,
  signalled, set_read, set_write, set_max, passed, Reach, here, then_step, Reach-Sound,
}
use quitsies.Tcp.Server.Going.{
  Continues-Proceeds, on_status-Continues, on_write-Continues, on_read_timer-stops,
  on_write_timer-stops, settle_outcome-AllGo, on_accept-AllGo, on_signal-AllGo, make_server-AllGo,
  Works, Goes, Proceeds, AllGo,
}

module _ {S : Type 0} (db : Option (Store S)) where
  on_read-Continues :
      (ec : ErrorCode) (chunk : Bytes) (c : Connection) (s t : S) (o : Outcome)
      → (ec ≡ aborted → c.is_open ≡ false)
      → on_read db ec chunk c s ≡ (ok o, t)
      → (o.stops ≡ true) ⊎ Goes o.after
  unfolding on_read
  on_read-Continues success chunk c s t o h e =
      subst (λ out. Proceeds out.0) e
        (Continues-Proceeds _ (
          on_status-Continues (process db chunk (c.request, s)).0.status
            (record c { reads = c.reads - 1; request = (process db chunk (c.request, s)).0 })))
  on_read-Continues aborted chunk c s t o h e = subst (λ out. Proceeds out.0) e (inr (inl (h refl)))
  on_read-Continues failure chunk c s t o h e = subst (λ out. Proceeds out.0) e (inl refl)

  -- The library ends an operation with `aborted` only when its socket was closed: the program
  -- cancels no operation of a socket.
  abbrev pub IsDelivered : {v w : Server × S} → Step db v w → Type 0
  IsDelivered {v} (received k ec chunk o t h r l e f) = ec ≡ aborted → (v.0.conns k).is_open ≡ false
  IsDelivered {v} (sent k ec text h b f) = ec ≡ aborted → (v.0.conns k).is_open ≡ false
  IsDelivered _ = Unit {0}

  -- Events one behind the other, as the library delivers them.
  pub data Delivery (v : Server × S) : Server × S → Type 0 where
    began_at : Delivery v v
    then_delivered :
        {u w : Server × S} → Delivery v u → (st : Step db u w) → IsDelivered st → Delivery v w

  Delivery-Reach : {v w : Server × S} → Delivery v w → Reach db v w
  Delivery-Reach began_at = here
  Delivery-Reach (then_delivered d st h) = then_step (Delivery-Reach d) st

  AllGoAt : Server × S → Type 0
  AllGoAt v = AllGo v.0

  settled-AllGo :
      (v w : Server × S) (k : ℕ) (o : Outcome) (t : S)
      → (o.stops ≡ true) ⊎ Goes o.after
      → w ≡ (settle_outcome k o v.0, t)
      → AllGo v.0
      → AllGo w.0
  settled-AllGo v w k o t h e all =
      subst (λ x. AllGo x.0) (sym e) (settle_outcome-AllGo v.0 k o h all)

  Step-AllGo : {v w : Server × S} (st : Step db v w) → IsDelivered st → AllGo v.0 → AllGo w.0
  Step-AllGo {v} (accepted junk e) h all =
      subst (λ x. AllGo x.0) (sym e) (on_accept-AllGo junk v.0 all)
  Step-AllGo {v} {w} (received k ec chunk o t b r l e f) h all =
      settled-AllGo v w k o t (on_read-Continues ec chunk (v.0.conns k) v.1 t o h e) f all
  Step-AllGo {v} {w} (sent k ec text b x f) h all =
      settled-AllGo v w k _ v.1 (on_write-Continues ec (v.0.conns k) h) f all
  Step-AllGo {v} {w} (read_timed_out k b x y f) h all =
      settled-AllGo v w k _ v.1 (inl (on_read_timer-stops (v.0.conns k))) f all
  Step-AllGo {v} {w} (write_timed_out k b x y f) h all =
      settled-AllGo v w k _ v.1 (inl (on_write_timer-stops (v.0.conns k))) f all
  Step-AllGo {v} {w} (read_was_due k b x y f) h all =
      settled-AllGo v w k _ v.1 (inl (on_read_timer-stops _)) f all
  Step-AllGo {v} {w} (write_was_due k b x y f) h all =
      settled-AllGo v w k _ v.1 (inl (on_write_timer-stops _)) f all
  Step-AllGo {v} (signalled f) h all = subst (λ x. AllGo x.0) (sym f) (on_signal-AllGo v.0 all)
  Step-AllGo {v} (set_read t f) h all =
      subst (λ x. AllGo x.0) (sym f) (unfold set_read_timeout in all)
  Step-AllGo {v} (set_write t f) h all =
      subst (λ x. AllGo x.0) (sym f) (unfold set_write_timeout in all)
  Step-AllGo {v} (set_max n f) h all =
      subst (λ x. AllGo x.0) (sym f) (unfold set_max_request_bytes in all)
  Step-AllGo {v} (passed n f) h all = subst (λ x. AllGo x.0) (sym f) all

  Delivery-AllGo : {v w : Server × S} → Delivery v w → AllGo v.0 → AllGo w.0
  Delivery-AllGo began_at all = all
  Delivery-AllGo (then_delivered d st h) all = Step-AllGo st h (Delivery-AllGo d all)

-- One read is outstanding, for a request that is not finished, and no write is timed.
abbrev pub IsReceiving : Connection → Type 0
IsReceiving c =
    ((c.writing ≡ none) × (c.reads ≡ 1))
    × ((is_finished c.request.status ≡ false) × (c.write_waits ≡ 0))

-- The reply of the finished request is being written, which the client wants, and no read is
-- outstanding or timed.
abbrev pub IsReplying : Connection → Type 0
IsReplying c =
    (text : Bytes) × (c.writing ≡ some text)
    × (get_response c.request ≡ ok text)
    × (c.request.no_reply ≡ false)
    × (c.reads ≡ 0)
    × (c.read_waits ≡ 0)

none-active :
    (c : Connection) → c.writing ≡ none → Phase none c → Works c → IsReceiving c ⊎ IsReplying c
none-active c e (inl still, p, q, z) (inl r) = inl ((e, omega arith), still)
none-active c e (inr no_read, p, q, z) (inl r) = absurd (omega arith)
none-active c e p (inr (text, w)) = cc (e, w)

Goes-active :
    (w : Option Bytes) (c : Connection)
    → c.writing ≡ w
    → Phase w c
    → Goes c
    → (c.is_open ≡ false) ⊎ (IsReceiving c ⊎ IsReplying c)
Goes-active w c e p (inl shut) = inl shut
Goes-active none c e p (inr works) = inr (none-active c e p works)
Goes-active (some text) c e p (inr works) = inr (inr (text, e, p.0, p.1, p.2, p.3))

module _ {S : Type 0} (db : Option (Store S)) (unborn : ℕ → Connection) (began : ℕ) (s : S) where
  -- After any events that the network library delivers to a server, each handler ending before
  -- the next begins, and an operation ending with `aborted` only on a closed connection: of each
  -- connection that was ever accepted, the manager has it exactly while it is open, and it is
  -- closed, or has one read outstanding for a request that is not finished, or writes the reply
  -- of its finished request. No open connection is left without an operation.
  pub Delivery-active :
      (w : Server × S) (k : ℕ)
      → Delivery db (make_server unborn began, s) w
      → k < w.0.next_id
      → (contains w.0.managed k ≡ (w.0.conns k).is_open)
        × (((w.0.conns k).is_open ≡ false) ⊎ (IsReceiving (w.0.conns k) ⊎ IsReplying (w.0.conns k)))
  Delivery-active w k d h =
      let c = w.0.conns k in
      let sound = Reach-Sound db unborn began s (Delivery-Reach db d) in
      (
        sound.tracked k h,
        Goes-active c.writing c refl (sound.live k h)
            (Delivery-AllGo db d (make_server-AllGo unborn began) k h),
      )
