-- ===== src/Tcp/Server/Drain.antt =====
-- After a signal the server comes to its end: the handlers that are still to run are bounded in
-- number, and behind them `server::run` returns.
use quitsies.Prelude.{
  ℕ, zero, suc, ◌+◌, ◌-◌, ◌≤◌, ◌<◌, false, ◌≡◌, ◌≢◌, refl, inl, inr, Option, some, Result, ok, err,
  arith, ◌==◌, ==_iff, Bool-cases,
}
use quitsies.Text.{Bytes}
use quitsies.Db.Store.{Store}
use quitsies.Tcp.Request.Types.{StatusType, finished}
use quitsies.Tcp.Request.Process.{process}
use quitsies.Tcp.Connection.{
  Connection, ErrorCode, success, aborted, failure, Outcome, start, on_finished, on_status, on_read,
  on_write, on_read_timer, on_write_timer,
}
use quitsies.Tcp.Server.{Server, put, settle_outcome, manager_stop}
use quitsies.Tcp.Server.Run.{ops, writes_of, total, connection_ops}

pub total-same : (f g : ℕ → ℕ) (n : ℕ) → ((j : ℕ) → j < n → g j ≡ f j) → total g n ≡ total f n
total-same f g zero same = refl
total-same f g (suc n) same =
    omega (arith, total-same f g n (λ j h. same j (omega arith)), same n (omega arith))

-- One value of a sum changes.
total-change :
    (f g : ℕ → ℕ) (k n : ℕ)
    → k < n
    → ((j : ℕ) → (k == j) ≡ false → g j ≡ f j)
    → total g n + f k ≡ total f n + g k
total-change f g k zero h same = absurd (omega arith)
total-change f g k (suc n) h same = elim (Bool-cases (k == n)) [
  | inl e ↦ rw ((==_iff k n).0 e) (omega (arith, total-same f g n (λ j l. same j (ground arith))))
  | inr e ↦ omega (arith, total-change f g k n (ground arith) same, same n e)
]

-- Some value of a positive sum is positive.
pub total-find : (f : ℕ → ℕ) (n : ℕ) → 0 < total f n → (k : ℕ) × (k < n) × (0 < f k)
total-find f zero h = absurd (omega arith)
total-find f (suc n) h =
    elim (f n) as (λ m. f n ≡ m → (k : ℕ) × (k < suc n) × (0 < f k)) [
      | zero ↦ λ e. let (k, l, p) = total-find f n (omega arith) in (k, omega arith, p)
      | suc m ↦ λ e. (n, omega arith, omega arith)
    ]
      refl

abbrev pub OpsAtMost : ℕ → Result Outcome → Type 0
OpsAtMost n (ok o) = ops o.after ≤ n
OpsAtMost n (err what) = Unit {0}

on_finished-ops : (c : Connection) → OpsAtMost (ops c + 2) (on_finished c)
unfolding on_finished
on_finished-ops c = ground arith

on_status-ops : (st : StatusType) (c : Connection) → OpsAtMost (ops c + 2) (on_status st c)
unfolding on_status
on_status-ops finished c = on_finished-ops c
on_status-ops _ c = omega arith

module _ {S : Type 0} (db : Option (Store S)) where
  pub on_read-ops :
      (chunk : Bytes) (c : Connection) (s : S)
      → 0 < c.reads
      → OpsAtMost (ops c + 1) (on_read db success chunk c s).0
  unfolding on_read
  on_read-ops chunk c s h =
      let q = (process db chunk (c.request, s)).0 in
      at_most (on_status q.status (record c { reads = c.reads - 1; request = q }))
        (on_status-ops q.status (record c { reads = c.reads - 1; request = q }))
    where
      at_most :
          (r : Result Outcome)
          → OpsAtMost (c.reads - 1 + (c.read_waits + (c.write_waits + writes_of c.writing)) + 2) r
          → OpsAtMost (ops c + 1) r
      at_most (ok o) l = omega arith
      at_most (err what) l = tt

  pub on_read_failed-ops :
      (ec : ErrorCode) (chunk : Bytes) (c : Connection) (s : S) (o : Outcome)
      → ec ≢ success
      → 0 < c.reads
      → (on_read db ec chunk c s).0 ≡ ok o
      → ops o.after < ops c
  unfolding on_read
  on_read_failed-ops success chunk c s o n h e = absurd (n refl)
  on_read_failed-ops aborted chunk c s o n h e = ground arith
  on_read_failed-ops failure chunk c s o n h e = ground arith

pub on_write-ops :
    (c : Connection) (text : Bytes)
    → c.writing ≡ some text
    → ops (on_write success c).after ≤ ops c + 1
unfolding on_write start
on_write-ops c text w = ground arith

pub on_write_failed-ops :
    (ec : ErrorCode) (c : Connection) (text : Bytes)
    → ec ≢ success
    → c.writing ≡ some text
    → ops (on_write ec c).after < ops c
unfolding on_write
on_write_failed-ops success c text n w = absurd (n refl)
on_write_failed-ops aborted c text n w = ground arith
on_write_failed-ops failure c text n w = ground arith

pub on_read_timer-ops :
    (c : Connection) → 0 < c.read_waits → ops (on_read_timer success c).after < ops c
unfolding on_read_timer
on_read_timer-ops c h = omega arith

pub on_write_timer-ops :
    (c : Connection) → 0 < c.write_waits → ops (on_write_timer success c).after < ops c
unfolding on_write_timer
on_write_timer-ops c h = omega arith

settle_outcome-conns :
    (k : ℕ) (o : Outcome) (srv : Server)
    → (ops ((settle_outcome k o srv).conns k) ≡ ops o.after)
      × ((j : ℕ) → (k == j) ≡ false → ops ((settle_outcome k o srv).conns j) ≡ ops (srv.conns j))
      × ((settle_outcome k o srv).next_id ≡ srv.next_id)
unfolding settle_outcome manager_stop put
settle_outcome-conns k o srv = ground arith

pub settle_outcome-ops :
    (k : ℕ) (o : Outcome) (srv : Server)
    → k < srv.next_id
    → connection_ops (settle_outcome k o srv) + ops (srv.conns k) ≡ connection_ops srv + ops o.after
settle_outcome-ops k o srv h =
    let after = settle_outcome k o srv in
    let (own, others, ids) = settle_outcome-conns k o srv in
    rw ids (
      omega (
        arith,
        own,
        total-change (λ j. ops (srv.conns j)) (λ j. ops (after.conns j)) k srv.next_id h others,
      ))
