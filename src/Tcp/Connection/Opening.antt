-- ===== src/Tcp/Connection/Opening.antt =====
-- No handler of a connection opens or closes it by itself: that is the manager's.
use quitsies.Prelude.{◌-◌, Bool, ◌≡◌, refl, Option, Result, ok, err, arith}
use quitsies.Text.{Bytes}
use quitsies.Db.Store.{Store}
use quitsies.Tcp.Request.Types.{StatusType, finished}
use quitsies.Tcp.Request.Process.{process}
use quitsies.Tcp.Connection.{
  Connection, ErrorCode, success, aborted, failure, Outcome, on_finished, on_status, on_read,
  on_write, on_read_timer, on_write_timer, stale_read, stale_write,
}

abbrev pub IsOpenAs : Bool → Result Outcome → Type 0
IsOpenAs b (ok o) = o.after.is_open ≡ b
IsOpenAs b (err what) = Unit {0}

on_finished-IsOpenAs : (c : Connection) → IsOpenAs c.is_open (on_finished c)
unfolding on_finished
on_finished-IsOpenAs c = ground arith

on_status-IsOpenAs : (st : StatusType) (c : Connection) → IsOpenAs c.is_open (on_status st c)
unfolding on_status
on_status-IsOpenAs finished c = on_finished-IsOpenAs c
on_status-IsOpenAs _ c = refl

pub on_read-IsOpenAs :
    {S : Type 0} (db : Option (Store S)) (ec : ErrorCode) (chunk : Bytes) (c : Connection) (s : S)
    → IsOpenAs c.is_open (on_read db ec chunk c s).0
unfolding on_read
on_read-IsOpenAs db success chunk c s =
    on_status-IsOpenAs (process db chunk (c.request, s)).0.status
      (record c { reads = c.reads - 1; request = (process db chunk (c.request, s)).0 })
on_read-IsOpenAs db aborted chunk c s = refl
on_read-IsOpenAs db failure chunk c s = refl

pub on_write-is_open : (ec : ErrorCode) (c : Connection) → (on_write ec c).after.is_open ≡ c.is_open
unfolding on_write
on_write-is_open ec c = ground arith

pub on_read_timer-is_open :
    (ec : ErrorCode) (c : Connection) → (on_read_timer ec c).after.is_open ≡ c.is_open
unfolding on_read_timer
on_read_timer-is_open ec c = ground arith

pub on_write_timer-is_open :
    (ec : ErrorCode) (c : Connection) → (on_write_timer ec c).after.is_open ≡ c.is_open
unfolding on_write_timer
on_write_timer-is_open ec c = ground arith

pub stale_read-is_open : (c : Connection) → (stale_read c).after.is_open ≡ c.is_open
unfolding on_read_timer
stale_read-is_open c = refl

pub stale_write-is_open : (c : Connection) → (stale_write c).after.is_open ≡ c.is_open
unfolding on_write_timer
stale_write-is_open c = refl
