-- ===== src/Tcp/Connection/Untimed.antt =====
-- A connection of src/quitsies/tcp/connection.cpp whose timeouts arm no timer: no timer ever runs.
use quitsies.Prelude.{◌-◌, ◌≡◌, refl, List, [], ◌∷◌, Option, none, some, Result, ok, err, arith}
use quitsies.Text.{Bytes}
use quitsies.Db.Store.{Store}
use quitsies.Tcp.Request.Types.{StatusType, finished, get_status}
use quitsies.Tcp.Request.Process.{process}
use quitsies.Tcp.Connection.{
  Connection, success, Outcome, on_read, on_status, on_finished, on_write,
}
use quitsies.Tcp.Connection.Conversation.{IsUntimed, delivered}

-- The handler returned, and no timer runs.
abbrev Untimed : Result Outcome → Type 0
Untimed (ok o) = IsUntimed o.after
Untimed (err what) = Unit {0}

on_finished-Untimed : (c : Connection) → IsUntimed c → Untimed (on_finished c)
unfolding on_finished
on_finished-Untimed c h = ground arith

on_status-Untimed : (st : StatusType) (c : Connection) → IsUntimed c → Untimed (on_status st c)
unfolding on_status
on_status-Untimed finished c h = on_finished-Untimed c h
on_status-Untimed _ c h = h

delivered-Untimed :
    (w : Option Bytes) (o : Outcome)
    → o.after.writing ≡ w
    → IsUntimed o.after
    → IsUntimed (delivered o).1
unfolding on_write
delivered-Untimed none o e h = ground (arith, e)
delivered-Untimed (some text) o e h = ground (arith, e)

module _ {S : Type 0} (db : Store S) where
  -- No timer runs in any state of a conversation.
  pub StaysUntimed : List Bytes → Connection → S → Type 0
  StaysUntimed [] c s = IsUntimed c
  StaysUntimed (chunk ∷ chunks) c s =
      let (result, t) = on_read (some db) success chunk c s in
      IsUntimed c × elim result as (λ _. Type 0) [
        | err what ↦ Unit {0}
        | ok o ↦ IsUntimed o.after × StaysUntimed chunks (delivered o).1 t
      ]

  on_read-Untimed :
      (chunk : Bytes) (c : Connection) (s : S)
      → IsUntimed c
      → Untimed (on_read (some db) success chunk c s).0
  unfolding on_read
  on_read-Untimed chunk c s h =
      let q = (process (some db) chunk (c.request, s)).0 in
      on_status-Untimed (get_status q) (record c { reads = c.reads - 1; request = q }) h

  Untimed-stays :
      (r : Result Outcome) (chunks : List Bytes) (t : S)
      → Untimed r
      → ((d : Connection) → IsUntimed d → StaysUntimed chunks d t)
      → elim r as (λ _. Type 0) [
        | err what ↦ Unit {0}
        | ok o ↦ IsUntimed o.after × StaysUntimed chunks (delivered o).1 t
      ]
  Untimed-stays (ok o) chunks t h later =
      (h, later (delivered o).1 (delivered-Untimed o.after.writing o refl h))
  Untimed-stays (err what) chunks t h later = tt

  pub conversation-StaysUntimed :
      (chunks : List Bytes) (c : Connection) (s : S) → IsUntimed c → StaysUntimed chunks c s
  unfolding StaysUntimed
  conversation-StaysUntimed [] c s h = h
  conversation-StaysUntimed (chunk ∷ chunks) c s h = (
    h,
    Untimed-stays _ chunks _ (on_read-Untimed chunk c s h)
        (λ d still. conversation-StaysUntimed chunks d _ still),
  )
