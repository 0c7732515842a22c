-- ===== src/Tcp/Connection/Reading.antt =====
-- A connection that reads a command in several chunks: src/quitsies/tcp/connection.cpp and
-- request.cpp.
use quitsies.Prelude.{
  ◌≢◌, false, ◌-◌, ◌≡◌, refl, sym, ap, subst, ◌∙◌, [], ◌++◌, none, some, ok, arith,
}
use quitsies.Text.{Bytes}
use quitsies.Db.Store.{Store}
use quitsies.Tcp.Request.Types.{quitting, StatusType, get_status, CommandType, finished, init}
use quitsies.Tcp.Request.Process.{process, run, is_finished}
use quitsies.Tcp.Connection.{Connection, success, on_read, on_status, on_finished, go_on, do_read}
use quitsies.Tcp.Memcached.Spec.{Op, IsOp, Map, apply, reply_to}
use quitsies.Tcp.Memcached.Keeps.{IsMap}
use quitsies.Tcp.Request.Partial.{begun}
use quitsies.Tcp.Memcached.Cuts.{stem, end_of, process-begun, process-piece, process-last}
use quitsies.Tcp.Memcached.Refinement.{Refines, process-Refines}
use quitsies.Tcp.Connection.Conversation.{IsReady, Serves, on_finished-Serves}

-- The connection reads, and holds what these bytes begin.
abbrev pub IsReading : Bytes → Connection → Type 0
IsReading a c =
    (c.writing ≡ none)
    × (c.reads ≡ 1)
    × ((junk : CommandType) × (c.request ≡ begun (init junk 0) a))

pub IsReady-IsReading : (c : Connection) → IsReady c → IsReading [] c
unfolding run
IsReady-IsReading c h = (h.0, h.1, (c.request.cmd, h.2))

on_status-waits :
    (st : StatusType) (c : Connection)
    → is_finished st ≡ false
    → st ≢ quitting
    → on_status st c ≡ ok (go_on (do_read c))
unfolding on_status
on_status-waits finished c f q = cc (f)
on_status-waits quitting c f q = absurd (q refl)
on_status-waits _ c f q = refl

module _ {S : Type 0} (db : Store S) (view : S → Map) (law : IsMap db view) where
  -- A chunk that does not finish a command: nothing is written, and the connection reads on.
  pub on_read-piece :
      (op : Op) (a piece b : Bytes) (c : Connection) (s : S)
      → IsOp op
      → (a ++ piece) ++ b ≡ stem op
      → IsReading a c
      → (d : Connection) × (on_read (some db) success piece c s ≡ (ok (go_on d), s))
        × IsReading (a ++ piece) d
        × (d.is_open ≡ c.is_open)
  unfolding on_read
  on_read-piece op a piece b c s h e (w, r, (junk, q)) =
      let fresh = init junk 0 in
      let behind : process (some db) piece (c.request, s) ≡ (begun fresh (a ++ piece), s) =
        ap (λ x. process (some db) piece (x, s)) q
        ∙ process-piece (some db) junk op a piece b s h e in
      let waits = (process-begun (some db) junk op (a ++ piece) b s h e).1 in
      let held = record c { reads = c.reads - 1; request = begun fresh (a ++ piece) } in
      (
        do_read held,
        ap
              (λ x.
                (on_status (get_status x.0) (record c { reads = c.reads - 1; request = x.0 }), x.1))
              behind
            ∙ ap (λ x. (x, s)) (on_status-waits _ held waits.0 waits.1),
        (w, omega arith, (junk, refl)),
        refl,
      )

  -- The chunk that finishes it.
  pub on_read-Serves :
      (op : Op) (a b : Bytes) (c : Connection) (s : S)
      → IsOp op
      → a ++ b ≡ stem op
      → IsReading a c
      → Serves
          (reply_to op (apply op (view s)).1)
          (on_read (some db) success (b ++ end_of op) c s).0
        × (view (on_read (some db) success (b ++ end_of op) c s).1 ≡ (apply op (view s)).0)
  unfolding on_read on_status
  on_read-Serves op a b c s h e (w, r, (junk, q)) =
      let f =
        subst (λ x. Refines db view law op x (apply op (view s)))
          (sym (
            ap (λ x. process (some db) (b ++ end_of op) (x, s)) q
            ∙ process-last (some db) junk op a b s h e))
          (process-Refines db view law op junk s h) in
      let p = (process (some db) (b ++ end_of op) (c.request, s)).0 in
      let d = record c { reads = c.reads - 1; request = p } in
      let served = on_finished-Serves d f.finishes w (omega arith) f.resets in
      (
        subst (λ st. Serves (reply_to op (apply op (view s)).1) (on_status st d)) (sym f.finishes)
            (subst (λ out. Serves out (on_finished d)) (rw (f.quieted, f.replied) refl) served),
        f.viewed,
      )
