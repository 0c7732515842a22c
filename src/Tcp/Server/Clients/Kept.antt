-- ===== src/Tcp/Server/Clients/Kept.antt =====
-- What the events at a server keep of its clients: src/quitsies/tcp/server.cpp over connection.cpp
-- and request.cpp.
use quitsies.Prelude.{
  ℕ, ◌<◌, ◌≡◌, ◌≢◌, refl, sym, subst, ap, ◌∙◌, [], ◌++◌, some, ok, inl, inr, ok-parts,
}
use quitsies.Prelude.Int.{ℤ}
use quitsies.Text.{Bytes}
use quitsies.Db.Store.{Store}
use quitsies.Tcp.Connection.{ErrorCode, success, aborted, failure, Outcome, on_read}
use quitsies.Tcp.Connection.Conversation.{delivered, Serves}
use quitsies.Tcp.Connection.Reading.{on_read-piece, on_read-Serves}
use quitsies.Tcp.Connection.Holding.{
  Holds, reading, Holds-IsReading, on_read_timer-Holds, on_write_timer-Holds, stale_read-Holds,
  stale_write-Holds, on_write-Holds, on_read-failed, Serves-Holds,
}
use quitsies.Tcp.Memcached.Spec.{Op, IsOp, Map, apply, reply_to}
use quitsies.Tcp.Memcached.History.{Explains, Explains-append}
use quitsies.Tcp.Memcached.Keeps.{IsMap}
use quitsies.Tcp.Memcached.Cuts.{end_of}
use quitsies.Tcp.Server.{Server, settle_outcome, set_write_timeout, set_max_request_bytes}
use quitsies.Tcp.Server.Step.{
  Step, accepted, received, sent, read_timed_out, write_timed_out, read_was_due, write_was_due,
  signalled, set_read, set_write, set_max, passed,
}
use quitsies.Tcp.Server.Clients.{Sessions, finishes, IsSent, IsPiece, IsLast, Follows}
use quitsies.Tcp.Server.Clients.Holding.{
  Holding, settle_outcome-Holding, sends-Holding, on_signal-Holding, on_accept-Holding,
}

module _ {S : Type 0} (db : Store S) (view : S → Map) (law : IsMap db view) where
  module _ (f : Map) where
    -- The connections hold what their clients sent, and the commands that were finished explain
    -- the database.
    pub record Kept (w : Server × S) (g : Sessions) : Type 0 where
      pub held : Holding w.0 g.unfinished
      pub explained : Explains f g.exchanges (view w.1)

    -- An event at one connection that leaves the database.
    settled-Kept :
        (v : Server × S) (k : ℕ) (o : Outcome) (g : Sessions)
        → Kept v g
        → (Holds (g.unfinished k) (v.0.conns k) → Holds (g.unfinished k) o.after)
        → k < v.0.next_id
        → Kept (settle_outcome k o v.0, v.1) g
    settled-Kept v k o g h step b = record {
      held =
          settle_outcome-Holding v.0 g.unfinished g.unfinished k o h.held (λ j e. refl)
            (step (h.held.holds k b));
      explained = h.explained;
    }

    failed-Kept :
        (v : Server × S) (k : ℕ) (ec : ErrorCode) (chunk : Bytes) (o : Outcome) (t : S)
        (g : Sessions)
        → ec ≢ success
        → k < v.0.next_id
        → 0 < (v.0.conns k).reads
        → on_read (some db) ec chunk (v.0.conns k) v.1 ≡ (ok o, t)
        → Kept v g
        → Kept (settle_outcome k o v.0, t) g
    failed-Kept v k ec chunk o t g n b r e h =
        let c = v.0.conns k in
        let (after, same) =
          on_read-failed (some db) (g.unfinished k) chunk ec c v.1 t o n
            (Holds-IsReading (h.held.holds k b) r) e in
        subst (λ u. Kept (settle_outcome k o v.0, u) g) (sym same)
          (settled-Kept v k o g h (λ before. after) b)

    piece-Kept :
        (v : Server × S) (k : ℕ) (op : Op) (chunk : Bytes) (o : Outcome) (t : S)
        (g after : Sessions)
        → IsOp op
        → k < v.0.next_id
        → 0 < (v.0.conns k).reads
        → on_read (some db) success chunk (v.0.conns k) v.1 ≡ (ok o, t)
        → IsPiece k op chunk g after
        → Kept v g
        → Kept (settle_outcome k o v.0, t) after
    piece-Kept v k op chunk o t g after i b r e (rest, cut, is_after) h =
        let a = g.unfinished k in
        let (d, read, still, opened) =
          on_read-piece db view law op a chunk rest (v.0.conns k) v.1 i cut
            (Holds-IsReading (h.held.holds k b) r) in
        let (same, kept) = ok-parts (sym read ∙ e) in
        subst (λ x. Kept (settle_outcome k o v.0, t) x) (sym is_after)
          record {
            held =
                sends-Holding v.0 g.unfinished k (a ++ chunk) o h.held
                  (subst (λ x. Holds (a ++ chunk) x.after) same (reading still));
            explained = subst (λ u. Explains f g.exchanges (view u)) kept h.explained;
          }

    last-Kept :
        (v : Server × S) (k : ℕ) (op : Op) (chunk : Bytes) (o : Outcome) (t : S)
        (g after : Sessions)
        → IsOp op
        → k < v.0.next_id
        → 0 < (v.0.conns k).reads
        → on_read (some db) success chunk (v.0.conns k) v.1 ≡ (ok o, t)
        → IsLast k op chunk o g after
        → Kept v g
        → Kept (settle_outcome k o v.0, t) after
    last-Kept v k op chunk o t g after i b r e (rest, cut, ends, is_after) h =
        let a = g.unfinished k in
        let m = view v.1 in
        let read : on_read (some db) success (rest ++ end_of op) (v.0.conns k) v.1 ≡ (ok o, t) =
          ap (λ l. on_read (some db) success l (v.0.conns k) v.1) (sym ends) ∙ e in
        let (served, viewed) =
          subst (λ x. Serves (reply_to op (apply op m).1) x.0 × (view x.1 ≡ (apply op m).0)) read
            (on_read-Serves db view law op a rest (v.0.conns k) v.1 i cut
              (Holds-IsReading (h.held.holds k b) r)) in
        subst (λ x. Kept (settle_outcome k o v.0, t) x) (sym is_after)
          record {
            held =
                sends-Holding v.0 g.unfinished k [] o h.held
                  (Serves-Holds (reply_to op (apply op m).1) o served);
            explained =
                subst (Explains f (finishes k op (delivered o).0 g).exchanges) (sym viewed)
                  (Explains-append f m g.exchanges k op (delivered o).0 h.explained served.0);
          }

    at : {v w : Server × S} {g after : Sessions} → w ≡ v → after ≡ g → Kept v g → Kept w after
    at {v} {w} {g} {after} e same h =
        subst (λ x. Kept x after) (sym e) (subst (Kept v) (sym same) h)

    -- The settings that no connection takes for its size limit.
    timed :
        (v : Server × S) {g : Sessions} {t : ℤ} {n now : ℕ}
        → Kept v g
        → Kept (record (v.0) { write_timeout = t; req_max_bytes = n; now = now }, v.1) g
    timed v h = record {
      held = record { unlimited = h.held.unlimited; holds = h.held.holds };
      explained = h.explained;
    }

    received-Kept :
        (v : Server × S) (k : ℕ) (ec : ErrorCode) (chunk : Bytes) (o : Outcome) (t : S)
        (g after : Sessions)
        → k < v.0.next_id
        → 0 < (v.0.conns k).reads
        → on_read (some db) ec chunk (v.0.conns k) v.1 ≡ (ok o, t)
        → IsSent k ec chunk o g after
        → Kept v g
        → Kept (settle_outcome k o v.0, t) after
    received-Kept v k success chunk o t g after b r e (op, i, inl piece) h =
        piece-Kept v k op chunk o t g after i b r e piece h
    received-Kept v k success chunk o t g after b r e (op, i, inr last) h =
        last-Kept v k op chunk o t g after i b r e last h
    received-Kept v k aborted chunk o t g after b r e same h =
        subst (Kept (settle_outcome k o v.0, t)) (sym same)
          (failed-Kept v k aborted chunk o t g (λ x. cc (x)) b r e h)
    received-Kept v k failure chunk o t g after b r e same h =
        subst (Kept (settle_outcome k o v.0, t)) (sym same)
          (failed-Kept v k failure chunk o t g (λ x. cc (x)) b r e h)

    -- Every event keeps it.
    pub Step-Kept :
        {v w : Server × S} {g after : Sessions} (st : Step (some db) v w)
        → Follows db st g after
        → Kept v g
        → Kept w after
    Step-Kept {v} {w} {g} {after} (accepted junk e) same h =
        at e same
          record { held = on_accept-Holding junk v.0 g.unfinished h.held; explained = h.explained }
    Step-Kept {v} {w} {g} {after} (received k ec chunk o t b r l e f) speaks h =
        subst (λ x. Kept x after) (sym f) (received-Kept v k ec chunk o t g after b r e speaks h)
    Step-Kept {v} {w} {g} {after} (sent k ec text b x e) same h =
        at e same (settled-Kept v k _ g h (λ a. on_write-Holds _ ec (v.0.conns k) text a x) b)
    Step-Kept {v} {w} {g} {after} (read_timed_out k b x y e) same h =
        at e same (settled-Kept v k _ g h (on_read_timer-Holds _ success (v.0.conns k)) b)
    Step-Kept {v} {w} {g} {after} (write_timed_out k b x y e) same h =
        at e same (settled-Kept v k _ g h (on_write_timer-Holds _ success (v.0.conns k)) b)
    Step-Kept {v} {w} {g} {after} (read_was_due k b x y e) same h =
        at e same (settled-Kept v k _ g h (stale_read-Holds _ (v.0.conns k)) b)
    Step-Kept {v} {w} {g} {after} (write_was_due k b x y e) same h =
        at e same (settled-Kept v k _ g h (stale_write-Holds _ (v.0.conns k)) b)
    Step-Kept {v} {w} {g} {after} (signalled e) same h =
        at e same
          record { held = on_signal-Holding v.0 g.unfinished h.held; explained = h.explained }
    Step-Kept {v} {w} {g} {after} (set_read t e) none_does h = absurd none_does
    Step-Kept {v} {w} {g} {after} (set_write t e) same h =
        at e same (unfold set_write_timeout in timed v h)
    Step-Kept {v} {w} {g} {after} (set_max n e) same h =
        at e same (unfold set_max_request_bytes in timed v h)
    Step-Kept {v} {w} {g} {after} (passed n e) same h = at e same (timed v h)
