-- ===== src/Tcp/Request/Complete.antt =====
-- Every request that `request::process` finishes has a complete reply.
use quitsies.Prelude.{ℕ, true, false, ◌≡◌, refl, [], ◌∷◌, ◌++◌, Option, arith, Bool-cases, inl, inr}
use quitsies.Text.{Bytes, codes, crlf}
use quitsies.Db.Store.{Store}
use quitsies.Tcp.Request.Types.{
  Request, StatusType, command, norep, retrieval_key, retrieval_keys, finished,
}
use quitsies.Tcp.Request.Response.{prepare_response}
use quitsies.Tcp.Request.Command.{command_from_str}
use quitsies.Tcp.Request.Process.{
  Flow, next, done, throw, chain, is_finished, on_command, on_norep, on_retrieval, on_space,
  on_data, step, run, settle, process, client_error, is_too_large,
}
use quitsies.Tcp.Request.Endings.{ends_crlf, ends_crlf-append, answer-ends_crlf}
use quitsies.Tcp.Request.Chunks.{Shape, run-cons, run-Shape}

module _ {S : Type 0} where
  -- What a loop that has returned says of the reply.
  abbrev Replied : Flow (Request × S) → Type 0
  Replied (next w) = Unit {0}
  Replied (done w) = ends_crlf w.0.response ≡ true
  Replied (throw w what) = Unit {0}

  module _ (db : Option (Store S)) where
    prepare_response-Replied : (r : Request) (s : S) → Replied (done (prepare_response db r s))
    unfolding prepare_response
    prepare_response-Replied r s = answer-ends_crlf db r.cmd r.keys r.buffer s

    on_command-Replied : (r : Request) (s : S) → Replied (on_command db r s)
    unfolding on_command
    on_command-Replied r s =
        ground (arith, answer-ends_crlf db (command_from_str r.buffer) r.keys [] s)

    on_norep-Replied : (r : Request) (s : S) → Replied (on_norep db r s)
    unfolding on_norep
    on_norep-Replied r s = ground (arith, answer-ends_crlf db r.cmd r.keys r.buffer s)

    on_retrieval-Replied : (r : Request) (s : S) → Replied (on_retrieval db r s)
    unfolding on_retrieval
    on_retrieval-Replied r s = ground (arith, answer-ends_crlf db r.cmd r.keys r.buffer s)

    on_data-Replied : (c : ℕ) (r : Request) (s : S) → Replied (on_data db c r s)
    unfolding on_data
    on_data-Replied c r s = ground (arith, answer-ends_crlf db r.cmd r.keys r.buffer s)

    on_space-Replied : (st : StatusType) (r : Request) (s : S) → Replied (on_space st db r s)
    unfolding on_space
    on_space-Replied command r s = on_command-Replied r s
    on_space-Replied norep r s = on_norep-Replied r s
    on_space-Replied retrieval_key r s = on_retrieval-Replied r s
    on_space-Replied retrieval_keys r s = on_retrieval-Replied r s
    on_space-Replied _ r s = ground arith

    step-Replied : (c : ℕ) (w : Request × S) → Replied (step db c w)
    unfolding step
    step-Replied c (r, s) = ground (arith, on_data-Replied c r s, on_space-Replied r.status r s)

    run-Replied : (cs : Bytes) (w : Request × S) → Replied (run db cs w)
    run-Replied [] w = unfold run in tt
    run-Replied (c ∷ cs) w =
        rw (run-cons db c cs w) (go (step db c w) (run-Replied cs) (step-Replied c w))
      where
        go :
            (f : Flow (Request × S))
            → ((v : Request × S) → Replied (run db cs v))
            → Replied f
            → Replied (chain f (run db cs))
        go (next v) later h = later v
        go (done v) later h = h
        go (throw v what) later h = h

    settle-ends_crlf :
        (m : ℕ) (f : Flow (Request × S))
        → Shape db m f
        → Replied f
        → (settle f).0.status ≡ finished
        → ends_crlf (settle f).0.response ≡ true
    unfolding client_error
    settle-ends_crlf m (next w) h e st = cc h.0
    settle-ends_crlf m (done w) h e st = e
    settle-ends_crlf m (throw w what) h e st =
        ends_crlf-append (codes "CLIENT_ERROR ") (what ++ crlf) (ends_crlf-append what crlf refl)

    -- Whatever the database does, throwing included, a request that `process` has finished has a
    -- reply that ends a line: no branch leaves the client without an answer.
    pub process-ends_crlf :
        (chunk : Bytes) (w : Request × S)
        → is_finished w.0.status ≡ false
        → (process db chunk w).0.status ≡ finished
        → ends_crlf (process db chunk w).0.response ≡ true
    unfolding process
    process-ends_crlf chunk (r, s) h e = elim (Bool-cases (is_too_large r chunk)) [
      | inl large ↦ rw large refl
      | inr small ↦ rw small (
          settle-ends_crlf r.max_bytes (run db chunk (r, s)) (run-Shape db chunk (r, s) h)
            (run-Replied chunk (r, s)) (rw small at e))
    ]
