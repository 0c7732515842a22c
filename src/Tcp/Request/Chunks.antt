-- ===== src/Tcp/Request/Chunks.antt =====
-- How `request::process` reads a request that arrives in several chunks.
use quitsies.Prelude.{
  ℕ, subst, false, ◌≡◌, refl, sym, ap, fun_ext, ◌∙◌, [], ◌∷◌, ◌++◌, Option, if◌then◌else◌, arith,
  Bool-cases, inl, inr,
}
use quitsies.Text.{Bytes}
use quitsies.Db.Store.{Store}
use quitsies.Tcp.Request.Types.{
  Request, StatusType, command, delete_key, storage_key, flags, exptime, nbytes, norep, data_block,
  retrieval_key, retrieval_keys, finished, quitting,
}
use quitsies.Tcp.Request.Response.{prepare_response}
use quitsies.Tcp.Request.Command.{is_white_space}
use quitsies.Tcp.Request.Process.{
  is_data_block, Flow, next, done, throw, chain, is_finished, on_command, on_key, on_norep,
  on_retrieval, on_space, on_data, step, run, settle, process, is_too_large, client_error,
}

chain_assoc :
    {A : Type 0} (f : Flow A) (g h : A → Flow A)
    → chain (chain f g) h ≡ chain f (λ a. chain (g a) h)
chain_assoc (next a) g h = refl
chain_assoc (done a) g h = refl
chain_assoc (throw a what) g h = refl

module _ {S : Type 0} (db : Option (Store S)) where
  pub run-cons :
      (c : ℕ) (cs : Bytes) (w : Request × S) → run db (c ∷ cs) w ≡ chain (step db c w) (run db cs)
  unfolding run
  run-cons c cs w = refl

  pub run-nil : (w : Request × S) → run db [] w ≡ next w
  unfolding run
  run-nil w = refl

  -- The loop over two chunks in a row.
  pub run-append :
      (a b : Bytes) (w : Request × S) → run db (a ++ b) w ≡ chain (run db a w) (run db b)
  run-append [] b w = unfold run in refl
  run-append (c ∷ cs) b w =
      run-cons c (cs ++ b) w
      ∙ ap (chain (step db c w)) (fun_ext (run-append cs b))
      ∙ sym (chain_assoc (step db c w) (run db cs) (run db b))
      ∙ ap (λ f. chain f (run db b)) (sym (run-cons c cs w))

  -- What each ending of the loop's body says of the status.
  abbrev pub Shape : ℕ → Flow (Request × S) → Type 0
  Shape m (next w) = (is_finished w.0.status ≡ false) × (w.0.max_bytes ≡ m)
  Shape m (done w) = (w.0.status ≡ finished) × (w.0.max_bytes ≡ m)
  Shape m (throw w what) = w.0.max_bytes ≡ m

  prepare_response-Shape :
      (r : Request) (s : S) → Shape r.max_bytes (done (prepare_response db r s))
  unfolding prepare_response
  prepare_response-Shape r s = (refl, refl)

  on_command-Shape : (r : Request) (s : S) → Shape r.max_bytes (on_command db r s)
  unfolding on_command
  on_command-Shape r s = ground arith

  on_key-Shape :
      (st : StatusType) (r : Request) (s : S)
      → is_finished st ≡ false
      → Shape r.max_bytes (on_key st r s)
  unfolding on_key
  on_key-Shape st r s h = ground arith

  on_norep-Shape : (r : Request) (s : S) → Shape r.max_bytes (on_norep db r s)
  unfolding on_norep
  on_norep-Shape r s = ground arith

  on_retrieval-Shape :
      (r : Request) (s : S) → is_finished r.status ≡ false → Shape r.max_bytes (on_retrieval db r s)
  unfolding on_retrieval
  on_retrieval-Shape r s h = ground arith

  on_data-Shape :
      (c : ℕ) (r : Request) (s : S)
      → is_finished r.status ≡ false
      → Shape r.max_bytes (on_data db c r s)
  unfolding on_data
  on_data-Shape c r s h = ground arith

  on_space-Shape :
      (st : StatusType) (r : Request) (s : S)
      → r.status ≡ st
      → is_finished st ≡ false
      → Shape r.max_bytes (on_space st db r s)
  unfolding on_space
  on_space-Shape command r s e h = on_command-Shape r s
  on_space-Shape delete_key r s e h = on_key-Shape norep r s refl
  on_space-Shape storage_key r s e h = on_key-Shape flags r s refl
  on_space-Shape flags r s e h = ground arith
  on_space-Shape exptime r s e h = ground arith
  on_space-Shape nbytes r s e h = ground arith
  on_space-Shape norep r s e h = on_norep-Shape r s
  on_space-Shape retrieval_key r s e h = on_retrieval-Shape r s (rw e)
  on_space-Shape retrieval_keys r s e h = on_retrieval-Shape r s (rw e)
  on_space-Shape data_block r s e h = (rw e, refl)
  on_space-Shape finished r s e h = cc
  on_space-Shape quitting r s e h = (rw e, refl)

  step-Shape :
      (c : ℕ) (w : Request × S) → is_finished w.0.status ≡ false → Shape w.0.max_bytes (step db c w)
  unfolding step
  step-Shape c (r, s) h = elim (Bool-cases (is_data_block r.status)) [
    | inl e ↦ rw e (on_data-Shape c r s h)
    | inr e ↦ rw e (elim (Bool-cases (is_white_space c)) [
      | inl blank ↦ rw blank (on_space-Shape r.status r s refl h)
      | inr char ↦ rw char (h, refl)
    ])
  ]

  chain-Shape :
      (m : ℕ) (f : Flow (Request × S)) (k : Request × S → Flow (Request × S))
      → Shape m f
      → ((w : Request × S) → is_finished w.0.status ≡ false → Shape w.0.max_bytes (k w))
      → Shape m (chain f k)
  chain-Shape m (next w) k h rest = subst (λ n. Shape n (k w)) h.1 (rest w h.0)
  chain-Shape m (done w) k h rest = h
  chain-Shape m (throw w what) k h rest = h

  pub run-Shape :
      (cs : Bytes) (w : Request × S)
      → is_finished w.0.status ≡ false
      → Shape w.0.max_bytes (run db cs w)
  run-Shape [] w h = unfold run in (h, refl)
  run-Shape (c ∷ cs) w h =
      rw (run-cons c cs w)
        (chain-Shape w.0.max_bytes (step db c w) (run db cs) (step-Shape c w h) (run-Shape cs))

  pub process_small :
      (chunk : Bytes) (w : Request × S)
      → is_too_large w.0 chunk ≡ false
      → process db chunk w ≡ settle (run db chunk w)
  unfolding process
  process_small chunk (r, s) h = rw h

  pub process_unlimited :
      (chunk : Bytes) (w : Request × S)
      → w.0.max_bytes ≡ 0
      → process db chunk w ≡ settle (run db chunk w)
  unfolding process
  process_unlimited chunk (r, s) h = rw h

  settle-chain :
      (m : ℕ) (f : Flow (Request × S)) (b : Bytes)
      → m ≡ 0
      → Shape m f
      → settle (chain f (run db b))
        ≡ (if is_finished (settle f).0.status then settle f else process db b (settle f))
  unfolding client_error
  settle-chain m (next w) b z h = rw h.0 (sym (process_unlimited b w (h.1 ∙ z)))
  settle-chain m (done w) b z h = rw h.0
  settle-chain m (throw w what) b z h = refl

  -- With no limit on its size, and while it is not finished, a request may be cut into chunks
  -- anywhere. If the first chunk finishes it, then the second is what the caller still has to
  -- deal with: `process` drops what one chunk holds behind the end of a request.
  pub process-append :
      (a b : Bytes) (w : Request × S)
      → w.0.max_bytes ≡ 0
      → is_finished w.0.status ≡ false
      → process db (a ++ b) w ≡ (
          if is_finished (process db a w).0.status
          then process db a w
          else process db b (process db a w))
  process-append a b w z h =
      rw (process_unlimited (a ++ b) w z, process_unlimited a w z, run-append a b w)
        (settle-chain w.0.max_bytes (run db a w) b z (run-Shape a w h))
