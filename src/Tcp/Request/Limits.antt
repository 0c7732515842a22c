-- ===== src/Tcp/Request/Limits.antt =====
-- The limit on the size of a request. `process` compares it with the chunk and the word or data
-- being read, and not with the keys read before.
use quitsies.Prelude.{
  ◌⊎◌, ℕ, suc, ◌+◌, ◌≤◌, ◌<◌, false, ◌≡◌, refl, [], ◌∷◌, Option, arith, Bool-cases, inl, inr,
  length, length-append,
}
use quitsies.Text.{Bytes}
use quitsies.Db.Store.{Store}
use quitsies.Tcp.Request.Types.{Request, StatusType, command}
use quitsies.Tcp.Request.Command.{is_white_space}
use quitsies.Tcp.Request.Process.{
  Flow, next, done, throw, chain, is_data_block, size_mod, on_command, on_space, on_data, step, run,
  settle, process, client_error, is_too_large,
}
use quitsies.Tcp.Request.Chunks.{run-cons}

is_too_large-lt :
    (r : Request) (chunk : Bytes)
    → 0 < r.max_bytes
    → length chunk + length r.buffer < size_mod
    → is_too_large r chunk ≡ false
    → length chunk + length r.buffer < r.max_bytes
unfolding is_too_large
is_too_large-lt r chunk h w e = ground arith

module _ {S : Type 0} (db : Option (Store S)) where
  -- The buffer after a step holds at most one byte more.
  abbrev Grows : ℕ → Flow (Request × S) → Type 0
  Grows n (next w) = length w.0.buffer ≤ n
  Grows n (done w) = length w.0.buffer ≤ n
  Grows n (throw w what) = length w.0.buffer ≤ n

  on_command-Grows : (r : Request) (s : S) → Grows (length r.buffer) (on_command db r s)
  unfolding on_command
  on_command-Grows r s = ground arith

  on_space-Grows :
      (st : StatusType) (r : Request) (s : S) → Grows (length r.buffer) (on_space st db r s)
  unfolding on_space
  on_space-Grows command r s = on_command-Grows r s
  on_space-Grows _ r s = ground arith

  on_data-Grows : (c : ℕ) (r : Request) (s : S) → Grows (suc (length r.buffer)) (on_data db c r s)
  unfolding on_data
  on_data-Grows c r s = ground (arith, length-append r.buffer (c ∷ []))

  Grows-mono : (m n : ℕ) (f : Flow (Request × S)) → m ≤ n → Grows m f → Grows n f
  Grows-mono m n (next w) h g = omega arith
  Grows-mono m n (done w) h g = omega arith
  Grows-mono m n (throw w what) h g = omega arith

  step-Grows : (c : ℕ) (w : Request × S) → Grows (suc (length w.0.buffer)) (step db c w)
  unfolding step
  step-Grows c (r, s) = elim (Bool-cases (is_data_block r.status)) [
    | inl e ↦ rw e (on_data-Grows c r s)
    | inr e ↦ rw e (elim (Bool-cases (is_white_space c)) [
      | inl blank ↦ rw blank (
          Grows-mono (length r.buffer) _ (on_space r.status db r s) (omega arith)
            (on_space-Grows r.status r s))
      | inr char ↦ rw char (omega (arith, length-append r.buffer (c ∷ [])))
    ])
  ]

  run-Grows : (cs : Bytes) (w : Request × S) → Grows (length cs + length w.0.buffer) (run db cs w)
  run-Grows [] w = unfold run in omega arith
  run-Grows (c ∷ cs) w = rw (run-cons db c cs w) (go (step db c w) (run-Grows cs) (step-Grows c w))
    where
      go :
          (f : Flow (Request × S))
          → ((v : Request × S) → Grows (length cs + length v.0.buffer) (run db cs v))
          → Grows (suc (length w.0.buffer)) f
          → Grows (length (c ∷ cs) + length w.0.buffer) (chain f (run db cs))
      go (next v) later h =
          Grows-mono (length cs + length v.0.buffer) _ (run db cs v) (omega arith) (later v)
      go (done v) later h = omega arith
      go (throw v what) later h = omega arith

  settle-Grows : (n : ℕ) (f : Flow (Request × S)) → Grows n f → length (settle f).0.buffer ≤ n
  unfolding client_error
  settle-Grows n (next w) h = h
  settle-Grows n (done w) h = h
  settle-Grows n (throw w what) h = h

  -- With a limit set, the buffer of a request stays below it from chunk to chunk, and the database
  -- is left as it was, unless the chunk fits under the limit together with what the buffer held.
  pub process_within :
      (chunk : Bytes) (r : Request) (s : S)
      → length r.buffer < r.max_bytes
      → length chunk + length r.buffer < size_mod
      → (length (process db chunk (r, s)).0.buffer < r.max_bytes)
        × (((process db chunk (r, s)).1 ≡ s) ⊎ (length chunk + length r.buffer < r.max_bytes))
  unfolding process client_error
  process_within chunk r s h w = elim (Bool-cases (is_too_large r chunk)) [
    | inl large ↦ rw large (h, inl refl)
    | inr small ↦
        let fits = is_too_large-lt r chunk (omega arith) w small in
        let kept = settle-Grows _ (run db chunk (r, s)) (run-Grows chunk (r, s)) in
        rw small (omega arith, inr fits)
  ]
