-- ===== src/Tcp/Memcached/Cuts.antt =====
-- Where the text of a command may be cut into chunks: what `request::process` makes of a beginning
-- of it.
use quitsies.Prelude.{
  ℕ, Bool, false, ◌≡◌, ◌≢◌, refl, sym, ap, ◌∙◌, List, [], ◌∷◌, ◌++◌, append-nil, append_assoc,
  Option, ok, All, length, ◌<◌, ◌^◌, if◌then◌else◌, arith,
}
use quitsies.Text.{Bytes, crlf}
use quitsies.Text.Decimal.{print}
use quitsies.Db.Store.{Store}
use quitsies.Tcp.Request.Types.{
  Request, CommandType, set, add, get, gets, delete, quitting, storage_key, retrieval_key, init,
}
use quitsies.Tcp.Request.Command.{status_from_command}
use quitsies.Tcp.Request.Words.{name}
use quitsies.Tcp.Request.Process.{next, run, process, settle, is_finished}
use quitsies.Tcp.Request.Chunks.{run-nil, process_unlimited, process-append}
use quitsies.Tcp.Request.Partial.{begun, Waiting, run-prefix, begun-Waiting}
use quitsies.Tcp.Request.Storage.{suffix, storage_line, counted, run_line, run_block}
use quitsies.Tcp.Request.Retrieval.{
  IsKey, separator, words, parsed_keys, run-words, run_name, run_delete_line,
}
use quitsies.Tcp.Memcached.Spec.{Op, set_op, add_op, get_op, gets_op, delete_op, IsOp, request_of}

-- What finishes a storage command: the byte behind the data, or the end of its line when there are
-- none.
abbrev storage_end : Bytes → Bytes
storage_end [] = b'\n' ∷ crlf
storage_end (b ∷ bs) = crlf

abbrev data_stem : Bytes → Bytes
data_stem [] = []
data_stem (b ∷ bs) = b'\n' ∷ b ∷ bs

abbrev storage_stem : CommandType → Bytes → ℕ → ℕ → Bool → Bytes → Bytes
storage_stem c key fl ex quiet body =
    storage_line c key fl ex (print (length body) ++ (suffix quiet ++ (b'\r' ∷ data_stem body)))

-- The longest beginning of a command that does not finish it, and the rest.
abbrev pub stem : Op → Bytes
stem (set_op key fl ex quiet value) = storage_stem set key fl ex quiet value
stem (add_op key fl ex quiet value) = storage_stem add key fl ex quiet value
stem (get_op keys) = name get ++ separator keys ∷ words keys
stem (gets_op keys) = name gets ++ separator keys ∷ words keys
stem (delete_op key quiet) = name delete ++ b' ' ∷ (key ++ (suffix quiet ++ b'\r' ∷ []))

abbrev pub end_of : Op → Bytes
end_of (set_op key fl ex quiet value) = storage_end value
end_of (add_op key fl ex quiet value) = storage_end value
end_of _ = b'\n' ∷ []

data_stem-end :
    (body : Bytes) → b'\r' ∷ (data_stem body ++ storage_end body) ≡ crlf ++ (body ++ crlf)
data_stem-end [] = refl
data_stem-end (b ∷ bs) = refl

storage_stem-end :
    (c : CommandType) (key : Bytes) (fl ex : ℕ) (quiet : Bool) (body : Bytes)
    → storage_stem c key fl ex quiet body ++ storage_end body
      ≡ storage_line c key fl ex (print (length body) ++ (suffix quiet ++ (crlf ++ (body ++ crlf))))
storage_stem-end c key fl ex quiet body = simp (append_assoc) (rw (sym (data_stem-end body)) refl)

pub stem-end_of : (op : Op) → stem op ++ end_of op ≡ request_of op
stem-end_of (set_op key fl ex quiet value) = storage_stem-end set key fl ex quiet value
stem-end_of (add_op key fl ex quiet value) = storage_stem-end add key fl ex quiet value
stem-end_of (get_op keys) = append_assoc (name get) (separator keys ∷ words keys) _
stem-end_of (gets_op keys) = append_assoc (name gets) (separator keys ∷ words keys) _
stem-end_of (delete_op key quiet) = simp append_assoc refl

module _ {S : Type 0} (db : Option (Store S)) (junk : CommandType) where
  abbrev fresh : Request
  fresh = init junk 0

  -- The loop goes on behind these bytes, with the database as it was, and the request does not quit.
  abbrev GoesOn : Bytes → S → Type 0
  GoesOn bytes s = (q : Request) × (run db bytes (fresh, s) ≡ next (q, s)) × (q.status ≢ quitting)

  storage-GoesOn :
      (c : CommandType) (key : Bytes) (fl ex : ℕ) (quiet : Bool) (body : Bytes) (s : S)
      → status_from_command c ≡ ok storage_key
      → IsKey key × (fl < 2 ^ 31) × (ex < 2 ^ 31) × (length body < 2 ^ 31)
      → GoesOn (storage_stem c key fl ex quiet body) s
  storage-GoesOn c key fl ex quiet [] s sc h = (
    _,
    run_line db 0 c junk key [] fl ex 0 quiet s sc h.0.0 h.0.1 h.1 h.2 (omega arith) ∙ run-nil db _,
    λ e. cc (e),
  )
  storage-GoesOn c key fl ex quiet (b ∷ bs) s sc h = (
    _,
    run_line db 0 c junk key (b'\n' ∷ b ∷ bs) fl ex (length (b ∷ bs)) quiet s sc h.0.0 h.0.1 h.1 h.2
          h.3
        ∙ ap (λ l. run db (b'\n' ∷ l) (counted 0 c key fl ex quiet (length (b ∷ bs)), s))
            (sym (append-nil (b ∷ bs)))
        ∙ run_block db 0 c junk key (b ∷ bs) [] fl ex quiet s (λ e. cc (e))
        ∙ run-nil db _,
    λ e. cc (e),
  )

  retrieval-GoesOn :
      (c : CommandType) (keys : List Bytes) (s : S)
      → status_from_command c ≡ ok retrieval_key
      → All IsKey keys
      → GoesOn (name c ++ separator keys ∷ words keys) s
  retrieval-GoesOn c keys s sc h = (
    _,
    run_name db 0 c junk keys (words keys) s sc
        ∙ ap (λ l. run db l (parsed_keys 0 c retrieval_key [] false, s))
            (sym (append-nil (words keys)))
        ∙ run-words db 0 c junk keys [] [] s h
        ∙ run-nil db _,
    λ e. cc (e),
  )

  stem-GoesOn : (op : Op) (s : S) → IsOp op → GoesOn (stem op) s
  unfolding status_from_command
  stem-GoesOn (set_op key fl ex quiet value) s h = storage-GoesOn set key fl ex quiet value s refl h
  stem-GoesOn (add_op key fl ex quiet value) s h = storage-GoesOn add key fl ex quiet value s refl h
  stem-GoesOn (get_op keys) s h = retrieval-GoesOn get keys s refl h
  stem-GoesOn (gets_op keys) s h = retrieval-GoesOn gets keys s refl h
  stem-GoesOn (delete_op key quiet) s h =
      (_, run_delete_line db 0 junk key [] quiet s h ∙ run-nil db _, λ e. cc (e))

  -- Behind a beginning of a command the request waits, with the database as it was.
  pub process-begun :
      (op : Op) (a b : Bytes) (s : S)
      → IsOp op
      → a ++ b ≡ stem op
      → (process db a (fresh, s) ≡ (begun fresh a, s)) × Waiting db (begun fresh a)
  unfolding init
  process-begun op a b s h e =
      let (q, runs, stays) = stem-GoesOn op s h in
      let whole = ap (λ l. run db l (fresh, s)) e ∙ runs in
      (
        process_unlimited db a (fresh, s) refl ∙ ap settle (run-prefix db a b fresh q s s whole).0,
        begun-Waiting db a b fresh q s s refl whole stays,
      )

  -- What comes next is read as if it had come with the beginning.
  process-next :
      (op : Op) (a b more : Bytes) (s : S)
      → IsOp op
      → a ++ b ≡ stem op
      → process db more (begun fresh a, s) ≡ process db (a ++ more) (fresh, s)
  unfolding init
  process-next op a b more s h e =
      let (behind, waits) = process-begun op a b s h e in
      sym (
        process-append db a more (fresh, s) refl refl
        ∙ ap (λ w. if is_finished w.0.status then w else process db more w) behind
        ∙ rw waits.0 refl)

  -- A chunk that does not finish the command, and the one that does.
  pub process-piece :
      (op : Op) (a piece b : Bytes) (s : S)
      → IsOp op
      → (a ++ piece) ++ b ≡ stem op
      → process db piece (begun fresh a, s) ≡ (begun fresh (a ++ piece), s)
  process-piece op a piece b s h e =
      process-next op a (piece ++ b) piece s h (sym (append_assoc a piece b) ∙ e)
      ∙ (process-begun op (a ++ piece) b s h e).0

  pub process-last :
      (op : Op) (a b : Bytes) (s : S)
      → IsOp op
      → a ++ b ≡ stem op
      → process db (b ++ end_of op) (begun fresh a, s) ≡ process db (request_of op) (fresh, s)
  process-last op a b s h e =
      process-next op a b (b ++ end_of op) s h e
      ∙ ap (λ l. process db l (fresh, s))
          (sym (append_assoc a b (end_of op)) ∙ ap (λ l. l ++ end_of op) e ∙ stem-end_of op)
