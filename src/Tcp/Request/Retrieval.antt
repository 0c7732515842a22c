-- ===== src/Tcp/Request/Retrieval.antt =====
-- The retrieval and deletion commands, from the text that a client sends to the call of the handler.
use quitsies.Prelude.{
  ℕ, Bool, true, false, ◌≡◌, ◌≢◌, refl, sym, ap, ◌∙◌, List, [], ◌∷◌, ◌++◌, Option, ok, arith,
  append-nil, append_assoc, All,
}
use quitsies.Prelude.Int.{pos}
use quitsies.Text.{Bytes, codes, crlf}
use quitsies.Db.Store.{Store}
use quitsies.Tcp.Request.Types.{
  Request, StatusType, delete_key, norep, retrieval_key, CommandType, delete, init,
}
use quitsies.Tcp.Request.Command.{is_white_space, status_from_command}
use quitsies.Tcp.Request.Response.{prepare_response}
use quitsies.Tcp.Request.Process.{
  next, done, push_key, on_retrieval, on_space, run, process, is_too_large,
}
use quitsies.Tcp.Request.Words.{
  IsWord, name, name-IsWord, run_on, run_ends, on_command-name, on_key-word,
}
use quitsies.Tcp.Request.Storage.{suffix, noreply-IsWord}

-- A key that a client can write.
abbrev pub IsKey : Bytes → Type 0
IsKey key = IsWord key × (key ≢ [])

-- What separates a key, or the end of the line, from what stands before it.
abbrev pub separator : List Bytes → ℕ
separator [] = b'\r'
separator (key ∷ keys) = b' '

abbrev pub words : List Bytes → Bytes
words [] = []
words (key ∷ keys) = key ++ separator keys ∷ words keys

-- `<command> <key>*\r\n`
abbrev pub retrieval_request : CommandType → List Bytes → Bytes
retrieval_request c keys = name c ++ separator keys ∷ (words keys ++ b'\n' ∷ [])

-- `delete <key> [noreply]\r\n`
abbrev pub delete_request : Bytes → Bool → Bytes
delete_request key quiet = name delete ++ b' ' ∷ (key ++ (suffix quiet ++ crlf))

-- The request as it is parsed, at the end of its line.
abbrev pub parsed_keys : ℕ → CommandType → StatusType → List Bytes → Bool → Request
parsed_keys limit c st keys quiet = record {
  max_bytes = limit;
  status = st;
  buffer = [];
  response = [];
  cmd = c;
  keys = keys;
  flags_value = pos 0;
  exp_time = pos 0;
  remaining = 0;
  no_reply = quiet;
}

separator_blank : (keys : List Bytes) → is_white_space (separator keys) ≡ true
unfolding is_white_space
separator_blank [] = refl
separator_blank (key ∷ keys) = refl

module _ {S : Type 0} (db : Option (Store S)) (limit : ℕ) (c junk : CommandType) where
  on_retrieval-word :
      (r : Request) (s : S) → r.buffer ≢ [] → on_retrieval db r s ≡ next (push_key r r.status, s)
  unfolding on_retrieval
  on_retrieval-word r s h = ground arith

  pub run-words :
      (keys seen : List Bytes) (rest : Bytes) (s : S)
      → All IsKey keys
      → run db (words keys ++ rest) (parsed_keys limit c retrieval_key seen false, s)
        ≡ run db rest (parsed_keys limit c retrieval_key (seen ++ keys) false, s)
  unfolding on_space is_white_space
  run-words [] seen rest s h =
      ap (λ ks. run db rest (parsed_keys limit c retrieval_key ks false, s)) (sym (append-nil seen))
  run-words (key ∷ keys) seen rest s h =
      ap (λ bytes. run db bytes (parsed_keys limit c retrieval_key seen false, s))
        (append_assoc key (separator keys ∷ words keys) rest)
      ∙ run_on db key (separator keys) (words keys ++ rest)
          (parsed_keys limit c retrieval_key seen false) s
          (parsed_keys limit c retrieval_key (seen ++ key ∷ []) false, s) refl h.0.0
          (separator_blank keys)
          (on_retrieval-word
            (record (parsed_keys limit c retrieval_key seen false) { buffer = key }) s h.0.1)
      ∙ run-words keys (seen ++ key ∷ []) rest s h.1
      ∙ rw append_assoc

  run_keys :
      (keys : List Bytes) (s : S)
      → All IsKey keys
      → run db (words keys ++ b'\n' ∷ []) (parsed_keys limit c retrieval_key [] false, s)
        ≡ done (prepare_response db (parsed_keys limit c retrieval_key keys false) s)
  unfolding on_space is_white_space
  run_keys keys s h =
      run-words keys [] (b'\n' ∷ []) s h
      ∙ run_ends db [] b'\n' [] (parsed_keys limit c retrieval_key keys false) s _ refl tt refl refl

  -- The name of the command, and what is behind it.
  pub run_name :
      (keys : List Bytes) (rest : Bytes) (s : S)
      → status_from_command c ≡ ok retrieval_key
      → run db (name c ++ separator keys ∷ rest) (init junk limit, s)
        ≡ run db rest (parsed_keys limit c retrieval_key [] false, s)
  unfolding on_space init
  run_name keys rest s sc =
      run_on db (name c) (separator keys) rest (init junk limit) s
        (parsed_keys limit c retrieval_key [] false, s) refl (name-IsWord c) (separator_blank keys)
        (on_command-name db c retrieval_key (record (init junk limit) { buffer = name c }) s refl sc
          refl)

  -- A retrieval request that a client sends in one chunk reaches its handler with exactly the keys
  -- that the client wrote, in their order, provided that they are words and that the size limit
  -- lets the chunk pass.
  pub process-retrieval_request :
      (keys : List Bytes) (s : S)
      → status_from_command c ≡ ok retrieval_key
      → All IsKey keys
      → is_too_large (init junk limit) (retrieval_request c keys) ≡ false
      → process db (retrieval_request c keys) (init junk limit, s)
        ≡ prepare_response db (parsed_keys limit c retrieval_key keys false) s
  unfolding process on_space init
  process-retrieval_request keys s sc h small =
      rw (small, run_name keys (words keys ++ b'\n' ∷ []) s sc, run_keys keys s h)

module _ {S : Type 0} (db : Option (Store S)) (limit : ℕ) (junk : CommandType) where
  abbrev at_key : StatusType → List Bytes → Bool → Request
  at_key = parsed_keys limit delete

  pub run_delete_line :
      (key rest : Bytes) (quiet : Bool) (s : S)
      → IsKey key
      → run db
          (name delete ++ b' ' ∷ (key ++ (suffix quiet ++ (b'\r' ∷ rest))))
          (init junk limit, s)
        ≡ run db rest (at_key norep (key ∷ []) quiet, s)
  unfolding on_space is_white_space init status_from_command
  run_delete_line key rest quiet s h =
      run_on db (name delete) b' ' _ (init junk limit) s (at_key delete_key [] false, s) refl
        (name-IsWord delete) refl
        (on_command-name db delete delete_key (record (init junk limit) { buffer = name delete }) s
          refl refl refl)
      ∙ run_key quiet
    where
      run_key :
          (q : Bool)
          → run db (key ++ (suffix q ++ (b'\r' ∷ rest))) (at_key delete_key [] false, s)
            ≡ run db rest (at_key norep (key ∷ []) q, s)
      run_key false =
          run_on db key b'\r' rest (at_key delete_key [] false) s (at_key norep (key ∷ []) false, s)
            refl h.0 refl
            (on_key-word db norep (record (at_key delete_key [] false) { buffer = key }) s h.1)
      run_key true =
          run_on db key b' ' (codes "noreply" ++ b'\r' ∷ rest) (at_key delete_key [] false) s
            (at_key norep (key ∷ []) false, s) refl h.0 refl
            (on_key-word db norep (record (at_key delete_key [] false) { buffer = key }) s h.1)
          ∙ run_on db (codes "noreply") b'\r' rest (at_key norep (key ∷ []) false) s
              (at_key norep (key ∷ []) true, s) refl noreply-IsWord refl refl

  run_delete_end :
      (key : Bytes) (quiet : Bool) (s : S)
      → run db (b'\n' ∷ []) (at_key norep (key ∷ []) quiet, s)
        ≡ done (prepare_response db (at_key norep (key ∷ []) quiet) s)
  unfolding on_space is_white_space
  run_delete_end key quiet s =
      run_ends db [] b'\n' [] (at_key norep (key ∷ []) quiet) s _ refl tt refl refl

  -- A deletion request that a client sends in one chunk reaches its handler with the key that the
  -- client wrote and its `noreply` flag, provided that the key is a word and that the size limit
  -- lets the chunk pass.
  pub process-delete_request :
      (key : Bytes) (quiet : Bool) (s : S)
      → IsKey key
      → is_too_large (init junk limit) (delete_request key quiet) ≡ false
      → process db (delete_request key quiet) (init junk limit, s)
        ≡ prepare_response db (at_key norep (key ∷ []) quiet) s
  unfolding process
  process-delete_request key quiet s h small =
      rw (small, run_delete_line key (b'\n' ∷ []) quiet s h ∙ run_delete_end key quiet s)
