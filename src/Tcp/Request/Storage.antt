-- ===== src/Tcp/Request/Storage.antt =====
-- The storage commands, from the text that a client sends (README.md) to the call of the handler.
use quitsies.Prelude.{
  ℕ, Bool, true, false, ◌≡◌, ◌≢◌, refl, ◌∙◌, [], ◌∷◌, ◌++◌, Option, ok, length, ◌<◌, ◌^◌, arith,
}
use quitsies.Prelude.Int.{pos}
use quitsies.Text.{Bytes, codes, crlf}
use quitsies.Text.Decimal.{print}
use quitsies.Db.Store.{Store}
use quitsies.Tcp.Request.Types.{
  Request, storage_key, flags, exptime, nbytes, norep, data_block, CommandType, init,
}
use quitsies.Tcp.Request.Command.{is_white_space, status_from_command}
use quitsies.Tcp.Request.Response.{prepare_response}
use quitsies.Tcp.Request.Process.{
  done, on_space, run, process, step, on_data, is_too_large, to_size,
}
use quitsies.Tcp.Request.Words.{
  IsWord, name, name-IsWord, print-IsWord, run_on, run_ends, run-data, on_command-name, on_key-word,
  on_number-print,
}

-- What stands behind the number of bytes.
abbrev pub suffix : Bool → Bytes
suffix true = codes " noreply"
suffix false = []

-- The line up to the number of bytes.
abbrev pub storage_line : CommandType → Bytes → ℕ → ℕ → Bytes → Bytes
storage_line c key fl ex rest =
    name c ++ (b' ' ∷ (key ++ (b' ' ∷ (print fl ++ (b' ' ∷ (print ex ++ (b' ' ∷ rest)))))))

-- `<command> <key> <flags> <exptime> <bytes> [noreply]\r\n<data>\r\n`
abbrev pub storage_request : CommandType → Bytes → ℕ → ℕ → Bool → Bytes → Bytes
storage_request c key fl ex quiet body =
    storage_line c key fl ex (print (length body) ++ (suffix quiet ++ (crlf ++ (body ++ crlf))))

-- The request as it is parsed, at its data block.
abbrev pub parsed : ℕ → CommandType → Bytes → ℕ → ℕ → Bool → Bytes → Request
parsed limit c key fl ex quiet body = record {
  max_bytes = limit;
  status = data_block;
  buffer = body;
  response = [];
  cmd = c;
  keys = key ∷ [];
  flags_value = pos fl;
  exp_time = pos ex;
  remaining = 0;
  no_reply = quiet;
}

-- The same before the data block, with the number of bytes read.
abbrev pub counted : ℕ → CommandType → Bytes → ℕ → ℕ → Bool → ℕ → Request
counted limit c key fl ex quiet n = record (parsed limit c key fl ex quiet []) {
  status = norep;
  remaining = n;
}

-- The request behind the command, the key, the flags and the time.
abbrev at_key : ℕ → CommandType → Request
at_key limit c = record (counted limit c [] 0 0 false 0) { keys = []; status = storage_key }

abbrev at_flags : ℕ → CommandType → Bytes → Request
at_flags limit c key = record (counted limit c key 0 0 false 0) { status = flags }

abbrev at_exptime : ℕ → CommandType → Bytes → ℕ → Request
at_exptime limit c key fl = record (counted limit c key fl 0 false 0) { status = exptime }

abbrev pub at_nbytes : ℕ → CommandType → Bytes → ℕ → ℕ → Request
at_nbytes limit c key fl ex = record (counted limit c key fl ex false 0) { status = nbytes }

pub noreply-IsWord : IsWord (codes "noreply")
unfolding is_white_space
noreply-IsWord = (refl, (refl, (refl, (refl, (refl, (refl, (refl, tt)))))))

module _ {S : Type 0} (db : Option (Store S)) (limit : ℕ) (c junk : CommandType) where
  -- The command, the key, the flags and the time.
  pub run_params :
      (key rest : Bytes) (fl ex : ℕ) (s : S)
      → status_from_command c ≡ ok storage_key
      → IsWord key
      → key ≢ []
      → fl < 2 ^ 31
      → ex < 2 ^ 31
      → run db (storage_line c key fl ex rest) (init junk limit, s)
        ≡ run db rest (at_nbytes limit c key fl ex, s)
  unfolding on_space init is_white_space
  run_params key rest fl ex s sc wk ne hf he =
      run_on db (name c) b' ' _ (init junk limit) s (at_key limit c, s) refl (name-IsWord c) refl
        (on_command-name db c storage_key (record (init junk limit) { buffer = name c }) s refl sc
          refl)
      ∙ run_on db key b' ' _ (at_key limit c) s (at_flags limit c key, s) refl wk refl
          (on_key-word db flags (record (at_key limit c) { buffer = key }) s ne)
      ∙ run_on db (print fl) b' ' _ (at_flags limit c key) s (at_exptime limit c key fl, s) refl
          (print-IsWord fl) refl
          (on_number-print db fl (λ k q. record q { flags_value = k }) exptime
            (record (at_flags limit c key) { buffer = print fl }) s hf refl)
      ∙ run_on db (print ex) b' ' rest (at_exptime limit c key fl) s
          (at_nbytes limit c key fl ex, s) refl (print-IsWord ex) refl
          (on_number-print db ex (λ k q. record q { exp_time = k }) nbytes
            (record (at_exptime limit c key fl) { buffer = print ex }) s he refl)

  -- The number of bytes.
  pub run_count :
      (key rest : Bytes) (fl ex n mark : ℕ) (s : S)
      → n < 2 ^ 31
      → is_white_space mark ≡ true
      → run db (print n ++ (mark ∷ rest)) (at_nbytes limit c key fl ex, s)
        ≡ run db rest (counted limit c key fl ex false n, s)
  unfolding on_space
  run_count key rest fl ex n mark s hn blank =
      run_on db (print n) mark rest (at_nbytes limit c key fl ex) s
        (counted limit c key fl ex false n, s) refl (print-IsWord n) blank
        (on_number-print db n (λ k q. record q { remaining = to_size k }) norep
          (record (at_nbytes limit c key fl ex) { buffer = print n }) s hn refl)

  pub run_behind :
      (r : Request) (s : S)
      → r.status ≡ data_block
      → r.remaining ≡ 0
      → run db crlf (r, s) ≡ done (prepare_response db r s)
  unfolding run step on_data
  run_behind r s d h = rw (d, h)

  -- The end of the line, and the data block.
  pub run_block :
      (key body rest : Bytes) (fl ex : ℕ) (quiet : Bool) (s : S)
      → body ≢ []
      → run db (b'\n' ∷ (body ++ rest)) (counted limit c key fl ex quiet (length body), s)
        ≡ run db rest (parsed limit c key fl ex quiet body, s)
  unfolding on_space is_white_space
  run_block key [] rest fl ex quiet s n = absurd (n refl)
  run_block key (b ∷ bs) rest fl ex quiet s n =
      run_on db [] b'\n' ((b ∷ bs) ++ rest) (counted limit c key fl ex quiet (length (b ∷ bs))) s
        (record (counted limit c key fl ex quiet (length (b ∷ bs))) { status = data_block }, s) refl
        tt refl (ground arith)
      ∙ run-data db (b ∷ bs) rest 0 _ s refl (omega arith)

  -- The same with the first byte behind the data. An empty block ends with its line.
  run_body :
      (key body : Bytes) (fl ex : ℕ) (quiet : Bool) (s : S)
      → run db (b'\n' ∷ (body ++ crlf)) (counted limit c key fl ex quiet (length body), s)
        ≡ done (prepare_response db (parsed limit c key fl ex quiet body) s)
  unfolding on_space is_white_space prepare_response
  run_body key [] fl ex quiet s =
      run_ends db [] b'\n' crlf (counted limit c key fl ex quiet 0) s _ refl tt refl refl
  run_body key (b ∷ bs) fl ex quiet s =
      run_block key (b ∷ bs) crlf fl ex quiet s (λ e. cc (e))
      ∙ run_behind (parsed limit c key fl ex quiet (b ∷ bs)) s refl refl

  run_quiet :
      (key rest : Bytes) (fl ex n : ℕ) (s : S)
      → run db (codes "noreply" ++ (b'\r' ∷ rest)) (counted limit c key fl ex false n, s)
        ≡ run db rest (counted limit c key fl ex true n, s)
  unfolding is_white_space on_space
  run_quiet key rest fl ex n s =
      run_on db (codes "noreply") b'\r' rest (counted limit c key fl ex false n) s
        (counted limit c key fl ex true n, s) refl noreply-IsWord refl refl

  -- The whole line, up to its carriage return.
  pub run_line :
      (key rest : Bytes) (fl ex n : ℕ) (quiet : Bool) (s : S)
      → status_from_command c ≡ ok storage_key
      → IsWord key
      → key ≢ []
      → fl < 2 ^ 31
      → ex < 2 ^ 31
      → n < 2 ^ 31
      → run db
          (storage_line c key fl ex (print n ++ (suffix quiet ++ (b'\r' ∷ rest))))
          (init junk limit, s)
        ≡ run db rest (counted limit c key fl ex quiet n, s)
  unfolding is_white_space
  run_line key rest fl ex n false s sc wk ne hf he hn =
      run_params key _ fl ex s sc wk ne hf he ∙ run_count key rest fl ex n b'\r' s hn refl
  run_line key rest fl ex n true s sc wk ne hf he hn =
      run_params key _ fl ex s sc wk ne hf he
      ∙ run_count key _ fl ex n b' ' s hn refl
      ∙ run_quiet key rest fl ex n s

  -- A storage request that a client sends in one chunk, of whatever data, reaches its handler with
  -- the key, the numbers, the `noreply` flag and exactly the data that the client wrote, provided
  -- that the key is a word, the numbers fit an `int`, and the size limit lets the chunk pass.
  pub process-storage_request :
      (key body : Bytes) (fl ex : ℕ) (quiet : Bool) (s : S)
      → status_from_command c ≡ ok storage_key
      → IsWord key
      → key ≢ []
      → fl < 2 ^ 31
      → ex < 2 ^ 31
      → length body < 2 ^ 31
      → is_too_large (init junk limit) (storage_request c key fl ex quiet body) ≡ false
      → process db (storage_request c key fl ex quiet body) (init junk limit, s)
        ≡ prepare_response db (parsed limit c key fl ex quiet body) s
  unfolding process
  process-storage_request key body fl ex quiet s sc wk ne hf he hn small = rw (
    small,
    run_line key (b'\n' ∷ (body ++ crlf)) fl ex (length body) quiet s sc wk ne hf he hn,
    run_body key body fl ex quiet s,
  )
