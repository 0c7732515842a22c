-- ===== src/Tcp/Request/Malformed.antt =====
-- Requests that do not follow the protocol, or that arrive in pieces the code does not expect.
use quitsies.Prelude.{
  ℕ, suc, ◌+◌, ◌-◌, ◌^◌, ◌≤◌, ◌<◌, true, false, ◌≡◌, ◌≢◌, refl, ap, sym, ◌∙◌, [], ◌∷◌, ◌++◌, Option,
  ok, arith, length, append-nil,
}
use quitsies.Text.Stoi.{stoi-minus}
use quitsies.Text.{Bytes, codes, crlf, eqb_iff}
use quitsies.Text.Decimal.{print}
use quitsies.Db.Store.{Store}
use quitsies.Tcp.Request.Types.{
  Request, storage_key, norep, data_block, CommandType, no_command, init, nbytes,
}
use quitsies.Tcp.Request.Command.{
  unsupported, is_white_space, command_from_str, status_from_command,
}
use quitsies.Tcp.Request.Response.{prepare_response}
use quitsies.Tcp.Request.Process.{
  next, throw, on_command, on_norep, on_space, run, settle, process, client_error, is_too_large,
  size_mod,
}
use quitsies.Tcp.Request.Chunks.{run-nil, process_small}
use quitsies.Tcp.Request.Words.{IsWord, run-word_space, run_on, run-data, print-IsWord}
use quitsies.Tcp.Request.Storage.{
  parsed, storage_line, at_nbytes, counted, run_params, run_count, run_behind,
}

module _ {S : Type 0} (db : Option (Store S)) (limit : ℕ) (junk : CommandType) where
  on_command-unknown :
      (r : Request) (s : S)
      → command_from_str r.buffer ≡ no_command
      → on_command db r s ≡ throw (record r { cmd = no_command; buffer = [] }, s) unsupported
  unfolding on_command
  on_command-unknown r s h =
      rw (h, on_command) (λ i. throw (record r { cmd = h i; buffer = [] }, s) unsupported)

  -- A line that does not begin with the name of a command is refused at its first white space: the
  -- reply is an error, the rest of the chunk is dropped and the database is not called. The word
  -- may be empty, so that a line feed which arrives behind a finished request is refused too.
  pub process_unknown :
      (w : Bytes) (mark : ℕ) (rest : Bytes) (s : S)
      → IsWord w
      → is_white_space mark ≡ true
      → command_from_str w ≡ no_command
      → is_too_large (init junk limit) (w ++ mark ∷ rest) ≡ false
      → process db (w ++ mark ∷ rest) (init junk limit, s)
        ≡ (client_error unsupported (init no_command limit), s)
  unfolding process init on_space client_error
  process_unknown w mark rest s hw blank h small = rw (
    small,
    run-word_space db w mark rest (init junk limit) s refl hw blank,
    on_command-unknown (record (init junk limit) { buffer = w }) s h,
  )

-- `<command> <key> <flags> <exptime> <bytes> <word>\r` and what follows.
abbrev pub extra_word_request : CommandType → Bytes → ℕ → ℕ → Bytes → Bytes → Bytes
extra_word_request c key fl ex word body =
    storage_line c key fl ex (print (length body) ++ (b' ' ∷ (word ++ (b'\r' ∷ (body ++ crlf)))))

-- `<command> <key> <flags> <exptime> -<n + 1>\r\n` and what follows.
abbrev pub negative_request : CommandType → Bytes → ℕ → ℕ → ℕ → Bytes → Bytes
negative_request c key fl ex n body =
    storage_line c key fl ex ((b'-' ∷ print (suc n)) ++ (b'\r' ∷ (b'\n' ∷ body)))

module _ {S : Type 0} (db : Option (Store S)) (limit : ℕ) (c junk : CommandType) where
  on_count-minus :
      (r : Request) (n : ℕ) (s : S)
      → n < 2 ^ 31
      → r.buffer ≡ b'-' ∷ print (suc n)
      → on_space nbytes db r s
        ≡ next (record r { remaining = size_mod - suc n; buffer = []; status = norep }, s)
  unfolding on_space
  on_count-minus r n s h e = ground (arith, stoi-minus n)

  on_norep-word :
      (r : Request) (s : S)
      → r.buffer ≢ codes "noreply"
      → 0 < r.remaining
      → on_norep db r s ≡ next (record r { status = data_block }, s)
  unfolding on_norep
  on_norep-word r s ne h = ground (arith, eqb_iff r.buffer (codes "noreply"))

  -- A word behind the number of bytes that is not `noreply` is not refused and not skipped: it
  -- becomes the beginning of the value that is stored, in front of the data. `word` is that word,
  -- and the count is that of `body`, which begins with the line feed of the line.
  pub process_extra_word :
      (key word body : Bytes) (fl ex : ℕ) (s : S)
      → status_from_command c ≡ ok storage_key
      → IsWord key
      → key ≢ []
      → IsWord word
      → word ≢ codes "noreply"
      → fl < 2 ^ 31
      → ex < 2 ^ 31
      → 0 < length body
      → length body < 2 ^ 31
      → is_too_large (init junk limit) (extra_word_request c key fl ex word body) ≡ false
      → process db (extra_word_request c key fl ex word body) (init junk limit, s)
        ≡ prepare_response db (parsed limit c key fl ex false (word ++ body)) s
  unfolding is_white_space on_space
  process_extra_word key word body fl ex s sc wk ne ww nn hf he hp hn small =
      let line = counted limit c key fl ex false (length body) in
      let begun = record line { status = data_block; buffer = word } in
      process_small db (extra_word_request c key fl ex word body) (init junk limit, s) small
      ∙ ap settle (
          run_params db limit c junk key _ fl ex s sc wk ne hf he
          ∙ run_count db limit c junk key _ fl ex (length body) b' ' s hn refl
          ∙ run_on db word b'\r' (body ++ crlf) line s (begun, s) refl ww refl
              (on_norep-word (record line { buffer = word }) s nn hp)
          ∙ run-data db body crlf 0 begun s refl (omega arith)
          ∙ run_behind db limit c junk (parsed limit c key fl ex false (word ++ body)) s refl refl)

  -- A negative number of bytes is not refused: as a `size_t` it is close to the largest there is,
  -- so that whatever the client sends next is taken for data, with no reply and no call of the
  -- database.
  pub process_negative :
      (key body : Bytes) (fl ex n : ℕ) (s : S)
      → status_from_command c ≡ ok storage_key
      → IsWord key
      → key ≢ []
      → fl < 2 ^ 31
      → ex < 2 ^ 31
      → n < 2 ^ 31
      → length body + suc n ≤ size_mod
      → is_too_large (init junk limit) (negative_request c key fl ex n body) ≡ false
      → process db (negative_request c key fl ex n body) (init junk limit, s) ≡ (
        record (parsed limit c key fl ex false body) { remaining = size_mod - suc n - length body },
        s,
      )
  unfolding is_white_space on_space
  process_negative key body fl ex n s sc wk ne hf he hn room small =
      let line = counted limit c key fl ex false (size_mod - suc n) in
      let begun = record line { status = data_block } in
      process_small db (negative_request c key fl ex n body) (init junk limit, s) small
      ∙ ap settle (
          run_params db limit c junk key _ fl ex s sc wk ne hf he
          ∙ run_on db (b'-' ∷ print (suc n)) b'\r' (b'\n' ∷ body) (at_nbytes limit c key fl ex) s
              (line, s) refl (refl, print-IsWord (suc n)) refl
              (on_count-minus
                (record (at_nbytes limit c key fl ex) { buffer = b'-' ∷ print (suc n) }) n s hn
                refl)
          ∙ run_on db [] b'\n' body line s (begun, s) refl tt refl
              (on_norep-word line s (λ e. cc) (omega arith))
          ∙ ap (λ b. run db b (begun, s)) (sym (append-nil body))
          ∙ run-data db body [] (size_mod - suc n - length body) begun s refl (omega arith)
          ∙ run-nil db _)
