-- ===== src/Tcp/Request/Process.antt =====
-- `request::process`: src/quitsies/tcp/request.cpp. One byte is a step, and the loop a recursion on
-- the bytes. The database is the pointer `_db`, which may be null.
use quitsies.Prelude.{
  ℕ, Bool, true, false, [], ◌∷◌, ◌++◌, Option, if◌then◌else◌, Result, ok, err, length, ◌&&◌, ltb,
  leb, ◌==◌, ◌+◌, ◌-◌, ◌%◌, ◌^◌, suc,
}
use quitsies.Prelude.Int.{ℤ, pos, negsuc}
use quitsies.Text.{Bytes, codes, crlf, eqb}
use quitsies.Text.Stoi.{stoi}
use quitsies.Db.Store.{Store}
use quitsies.Tcp.Request.Types.{
  Request, StatusType, command, delete_key, storage_key, flags, exptime, nbytes, norep, data_block,
  retrieval_key, retrieval_keys, finished,
}
use quitsies.Tcp.Request.Command.{is_white_space, command_from_str, status_from_command}
use quitsies.Tcp.Request.Response.{prepare_response}

-- A `size_t` has 64 bits.
abbrev pub size_mod : ℕ
size_mod = 2 ^ 64

-- The conversion of an `int` to `size_t`.
abbrev pub to_size : ℤ → ℕ
to_size (pos n) = n
to_size (negsuc n) = size_mod - suc n

-- How the body of the loop ends: it goes on with the next byte, returns, or throws.
pub data Flow (A : Type 0) : Type 0 where
  next done : A → Flow A
  throw : A → Bytes → Flow A

-- What comes next runs only if the body asks for it.
abbrev pub chain : {A : Type 0} → Flow A → (A → Flow A) → Flow A
chain (next a) k = k a
chain (done a) k = done a
chain (throw a what) k = throw a what

abbrev pub is_data_block : StatusType → Bool
is_data_block data_block = true
is_data_block _ = false

abbrev pub is_finished : StatusType → Bool
is_finished finished = true
is_finished _ = false

-- `_buffer << c`.
abbrev pub push : Request → ℕ → Request
push r c = record r { buffer = r.buffer ++ c ∷ [] }

-- `_keys.push_back(_buffer.str())` and the reset of the buffer.
abbrev pub push_key : Request → StatusType → Request
push_key r st = record r { keys = r.keys ++ r.buffer ∷ []; buffer = []; status = st }

-- The `catch` of `process`.
unfoldable pub client_error : Bytes → Request → Request
client_error what r = record r {
  status = finished;
  response = codes "CLIENT_ERROR " ++ (what ++ crlf);
}

-- The test of the size of the chunk with the word being read, in `size_t` arithmetic.
unfoldable pub is_too_large : Request → Bytes → Bool
is_too_large r chunk =
    ltb 0 r.max_bytes && leb r.max_bytes ((length chunk + length r.buffer) % size_mod)

abbrev pub too_large : Bytes
too_large = codes "request size exceeded max bytes"

module _ {S : Type 0} where
  -- White space behind the name of the command.
  unfoldable pub on_command : Option (Store S) → Request → S → Flow (Request × S)
  unfolding command_from_str status_from_command prepare_response
  on_command db r s =
      let c = command_from_str r.buffer in
      let named = record r { cmd = c; buffer = [] } in
      elim (status_from_command c) [
        | err what ↦ throw (named, s) what
        | ok st ↦
            let moved = record named { status = st } in
            if is_finished st then done (prepare_response db moved s) else next (moved, s)
      ]

  -- White space behind a key.
  unfoldable pub on_key : StatusType → Request → S → Flow (Request × S)
  on_key st r s =
      if length r.buffer == 0 then throw (r, s) (codes "invalid key") else next (push_key r st, s)

  -- White space behind a number.
  unfoldable pub on_number : (ℤ → Request → Request) → StatusType → Request → S → Flow (Request × S)
  unfolding stoi
  on_number store st r s = elim (stoi r.buffer) [
    | err what ↦ throw (r, s) what
    | ok n ↦ next (record (store n r) { buffer = []; status = st }, s)
  ]

  -- White space behind the last of the parameters, or behind `noreply`.
  unfoldable pub on_norep : Option (Store S) → Request → S → Flow (Request × S)
  unfolding eqb prepare_response
  on_norep db r s =
      if eqb r.buffer (codes "noreply")
      then next (record r { buffer = []; no_reply = true; status = norep }, s)
      else if ltb 0 r.remaining
      then next (record r { status = data_block }, s)
      else done (prepare_response db r s)

  -- White space in a retrieval command: an empty word ends it.
  unfoldable pub on_retrieval : Option (Store S) → Request → S → Flow (Request × S)
  unfolding on_key prepare_response
  on_retrieval db r s =
      if length r.buffer == 0 then done (prepare_response db r s) else on_key r.status r s

  unfoldable pub on_space : StatusType → Option (Store S) → Request → S → Flow (Request × S)
  unfolding on_command on_key on_number on_norep on_retrieval
  on_space command db r s = on_command db r s
  on_space delete_key db r s = on_key norep r s
  on_space storage_key db r s = on_key flags r s
  on_space flags db r s = on_number (λ n q. record q { flags_value = n }) exptime r s
  on_space exptime db r s = on_number (λ n q. record q { exp_time = n }) nbytes r s
  on_space nbytes db r s = on_number (λ n q. record q { remaining = to_size n }) norep r s
  on_space norep db r s = on_norep db r s
  on_space retrieval_key db r s = on_retrieval db r s
  on_space retrieval_keys db r s = on_retrieval db r s
  on_space _ db r s = next (r, s)

  -- A byte of the data block, or the first one behind it.
  unfoldable pub on_data : Option (Store S) → ℕ → Request → S → Flow (Request × S)
  unfolding prepare_response
  on_data db c r s =
      if ltb 0 r.remaining
      then next (record r { remaining = r.remaining - 1; buffer = r.buffer ++ c ∷ [] }, s)
      else done (prepare_response db r s)

  unfoldable pub step : Option (Store S) → ℕ → Request × S → Flow (Request × S)
  unfolding is_white_space on_space on_data
  step db c (r, s) =
      if is_data_block r.status
      then on_data db c r s
      else if is_white_space c
      then on_space r.status db r s
      else next (push r c, s)

  -- The loop over the bytes received.
  unfoldable pub run : Option (Store S) → Bytes → Request × S → Flow (Request × S)
  unfolding step
  run db [] w = next w
  run db (c ∷ cs) w = chain (step db c w) (λ v. run db cs v)

  abbrev pub settle : Flow (Request × S) → Request × S
  settle (next w) = w
  settle (done w) = w
  settle (throw (r, s) what) = (client_error what r, s)

  unfoldable pub process : Option (Store S) → Bytes → Request × S → Request × S
  unfolding run client_error is_too_large
  process db chunk (r, s) =
      if is_too_large r chunk then (client_error too_large r, s) else settle (run db chunk (r, s))

-- `get_response` throws before the request is finished.
unfoldable pub get_response : Request → Result Bytes
get_response r =
    if is_finished r.status then ok r.response else err (codes "request not fully parsed")
