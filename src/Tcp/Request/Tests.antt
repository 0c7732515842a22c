-- ===== src/Tcp/Request/Tests.antt =====
-- Runs of the parser on the inputs of src/quitsies/tcp/request.test.cpp.
use quitsies.Prelude.{
  ◌⊎◌, ℕ, suc, ◌+◌, ◌-◌, ◌<◌, Bool, true, false, ◌≡◌, refl, [], ◌∷◌, ◌++◌, none, some, arith,
  if◌then◌else◌, ok, err, length,
}
use quitsies.Prelude.Int.{pos}
use quitsies.Text.{Bytes, codes}
use quitsies.Db.Store.{Store}
use quitsies.Db.Memory.{Memory, memory, missing, ok_status}
use quitsies.Tcp.Request.Types.{Request, init, finished, retrieval_key, no_command, gets, set, add}
use quitsies.Tcp.Request.Command.{
  is_white_space, command_from_str, status_from_command, unsupported,
}
use quitsies.Tcp.Request.Response.{respond, prepare_response}
use quitsies.Tcp.Request.Process.{
  process, get_response, is_too_large, is_finished, client_error, size_mod,
}
use quitsies.Tcp.Request.Words.{IsWord}
use quitsies.Tcp.Request.Chunks.{process-append}
use quitsies.Tcp.Request.Storage.{storage_request, parsed, process-storage_request}
use quitsies.Tcp.Request.Retrieval.{retrieval_request, parsed_keys, process-retrieval_request}
use quitsies.Tcp.Request.Endings.{ends_crlf}
use quitsies.Tcp.Request.Complete.{process-ends_crlf}
use quitsies.Tcp.Request.Limits.{process_within}
use quitsies.Tcp.Request.Malformed.{
  extra_word_request, negative_request, process_unknown, process_extra_word, process_negative,
}
use quitsies.Tcp.Request.Locking.{Counted, respond-held}

abbrev empty_memory : Memory
empty_memory = record { items = []; calls = [] }

abbrev fresh : Request × Memory
fresh = (init no_command 0, empty_memory)

set_noreply :
    let r = (process none (codes "set key4 1 1 5 noreply\r\nhello\r\n") fresh).0 in
    (r.status ≡ finished)
    × (r.cmd ≡ set)
    × (r.keys ≡ codes "key4" ∷ [])
    × (r.flags_value ≡ pos 1)
    × (r.exp_time ≡ pos 1)
    × (r.no_reply ≡ true)
    × (r.buffer ≡ codes "hello")
unfolding process init
set_noreply = (refl, refl, refl, refl, refl, refl, refl)

gets_keys :
    (process none (codes "gets key6 key7 key8\r\n") fresh).0.keys
    ≡ codes "key6" ∷ codes "key7" ∷ codes "key8" ∷ []
unfolding process init
gets_keys = refl

ping_response : get_response (process none (codes "ping\r\n") fresh).0 ≡ ok (codes "PONG\r\n")
unfolding process init get_response
ping_response = refl

stored :
    (process (some memory) (codes "set k 0 0 5\r\nhello\r\n") fresh).1.items
    ≡ (codes "k", codes "hello") ∷ []
unfolding process init memory
stored = refl

fetched :
    (process (some memory) (codes "get k\r\n") (
      init no_command 0,
      (process (some memory) (codes "set k 0 0 5\r\nhello\r\n") fresh).1,
    )).0.response
    ≡ codes "VALUE k 0 5\r\nhello\r\nEND\r\n"
unfolding process init memory
fetched = refl

abbrev key_k : Bytes
key_k = codes "k"

key_k-IsWord : IsWord key_k
unfolding is_white_space
key_k-IsWord = (refl, tt)

abbrev hello : Bytes
hello = codes "hello"

process-storage_request_example :
    process (some memory) (storage_request set key_k 7 0 true hello) fresh
    ≡ prepare_response (some memory) (parsed 0 set key_k 7 0 true hello) empty_memory
unfolding status_from_command is_too_large init
process-storage_request_example =
    process-storage_request (some memory) 0 set no_command key_k hello 7 0 true empty_memory refl
      key_k-IsWord (λ e. cc) (omega arith) (omega arith) (omega arith) refl

process-retrieval_request_example :
    process (some memory) (retrieval_request gets (key_k ∷ hello ∷ [])) fresh
    ≡ prepare_response
        (some memory)
        (parsed_keys 0 gets retrieval_key (key_k ∷ hello ∷ []) false)
        empty_memory
unfolding status_from_command is_too_large init is_white_space
process-retrieval_request_example =
    process-retrieval_request (some memory) 0 gets no_command (key_k ∷ hello ∷ []) empty_memory refl
      ((key_k-IsWord, λ e. cc), (((refl, (refl, (refl, (refl, (refl, tt))))), λ e. cc), tt)) refl

process-append_example :
    process (some memory) (codes "add ke" ++ codes "y2 20 0 2\r\nhi\r\n") fresh ≡ (
      if is_finished (process (some memory) (codes "add ke") fresh).0.status
      then process (some memory) (codes "add ke") fresh
      else process
          (some memory)
          (codes "y2 20 0 2\r\nhi\r\n")
          (process (some memory) (codes "add ke") fresh))
unfolding init
process-append_example =
    process-append (some memory) (codes "add ke") (codes "y2 20 0 2\r\nhi\r\n") fresh refl refl

process-ends_crlf_example :
    ends_crlf (process (some memory) (codes "get k\r\n") fresh).0.response ≡ true
unfolding process init
process-ends_crlf_example = process-ends_crlf (some memory) (codes "get k\r\n") fresh refl refl

process_within_example :
    (length (process (some memory) (codes "get") (init no_command 16, empty_memory)).0.buffer < 16)
    × (((process (some memory) (codes "get") (init no_command 16, empty_memory)).1 ≡ empty_memory)
        ⊎ (length (codes "get") + 0 < 16))
unfolding init
process_within_example =
    process_within (some memory) (codes "get") (init no_command 16) empty_memory (omega arith)
      (omega arith)

process_unknown_example :
    process (some memory) (b'\n' ∷ []) fresh
    ≡ (client_error unsupported (init no_command 0), empty_memory)
unfolding is_too_large init is_white_space command_from_str
process_unknown_example =
    process_unknown (some memory) 0 no_command [] b'\n' [] empty_memory tt refl refl refl

process_extra_word_example :
    process
      (some memory)
      (extra_word_request add key_k 20 0 (codes "[noreply]") (codes "\nhello wo"))
      fresh
    ≡ prepare_response
        (some memory)
        (parsed 0 add key_k 20 0 false (codes "[noreply]" ++ codes "\nhello wo"))
        empty_memory
unfolding status_from_command is_too_large init is_white_space
process_extra_word_example =
    process_extra_word (some memory) 0 add no_command key_k (codes "[noreply]") (codes "\nhello wo")
      20 0 empty_memory refl key_k-IsWord (λ e. cc)
      (refl, (refl, (refl, (refl, (refl, (refl, (refl, (refl, (refl, tt))))))))) (λ e. cc)
      (omega arith) (omega arith) (omega arith) (omega arith) refl

process_negative_example : process (some memory) (negative_request set key_k 0 0 0 hello) fresh ≡ (
  record (parsed 0 set key_k 0 0 false hello) { remaining = size_mod - 1 - length hello },
  empty_memory,
)
unfolding status_from_command is_too_large init
process_negative_example =
    process_negative (some memory) 0 set no_command key_k hello 0 0 0 empty_memory refl key_k-IsWord
      (λ e. cc) (omega arith) (omega arith) (omega arith) (omega arith) refl

-- A store that counts its lock, and throws from `get` where it is told to.
abbrev counting : Bool → Store ℕ
counting throws = record {
  get = λ key n. if throws then (err (codes "get"), n) else (ok (missing, []), n);
  del = λ key n. (ok ok_status, n);
  put = λ key value n. (ok ok_status, n);
  lock = λ n. (ok tt, suc n);
  unlock = λ n. (ok tt, n - 1);
}

counting-Counted : (throws : Bool) → Counted (counting throws) (λ n. n)
counting-Counted throws = record {
  get_keeps = λ key n. ground arith;
  del_keeps = λ key n. refl;
  put_keeps = λ key value n. refl;
  lock_counts = λ n. refl;
  unlock_counts = λ n k h. omega arith;
  lock_ok = λ n. refl;
  unlock_ok = λ n. refl;
}

respond-held_example : (respond (counting true) add key_k [] hello 0).1 ≡ 1
unfolding respond
respond-held_example =
    respond-held (counting true) (λ n. n) (counting-Counted true) add key_k [] hello 0

lock_returned : (respond (counting false) add key_k [] hello 0).1 ≡ 0
unfolding respond
lock_returned = refl
