-- ===== src/Tcp/Request/Response.antt =====
-- `request::prepare_response`: one handler for each command, over the database's interface.
use quitsies.Prelude.{
  List, [], ◌∷◌, ◌++◌, Option, none, some, if◌then◌else◌, Result, ok, err, M, ◌>>=◌, ◌>>◌, pure,
  raise, length, not,
}
use quitsies.Text.{Bytes, codes, crlf}
use quitsies.Text.Decimal.{print}
use quitsies.Db.Store.{Status, Store}
use quitsies.Tcp.Request.Types.{Request, finished, CommandType, set, add, get, gets, delete, ping}

abbrev pub error_line : Bytes → Bytes
error_line what = codes "ERROR " ++ (what ++ crlf)

abbrev pub put_reply : Status → Bytes
put_reply st = if st.is_ok then codes "STORED\r\n" else error_line st.msg

abbrev pub del_reply : Status → Bytes
del_reply st = if st.is_ok then codes "DELETED\r\n" else error_line st.msg

-- `VALUE <key> 0 <length>` and the value, each on a line.
unfoldable pub value_block : Bytes → Bytes → Bytes
unfolding print
value_block key value =
    codes "VALUE " ++ (key ++ (codes " 0 " ++ (print (length value) ++ (crlf ++ (value ++ crlf)))))

module _ {S : Type 0} (db : Store S) where
  abbrev pub del_found : Bytes → M S Bytes
  del_found key = do status ← db.del key; pure (del_reply status)

  unfoldable pub delete_key : Bytes → M S Bytes
  delete_key key = do
    found ← db.get key
    if not found.0.is_ok then pure (codes "NOT_FOUND\r\n") else del_found key

  -- What `add` does under the lock once it has looked for the key.
  unfoldable pub add_found : Bytes → Bytes → Status × Bytes → M S Bytes
  add_found key value found =
      if not found.0.is_ok
      then if found.0.is_not_found
        then (do status ← db.put key value; pure (put_reply status))
        else pure (error_line found.0.msg)
      else pure (codes "NOT_STORED\r\n")

  abbrev pub unlocked : Bytes → M S Bytes
  unlocked reply = do db.unlock; pure reply

  -- The lock is held from the first read to the reply, unless an operation throws.
  unfoldable pub add_key : Bytes → Bytes → M S Bytes
  unfolding add_found
  add_key key value = do
    db.lock
    found ← db.get key
    reply ← add_found key value found
    unlocked reply

  unfoldable pub set_key : Bytes → Bytes → M S Bytes
  set_key key value = do status ← db.put key value; pure (put_reply status)

  abbrev pub with_value : Bytes → Bytes → Status × Bytes → Bytes
  with_value ss key found = if found.0.is_ok then ss ++ value_block key found.1 else ss

  unfoldable pub get_keys : List Bytes → Bytes → M S Bytes
  unfolding value_block
  get_keys [] ss = pure (ss ++ codes "END\r\n")
  get_keys (key ∷ keys) ss = do found ← db.get key; get_keys keys (with_value ss key found)

  -- The switch. `key` is `_keys[0]`, and `keys` are those behind it.
  unfoldable pub respond : CommandType → Bytes → List Bytes → Bytes → M S Bytes
  unfolding delete_key add_key set_key get_keys
  respond delete key keys buffer = delete_key key
  respond add key keys buffer = add_key key buffer
  respond set key keys buffer = set_key key buffer
  respond get key keys buffer = get_keys (key ∷ keys) []
  respond gets key keys buffer = get_keys (key ∷ keys) []
  respond _ key keys buffer = raise (codes "unsupported command")

-- `_response = …; _status = FINISHED`.
abbrev pub finish : Request → Bytes → Request
finish r text = record r { response = text; status = finished }

-- The `catch` behind the switch: what was written before the exception is dropped.
abbrev pub caught : Result Bytes → Bytes
caught (ok text) = text
caught (err what) = error_line what

abbrev pub no_database : Bytes
no_database = codes "ERROR The server isn't configured with a database\r\n"

abbrev pub no_key : Bytes
no_key = codes "ERROR No key was found in request\r\n"

module _ {S : Type 0} where
  -- The early returns, and then the switch under `try`.
  unfoldable pub answer : Option (Store S) → CommandType → List Bytes → Bytes → S → Bytes × S
  unfolding respond
  answer db ping keys buffer s = (codes "PONG\r\n", s)
  answer none cmd keys buffer s = (no_database, s)
  answer (some db) cmd [] buffer s = (no_key, s)
  answer (some db) cmd (key ∷ keys) buffer s =
      let (result, t) = respond db cmd key keys buffer s in (caught result, t)

  unfoldable pub prepare_response : Option (Store S) → Request → S → Request × S
  unfolding answer
  prepare_response db r s = let (text, t) = answer db r.cmd r.keys r.buffer s in (finish r text, t)
