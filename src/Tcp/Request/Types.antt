-- ===== src/Tcp/Request/Types.antt =====
-- The state of a request: src/quitsies/tcp/request.hpp.
use quitsies.Prelude.{ℕ, Bool, false, List, []}
use quitsies.Prelude.Int.{ℤ, pos}
use quitsies.Text.{Bytes}

pub data StatusType : Type 0 where
  command delete_key storage_key flags exptime nbytes norep : StatusType
  data_block retrieval_key retrieval_keys finished quitting : StatusType

pub data CommandType : Type 0 where
  no_command set add get gets delete quit ping : CommandType

-- `buffer` is the text of the string stream, which is only ever appended to or replaced by the
-- empty text, so that its put position is the length of the text.
pub record Request : Type 0 where
  pub max_bytes : ℕ
  pub status : StatusType
  pub buffer : Bytes
  pub response : Bytes
  pub cmd : CommandType
  pub keys : List Bytes
  pub flags_value : ℤ
  pub exp_time : ℤ
  pub remaining : ℕ
  pub no_reply : Bool

-- The constructor leaves `_command` as the memory had it.
unfoldable pub init : CommandType → ℕ → Request
init indeterminate max_bytes = record {
  max_bytes = max_bytes;
  status = command;
  buffer = [];
  response = [];
  cmd = indeterminate;
  keys = [];
  flags_value = pos 0;
  exp_time = pos 0;
  remaining = 0;
  no_reply = false;
}

unfoldable pub reset : Request → Request
reset r = record r {
  status = command;
  cmd = no_command;
  keys = [];
  flags_value = pos 0;
  exp_time = pos 0;
  remaining = 0;
  no_reply = false;
  buffer = [];
  response = [];
}

-- What a request shows to its connection. `get_keys` is the field `keys`.
abbrev pub get_status : Request → StatusType
get_status r = r.status

abbrev pub get_command : Request → CommandType
get_command r = r.cmd

abbrev pub get_flags : Request → ℤ
get_flags r = r.flags_value

abbrev pub get_exp_time : Request → ℤ
get_exp_time r = r.exp_time

abbrev pub get_no_reply : Request → Bool
get_no_reply r = r.no_reply

abbrev pub copy_buffer : Request → Bytes
copy_buffer r = r.buffer
