-- ===== src/Tcp/Request/Command.antt =====
-- The words of a request: src/quitsies/tcp/request.cpp.
use quitsies.Prelude.{
  ℕ, zero, suc, Bool, false, ◌≡◌, refl, [], ◌∷◌, Option, none, some, length, if◌then◌else◌, Result,
  ok, err, ◌||◌, ◌==◌,
}
use quitsies.Text.{Bytes, codes, eqb}
use quitsies.Tcp.Request.Types.{
  StatusType, delete_key, storage_key, retrieval_key, finished, quitting, CommandType, no_command,
  set, add, get, gets, delete, quit, ping,
}

unfoldable pub is_white_space : ℕ → Bool
is_white_space c = c == b' ' || c == b'\t' || c == 12 || c == b'\r' || c == b'\n' || c == 11

unfoldable pub command_from_str : Bytes → CommandType
unfolding eqb
command_from_str s =
    if eqb s (codes "set")
    then set
    else if eqb s (codes "add")
    then add
    else if eqb s (codes "get")
    then get
    else if eqb s (codes "gets")
    then gets
    else if eqb s (codes "delete")
    then delete
    else if eqb s (codes "quit")
    then quit
    else if eqb s (codes "ping")
    then ping
    else no_command

abbrev pub unsupported : Bytes
unsupported = codes "unsupported command"

unfoldable pub status_from_command : CommandType → Result StatusType
status_from_command set = ok storage_key
status_from_command add = ok storage_key
status_from_command get = ok retrieval_key
status_from_command gets = ok retrieval_key
status_from_command delete = ok delete_key
status_from_command quit = ok quitting
status_from_command ping = ok finished
status_from_command no_command = err unsupported

-- What `get` of a string stream reads at a position, if it is before the end.
abbrev byte_at : ℕ → Bytes → Option ℕ
byte_at n [] = none
byte_at zero (c ∷ cs) = some c
byte_at (suc n) (c ∷ cs) = byte_at n cs

-- It seeks the end, and reads there. Nothing calls it.
unfoldable pub is_returned : Bytes → Bool
is_returned buffer = elim (byte_at (length buffer) buffer) [ none ↦ false | some c ↦ c == b'\r' ]

nothing_at_end : (buffer : Bytes) → byte_at (length buffer) buffer ≡ none
nothing_at_end [] = refl
nothing_at_end (c ∷ cs) = nothing_at_end cs

-- It is false, also of a text that ends with a carriage return.
is_returned-never : (buffer : Bytes) → is_returned buffer ≡ false
unfolding is_returned
is_returned-never buffer = rw (nothing_at_end buffer, is_returned) refl
