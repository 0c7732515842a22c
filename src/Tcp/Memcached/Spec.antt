-- ===== src/Tcp/Memcached/Spec.antt =====
-- What README.md promises of the commands: a map from keys to values, and a reply for each command.
-- Nothing here is taken from the code but the texts of the replies.
use quitsies.Prelude.{
  ℕ, Bool, false, List, [], ◌∷◌, ◌++◌, Option, none, some, if◌then◌else◌, length, All, ◌<◌, ◌^◌,
}
use quitsies.Text.{Bytes, codes, eqb}
use quitsies.Text.Decimal.{print}
use quitsies.Tcp.Request.Types.{set, add, get, gets}
use quitsies.Tcp.Request.Storage.{storage_request}
use quitsies.Tcp.Request.Retrieval.{IsKey, retrieval_request, delete_request}

-- Storage commands carry the key, the flags, the time, `noreply` and the data.
pub data Op : Type 0 where
  set_op add_op : Bytes → ℕ → ℕ → Bool → Bytes → Op
  get_op gets_op : List Bytes → Op
  delete_op : Bytes → Bool → Op

-- What a client writes for it.
abbrev pub request_of : Op → Bytes
request_of (set_op key fl ex quiet value) = storage_request set key fl ex quiet value
request_of (add_op key fl ex quiet value) = storage_request add key fl ex quiet value
request_of (get_op keys) = retrieval_request get keys
request_of (gets_op keys) = retrieval_request gets keys
request_of (delete_op key quiet) = delete_request key quiet

abbrev IsStorage : Bytes → ℕ → ℕ → Bytes → Type 0
IsStorage key fl ex value = IsKey key × (fl < 2 ^ 31) × (ex < 2 ^ 31) × (length value < 2 ^ 31)

-- The commands that the protocol lets a client write.
abbrev pub IsOp : Op → Type 0
IsOp (set_op key fl ex quiet value) = IsStorage key fl ex value
IsOp (add_op key fl ex quiet value) = IsStorage key fl ex value
IsOp (get_op keys) = All IsKey keys
IsOp (gets_op keys) = All IsKey keys
IsOp (delete_op key quiet) = IsKey key

abbrev pub Map : Type 0
Map = Bytes → Option Bytes

abbrev pub update : Bytes → Option Bytes → Map → Map
update k o f j = if eqb k j then o else f j

pub data Reply : Type 0 where
  stored not_stored deleted not_found refused : Reply
  values : List (Bytes × Bytes) → Reply

abbrev pub values_text : List (Bytes × Bytes) → Bytes
values_text [] = codes "END\r\n"
values_text ((key, value) ∷ rest) =
    codes "VALUE "
    ++ (key
        ++ (codes " 0 "
            ++ (print (length value)
                ++ (codes "\r\n" ++ (value ++ (codes "\r\n" ++ values_text rest))))))

abbrev pub text : Reply → Bytes
text stored = codes "STORED\r\n"
text not_stored = codes "NOT_STORED\r\n"
text deleted = codes "DELETED\r\n"
text not_found = codes "NOT_FOUND\r\n"
text refused = codes "ERROR No key was found in request\r\n"
text (values vs) = values_text vs

-- The pairs of those of the keys that the map has.
abbrev pub with_key : Bytes → Option Bytes → List (Bytes × Bytes) → List (Bytes × Bytes)
with_key key none rest = rest
with_key key (some value) rest = (key, value) ∷ rest

abbrev pub select : Map → List Bytes → List (Bytes × Bytes)
select f [] = []
select f (key ∷ keys) = with_key key (f key) (select f keys)

abbrev pub fetch : Map → List Bytes → Reply
fetch f [] = refused
fetch f (key ∷ keys) = values (select f (key ∷ keys))

abbrev pub add_to : Bytes → Bytes → Map → Option Bytes → Map × Reply
add_to key value f none = (update key (some value) f, stored)
add_to key value f (some old) = (f, not_stored)

abbrev pub delete_from : Bytes → Map → Option Bytes → Map × Reply
delete_from key f none = (f, not_found)
delete_from key f (some old) = (update key none f, deleted)

abbrev pub apply : Op → Map → Map × Reply
apply (set_op key fl ex quiet value) f = (update key (some value) f, stored)
apply (add_op key fl ex quiet value) f = add_to key value f (f key)
apply (get_op keys) f = (f, fetch f keys)
apply (gets_op keys) f = (f, fetch f keys)
apply (delete_op key quiet) f = delete_from key f (f key)

-- Whether the client wants no reply.
abbrev pub is_quiet : Op → Bool
is_quiet (set_op key fl ex quiet value) = quiet
is_quiet (add_op key fl ex quiet value) = quiet
is_quiet (get_op keys) = false
is_quiet (gets_op keys) = false
is_quiet (delete_op key quiet) = quiet

abbrev pub reply_to : Op → Reply → List Bytes
reply_to op reply = if is_quiet op then [] else text reply ∷ []

-- What a client reads that sends these commands, one behind the reply of the other.
abbrev pub replies : List Op → Map → List Bytes
replies [] f = []
replies (op ∷ ops) f = reply_to op (apply op f).1 ++ replies ops (apply op f).0
