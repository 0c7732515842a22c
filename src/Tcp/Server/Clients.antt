-- ===== src/Tcp/Server/Clients.antt =====
-- The server of src/quitsies/tcp/server.cpp among clients that send well-formed commands, each cut
-- into chunks as the network likes, and each behind the reply of the one before: what every client
-- has sent of its command, and every command that was finished, with what was written for it.
pub mod Holding
pub mod Kept
pub mod Linear
mod Tests
use quitsies.Prelude.{ℕ, ◌≡◌, ◌≢◌, ◌⊎◌, List, [], ◌∷◌, ◌++◌, Option, some, Result}
use quitsies.Text.{Bytes}
use quitsies.Db.Store.{Store}
use quitsies.Tcp.Connection.{ErrorCode, success, Outcome}
use quitsies.Tcp.Connection.Conversation.{delivered}
use quitsies.Tcp.Memcached.Spec.{Op, IsOp, Map, apply, reply_to}
use quitsies.Tcp.Memcached.Cuts.{stem, end_of}
use quitsies.Tcp.Memcached.History.{Exchange}
use quitsies.Tcp.Server.{Server, put}
use quitsies.Tcp.Server.Step.{
  Step, accepted, received, sent, read_timed_out, write_timed_out, signalled, set_read, set_write,
  set_max, passed,
}

pub record Sessions : Type 0 where
  pub unfinished : ℕ → Bytes
  pub exchanges : List Exchange

abbrev pub no_sessions : Sessions
no_sessions = record { unfinished = λ k. []; exchanges = [] }

-- Client `k` sent this much of its command.
abbrev pub begins : ℕ → Bytes → Sessions → Sessions
begins k a g = record g { unfinished = put g.unfinished k a }

abbrev pub finishes : ℕ → Op → List Bytes → Sessions → Sessions
finishes k op out g = record (begins k [] g) {
  exchanges = g.exchanges ++ record { client = k; op = op; reply = out } ∷ [];
}

-- A chunk does not finish a command, or it does.
abbrev pub IsPiece : ℕ → Op → Bytes → Sessions → Sessions → Type 0
IsPiece k op chunk g after =
    (b : Bytes) × ((g.unfinished k ++ chunk) ++ b ≡ stem op)
    × (after ≡ begins k (g.unfinished k ++ chunk) g)

abbrev pub IsLast : ℕ → Op → Bytes → Outcome → Sessions → Sessions → Type 0
IsLast k op chunk o g after =
    (b : Bytes) × (g.unfinished k ++ b ≡ stem op)
    × (chunk ≡ b ++ end_of op)
    × (after ≡ finishes k op (delivered o).0 g)

abbrev pub IsSent : ℕ → ErrorCode → Bytes → Outcome → Sessions → Sessions → Type 0
IsSent k success chunk o g after =
    (op : Op) × IsOp op × (IsPiece k op chunk g after ⊎ IsLast k op chunk o g after)
IsSent k _ chunk o g after = after ≡ g

module _ {S : Type 0} (db : Store S) where
  -- What an event is to the clients. Nothing sets the read timeout, which the constructor of a
  -- connection would take for its size limit.
  abbrev pub Follows : {v w : Server × S} → Step (some db) v w → Sessions → Sessions → Type 0
  Follows {v} (accepted junk e) g after = after ≡ begins v.0.next_id [] g
  Follows (received k ec chunk o t h r l e f) g after = IsSent k ec chunk o g after
  Follows (set_read t e) g after = ⊥
  Follows _ g after = after ≡ g

  pub data Play (v : Server × S) : Server × S → Sessions → Type 0 where
    begin : Play v v no_sessions
    then_event :
        {u w : Server × S} {g after : Sessions}
        → Play v u g
        → (st : Step (some db) u w) → Follows st g after
        → Play v w after
