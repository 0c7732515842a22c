-- ===== src/Tcp/Connection/Chunked.antt =====
-- Conversations on a connection whose commands arrive in several chunks:
-- src/quitsies/tcp/connection.cpp and request.cpp.
use quitsies.Prelude.{
  append_assoc, ◌≡◌, refl, sym, ap, ◌∙◌, List, [], ◌∷◌, ◌++◌, none, some, All, Result, ok, err,
}
use quitsies.Text.{Bytes}
use quitsies.Db.Store.{Store}
use quitsies.Tcp.Connection.{Connection, success, Outcome, on_read, go_on}
use quitsies.Tcp.Memcached.Spec.{Op, IsOp, Map, apply, reply_to, replies}
use quitsies.Tcp.Memcached.Keeps.{IsMap}
use quitsies.Tcp.Memcached.Cuts.{stem, end_of}
use quitsies.Tcp.Connection.Conversation.{
  IsReady, IsUntimed, delivered, delivered-nothing, conversation, Serves,
}
use quitsies.Tcp.Connection.Untimed.{StaysUntimed, conversation-StaysUntimed}
use quitsies.Tcp.Connection.Reading.{IsReading, IsReady-IsReading, on_read-piece, on_read-Serves}

-- The chunks of one command, behind the bytes that were sent of it: all but the last leave it
-- unfinished, and the last holds at least what finishes it.
abbrev pub IsCut : Op → Bytes → List Bytes → Type 0
IsCut op a [] = ⊥
IsCut op a (chunk ∷ []) = (b : Bytes) × (a ++ b ≡ stem op) × (chunk ≡ b ++ end_of op)
IsCut op a (chunk ∷ next ∷ chunks) = IsCut op (a ++ chunk) (next ∷ chunks)

-- What is still to come of a command that is cut.
IsCut-rest :
    (op : Op) (a : Bytes) (chunks : List Bytes)
    → IsCut op a chunks
    → (b : Bytes) × (a ++ b ≡ stem op)
IsCut-rest op a [] h = absurd h
IsCut-rest op a (chunk ∷ []) h = (h.0, h.1)
IsCut-rest op a (chunk ∷ next ∷ chunks) h =
    let (b, e) = IsCut-rest op (a ++ chunk) (next ∷ chunks) h in
    (chunk ++ b, sym (append_assoc a chunk b) ∙ e)

abbrev pub chunks_of : List (Op × List Bytes) → List Bytes
chunks_of [] = []
chunks_of ((op, chunks) ∷ cuts) = chunks ++ chunks_of cuts

abbrev pub ops_of : List (Op × List Bytes) → List Op
ops_of [] = []
ops_of ((op, chunks) ∷ cuts) = op ∷ ops_of cuts

abbrev pub IsCutOp : Op × List Bytes → Type 0
IsCutOp (op, chunks) = IsOp op × IsCut op [] chunks

module _ {S : Type 0} (db : Store S) (view : S → Map) (law : IsMap db view) where
  served-conversation :
      (out : List Bytes) (rest : List Bytes) (chunks : List Bytes) (r : Result Outcome) (t : S)
      → Serves out r
      → ((d : Connection) → IsReady d → conversation db chunks d t ≡ rest)
      → elim r as (λ _. List Bytes) [
        | err what ↦ []
        | ok o ↦ (delivered o).0 ++ conversation db chunks (delivered o).1 t
      ]
        ≡ out ++ rest
  served-conversation out rest chunks (ok o) t h later =
      rw h.0 (ap (λ l. out ++ l) (later (delivered o).1 h.1))
  served-conversation out rest chunks (err what) t h later = absurd h

  conversation-piece :
      (chunk : Bytes) (chunks : List Bytes) (c d : Connection) (s : S)
      → on_read (some db) success chunk c s ≡ (ok (go_on d), s)
      → d.writing ≡ none
      → conversation db (chunk ∷ chunks) c s ≡ conversation db chunks d s
  unfolding conversation
  conversation-piece chunk chunks c d s read w =
      ap
        (λ x. elim x.0 as (λ _. List Bytes) [
          | err what ↦ []
          | ok o ↦ (delivered o).0 ++ conversation db chunks (delivered o).1 x.1
        ])
        read
      ∙ ap (λ x. x.0 ++ conversation db chunks x.1 s) (delivered-nothing d w)

  -- The chunks of one command, and then `more`.
  conversation-cut :
      (op : Op) (a : Bytes) (chunks more rest : List Bytes) (c : Connection) (s : S)
      → IsOp op
      → IsCut op a chunks
      → IsReading a c
      → ((d : Connection) (t : S)
          → IsReady d
          → view t ≡ (apply op (view s)).0
          → conversation db more d t ≡ rest)
      → conversation db (chunks ++ more) c s ≡ reply_to op (apply op (view s)).1 ++ rest
  unfolding conversation
  conversation-cut op a [] more rest c s h cut reading later = absurd cut
  conversation-cut op a (chunk ∷ []) more rest c s h (b, e, last) reading later =
      let (served, viewed) = on_read-Serves db view law op a b c s h e reading in
      ap (λ l. conversation db (l ∷ more) c s) last
      ∙ served-conversation _ rest more _ _ served (λ d ready. later d _ ready viewed)
  conversation-cut op a (chunk ∷ next ∷ chunks) more rest c s h cut reading later =
      let (b, e) = IsCut-rest op (a ++ chunk) (next ∷ chunks) cut in
      let (d, read, still, opened) = on_read-piece db view law op a chunk b c s h e reading in
      conversation-piece chunk (next ∷ (chunks ++ more)) c d s read still.0
      ∙ conversation-cut op (a ++ chunk) (next ∷ chunks) more rest d s h cut still later

  -- One command behind the other.
  cut_conversation :
      (cuts : List (Op × List Bytes)) (c : Connection) (s : S)
      → All IsCutOp cuts
      → IsReady c
      → conversation db (chunks_of cuts) c s ≡ replies (ops_of cuts) (view s)
  unfolding conversation
  cut_conversation [] c s h ready = refl
  cut_conversation ((op, chunks) ∷ cuts) c s h ready =
      conversation-cut op [] chunks (chunks_of cuts) _ c s h.0.0 h.0.1 (IsReady-IsReading c ready)
        (λ d t fresh viewed.
          cut_conversation cuts d t h.1 fresh ∙ ap (replies (ops_of cuts)) viewed)

  -- Over any database that is a map and that no other client uses, a client sends any list of
  -- well-formed commands to a connection that waits for one and arms no timer, each behind the
  -- reply of the one before and cut into chunks in any way that leaves what finishes it in its last
  -- chunk. As long as no operation of the network library fails, the texts that are handed to
  -- `async_write` are exactly the replies of the specification; and no timer runs meanwhile, so
  -- that none can end the connection.
  pub conversation-cut_replies :
      (cuts : List (Op × List Bytes)) (c : Connection) (s : S)
      → All IsCutOp cuts
      → IsReady c
      → IsUntimed c
      → (conversation db (chunks_of cuts) c s ≡ replies (ops_of cuts) (view s))
        × StaysUntimed db (chunks_of cuts) c s
  conversation-cut_replies cuts c s h ready untimed =
      (cut_conversation cuts c s h ready, conversation-StaysUntimed db (chunks_of cuts) c s untimed)
