-- ===== src/Tcp/Memcached/Refinement.antt =====
-- `request::process`, from the bytes to the reply, implements the specification of `Spec`.
use quitsies.Prelude.{false, ◌≡◌, refl, ap, ap₂, ◌∙◌, List, [], ◌∷◌, ◌++◌, some, All, if◌then◌else◌}
use quitsies.Text.{Bytes}
use quitsies.Db.Store.{Store}
use quitsies.Tcp.Request.Types.{
  Request, CommandType, no_command, set, add, get, gets, delete, retrieval_key, norep, finished,
  init, reset,
}
use quitsies.Tcp.Request.Command.{status_from_command}
use quitsies.Tcp.Request.Response.{prepare_response}
use quitsies.Tcp.Request.Process.{process, is_too_large}
use quitsies.Tcp.Request.Storage.{parsed, process-storage_request}
use quitsies.Tcp.Request.Retrieval.{parsed_keys, process-retrieval_request, process-delete_request}
use quitsies.Tcp.Memcached.Spec.{
  Op, set_op, add_op, get_op, gets_op, delete_op, IsOp, request_of, Map, Reply, text, apply,
  is_quiet, replies,
}
use quitsies.Tcp.Memcached.Keeps.{IsMap}
use quitsies.Tcp.Memcached.Replies.{
  set_key-Agrees, add_key-Agrees, delete_key-Agrees, get_keys-Agrees,
}

-- The request that the text of a command parses to.
abbrev parsed_op : Op → Request
parsed_op (set_op key fl ex quiet value) = parsed 0 set key fl ex quiet value
parsed_op (add_op key fl ex quiet value) = parsed 0 add key fl ex quiet value
parsed_op (get_op keys) = parsed_keys 0 get retrieval_key keys false
parsed_op (gets_op keys) = parsed_keys 0 gets retrieval_key keys false
parsed_op (delete_op key quiet) = parsed_keys 0 delete norep (key ∷ []) quiet

module _ {S : Type 0} (db : Store S) (view : S → Map) (law : IsMap db view) where
  process-parsed :
      (op : Op) (junk : CommandType) (m : S)
      → IsOp op
      → process (some db) (request_of op) (init junk 0, m)
        ≡ prepare_response (some db) (parsed_op op) m
  unfolding status_from_command is_too_large init
  process-parsed (set_op key fl ex quiet value) junk m h =
      process-storage_request (some db) 0 set junk key value fl ex quiet m refl h.0.0 h.0.1 h.1 h.2
        h.3 refl
  process-parsed (add_op key fl ex quiet value) junk m h =
      process-storage_request (some db) 0 add junk key value fl ex quiet m refl h.0.0 h.0.1 h.1 h.2
        h.3 refl
  process-parsed (get_op keys) junk m h =
      process-retrieval_request (some db) 0 get junk keys m refl h refl
  process-parsed (gets_op keys) junk m h =
      process-retrieval_request (some db) 0 gets junk keys m refl h refl
  process-parsed (delete_op key quiet) junk m h =
      process-delete_request (some db) 0 junk key quiet m h refl

  -- What is left of a request and its database, against a reply and a map.
  pub record Refines (op : Op) (run : Request × S) (spec : Map × Reply) : Type 0 where
    pub replied : run.0.response ≡ text spec.1
    pub viewed : view run.1 ≡ spec.0
    pub finishes : run.0.status ≡ finished
    pub quieted : run.0.no_reply ≡ is_quiet op
    pub resets : reset run.0 ≡ init no_command 0

  prepare_response-Refines :
      (op : Op) (m : S)
      → Refines op (prepare_response (some db) (parsed_op op) m) (apply op (view m))
  unfolding prepare_response reset init
  prepare_response-Refines (set_op key fl ex quiet value) m =
      let a = set_key-Agrees db view law key value m in
      record {
        replied = a.replied;
        viewed = a.viewed;
        finishes = refl;
        quieted = refl;
        resets = refl;
      }
  prepare_response-Refines (add_op key fl ex quiet value) m =
      let a = add_key-Agrees db view law key value m in
      record {
        replied = a.replied;
        viewed = a.viewed;
        finishes = refl;
        quieted = refl;
        resets = refl;
      }
  prepare_response-Refines (get_op []) m = record {
    replied = refl;
    viewed = refl;
    finishes = refl;
    quieted = refl;
    resets = refl;
  }
  prepare_response-Refines (get_op (key ∷ keys)) m =
      let a = get_keys-Agrees db view law (key ∷ keys) m in
      record {
        replied = a.replied;
        viewed = a.viewed;
        finishes = refl;
        quieted = refl;
        resets = refl;
      }
  prepare_response-Refines (gets_op []) m = record {
    replied = refl;
    viewed = refl;
    finishes = refl;
    quieted = refl;
    resets = refl;
  }
  prepare_response-Refines (gets_op (key ∷ keys)) m =
      let a = get_keys-Agrees db view law (key ∷ keys) m in
      record {
        replied = a.replied;
        viewed = a.viewed;
        finishes = refl;
        quieted = refl;
        resets = refl;
      }
  prepare_response-Refines (delete_op key quiet) m =
      let a = delete_key-Agrees db view law key m in
      record {
        replied = a.replied;
        viewed = a.viewed;
        finishes = refl;
        quieted = refl;
        resets = refl;
      }

  -- Over any database that is a map, every command that the protocol lets a client write, sent in
  -- one chunk to a fresh request that has no size limit, finishes it with the reply of the
  -- specification and leaves the map of the specification; the request takes the `noreply` flag
  -- from the text, and is as good as new behind its reset.
  pub process-Refines :
      (op : Op) (junk : CommandType) (m : S)
      → IsOp op
      → Refines op (process (some db) (request_of op) (init junk 0, m)) (apply op (view m))
  process-Refines op junk m h = rw (process-parsed op junk m h) (prepare_response-Refines op m)

  -- One request behind the other on a connection: the reply is written unless the client wants
  -- none, and the request is reset.
  unfoldable pub session : List Op → Request × S → List Bytes
  session [] w = []
  session (op ∷ ops) w =
      let (q, n) = process (some db) (request_of op) w in
      (if q.no_reply then [] else q.response ∷ []) ++ session ops (reset q, n)

  -- Over any database that is a map, a client that sends any list of well-formed commands, each in
  -- one chunk, to a request that has no size limit and is reset behind each of them, reads exactly
  -- the replies of the specification.
  session-replies :
      (ops : List Op) (junk : CommandType) (m : S)
      → All IsOp ops
      → session ops (init junk 0, m) ≡ replies ops (view m)
  unfolding session
  session-replies [] junk m h = refl
  session-replies (op ∷ ops) junk m h =
      let f = process-Refines op junk m h.0 in
      let n = (process (some db) (request_of op) (init junk 0, m)).1 in
      ap₂ ◌++◌ (rw (f.quieted, f.replied)) (
        ap (λ r. session ops (r, n)) f.resets
        ∙ session-replies ops no_command n h.1
        ∙ ap (replies ops) f.viewed)
