-- ===== src/Db/Rocks/Served.antt =====
-- The two interfaces of the program over one RocksDB: src/quitsies/db/rocks.cpp and
-- src/quitsies/tcp/request.cpp.
use quitsies.Prelude.{
  ℕ, ◌<◌, ◌^◌, true, false, ◌≡◌, refl, ◌∙◌, ap, sym, [], ◌∷◌, ◌++◌, append_assoc, some, length,
  arith,
}
use quitsies.Text.{Bytes, codes, crlf}
use quitsies.Text.Decimal.{print}
use quitsies.Tcp.Request.Types.{CommandType, init, set, get, add}
use quitsies.Tcp.Request.Command.{status_from_command}
use quitsies.Tcp.Request.Response.{
  respond, answer, prepare_response, set_key, add_key, add_found, get_keys, value_block, caught,
}
use quitsies.Tcp.Request.Process.{process, is_too_large}
use quitsies.Tcp.Request.Storage.{storage_request, process-storage_request}
use quitsies.Tcp.Request.Retrieval.{IsKey, retrieval_request, process-retrieval_request}
use quitsies.Tcp.Memcached.Spec.{text, values}
use quitsies.Db.Rocks.Engine.{Engine, Aggregator}
use quitsies.Db.Rocks.Store.{Rocks, rocks, rocks_get, rocks_put}
use quitsies.Db.Rocks.Http.{key_get, key_put}

-- What RocksDB documents: a value that was put without an error is what is read behind it.
pub record Remembers {E : Type 0} (db : Engine E) : Type 0 where
  pub finds :
      (key value : Bytes) (e : E)
      → (db.put key value e).0.is_ok ≡ true
      → (db.get key (db.put key value e).1).0.0.is_ok ≡ true
  pub returns :
      (key value : Bytes) (e : E)
      → (db.put key value e).0.is_ok ≡ true
      → (db.get key (db.put key value e).1).0.1 ≡ value

block_end :
    (key digits value : Bytes)
    → codes "VALUE "
        ++ (key ++ (codes " 0 " ++ (digits ++ (crlf ++ (value ++ crlf)))))
        ++ codes "END\r\n"
      ≡ codes "VALUE "
        ++ (key ++ (codes " 0 " ++ (digits ++ (crlf ++ (value ++ (crlf ++ codes "END\r\n"))))))
block_end key digits value = simp (append_assoc)

module _ {E A : Type 0} (db : Engine E) (stats : Aggregator A) (law : Remembers db) where
  key_put-is_ok :
      (key body : Bytes) (s : Rocks E A)
      → (key_put db stats key body s).0.code ≡ 200
      → ((db.put key body s.engine).0.is_ok ≡ true)
        × ((key_put db stats key body s).1.engine ≡ (db.put key body s.engine).1)
  unfolding key_put rocks_put
  key_put-is_ok key body s h = ground arith

  get_keys-values :
      (key value : Bytes) (t : Rocks E A)
      → (db.get key t.engine).0.0.is_ok ≡ true
      → (db.get key t.engine).0.1 ≡ value
      → caught (get_keys (rocks db stats) (key ∷ []) [] t).0 ≡ text (values ((key, value) ∷ []))
  unfolding get_keys rocks rocks_get value_block
  get_keys-values key value t h v = rw (h, v) (block_end key (print (length value)) value)

  -- A value that was stored by HTTP is what a client of the memcached protocol reads.
  pub key_put-get :
      (junk : CommandType) (key body : Bytes) (s : Rocks E A)
      → IsKey key
      → (key_put db stats key body s).0.code ≡ 200
      → (process
          (some (rocks db stats))
          (retrieval_request get (key ∷ []))
          (init junk 0, (key_put db stats key body s).1)).0.response
        ≡ text (values ((key, body) ∷ []))
  unfolding status_from_command is_too_large init prepare_response respond answer
  key_put-get junk key body s k h =
      let (put, same) = key_put-is_ok key body s h in
      let t = (key_put db stats key body s).1 in
      ap (λ w. w.0.response)
        (process-retrieval_request (some (rocks db stats)) 0 get junk (key ∷ []) t refl (k, tt)
          refl)
      ∙ get_keys-values key body t (rw same (law.finds key body s.engine put))
          (rw same (law.returns key body s.engine put))

  set_key-is_ok :
      (key value : Bytes) (s : Rocks E A)
      → caught (set_key (rocks db stats) key value s).0 ≡ codes "STORED\r\n"
      → ((db.put key value s.engine).0.is_ok ≡ true)
        × ((set_key (rocks db stats) key value s).1.engine ≡ (db.put key value s.engine).1)
  unfolding set_key rocks rocks_put
  set_key-is_ok key value s h = ground arith

  key_get-body :
      (key value : Bytes) (t : Rocks E A)
      → (db.get key t.engine).0.0.is_ok ≡ true
      → (db.get key t.engine).0.1 ≡ value
      → (key_get db stats key t).0 ≡ record { code = 200; body = value }
  unfolding key_get rocks_get
  key_get-body key value t h v = rw (h, v) refl

  -- A value that a client of the memcached protocol was told to be stored is what HTTP answers for
  -- its key, byte by byte, whatever bytes it has.
  pub set-key_get :
      (junk : CommandType) (key value : Bytes) (fl ex : ℕ) (s : Rocks E A)
      → IsKey key
      → fl < 2 ^ 31
      → ex < 2 ^ 31
      → length value < 2 ^ 31
      → (process
          (some (rocks db stats))
          (storage_request set key fl ex false value)
          (init junk 0, s)).0.response
        ≡ codes "STORED\r\n"
      → (key_get db stats key
          (process
            (some (rocks db stats))
            (storage_request set key fl ex false value)
            (init junk 0, s)).1).0
        ≡ record { code = 200; body = value }
  unfolding status_from_command is_too_large init prepare_response respond answer
  set-key_get junk key value fl ex s k hf he hn h =
      let e =
        process-storage_request (some (rocks db stats)) 0 set junk key value fl ex false s refl k.0
          k.1 hf he hn refl in
      let (put, same) = set_key-is_ok key value s (sym (ap (λ w. w.0.response) e) ∙ h) in
      rw e (
        key_get-body key value (set_key (rocks db stats) key value s).1
          (rw same (law.finds key value s.engine put))
          (rw same (law.returns key value s.engine put)))

module _ {E A : Type 0} (db : Engine E) (stats : Aggregator A) where
  -- When RocksDB cannot read a key, neither interface says why: `add` answers an error with an empty
  -- text and does not write, and HTTP answers 500 with no body, whatever text RocksDB gave.
  pub get_failed :
      (key value : Bytes) (s : Rocks E A)
      → (db.get key s.engine).0.0.is_ok ≡ false
      → (db.get key s.engine).0.0.is_not_found ≡ false
      → (caught (respond (rocks db stats) add key [] value s).0 ≡ codes "ERROR \r\n")
        × ((respond (rocks db stats) add key [] value s).1.engine ≡ (db.get key s.engine).1)
        × ((key_get db stats key s).0 ≡ record { code = 500; body = [] })
  unfolding respond add_key add_found rocks rocks_get key_get
  get_failed key value s h n = ground arith
