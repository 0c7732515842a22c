-- ===== src/Tcp/Server/Accept.antt =====
-- The limits of the connections that `server::do_accept` makes.
use quitsies.Prelude.{ℕ, suc, ◌+◌, ◌<◌, ◌^◌, Bool, true, false, ◌≡◌, ap, ◌∙◌, arith}
use quitsies.Prelude.Int.{ℤ, pos}
use quitsies.Tcp.Request.Types.{CommandType}
use quitsies.Tcp.Connection.{Connection, make_connection, start}
use quitsies.Tcp.Request.Process.{to_size}
use quitsies.Tcp.Server.{Server, on_accept, manager_start, to_int32, put}
use quitsies.Tcp.Server.Managed.{==_refl, put_self}

-- The connection that the server makes.
accepted_limits :
    (junk : CommandType) (now : ℕ) (read_limit write : ℤ) (bytes r w : ℕ)
    → read_limit ≡ pos r
    → write ≡ pos w
    → bytes < 2 ^ 31
    → let c = start (make_connection junk now (to_size read_limit) write (to_int32 bytes)) in
      (c.request.max_bytes ≡ r)
      × (c.read_timeout ≡ pos w)
      × (c.write_timeout ≡ pos bytes)
      × (c.read_expiry ≡ now + w)
      × (c.reads ≡ 1)
      × (c.is_open ≡ true)
unfolding make_connection start
accepted_limits junk now read_limit write bytes r w hr hw hb = ground arith

accepted_conn :
    (b : Bool) (srv : Server) (c : Connection)
    → b ≡ true
    → (elim b as (λ _. Server) [
      | true ↦
          manager_start srv.next_id
            (record srv { conns = put srv.conns srv.next_id c; next_id = suc srv.next_id })
      | false ↦ srv
    ]).conns
        srv.next_id
      ≡ start c
unfolding manager_start
accepted_conn true srv c e =
    let k = srv.next_id in
    let made = put srv.conns k c in
    put_self made k k (start (made k)) (==_refl k) ∙ ap start (put_self srv.conns k k c (==_refl k))
accepted_conn false srv c e = cc (e)

-- The accepted connection takes the read timeout of the server for its size limit, the write
-- timeout for its read timeout, and the size limit for its write timeout.
pub on_accept_limits :
    (junk : CommandType) (srv : Server) (r w : ℕ)
    → srv.accepting ≡ true
    → srv.read_timeout ≡ pos r
    → srv.write_timeout ≡ pos w
    → srv.req_max_bytes < 2 ^ 31
    → let c = (on_accept junk srv).conns srv.next_id in
      (c.request.max_bytes ≡ r)
      × (c.read_timeout ≡ pos w)
      × (c.write_timeout ≡ pos srv.req_max_bytes)
      × (c.read_expiry ≡ srv.now + w)
      × (c.reads ≡ 1)
      × (c.is_open ≡ true)
unfolding on_accept
on_accept_limits junk srv r w a hr hw hb =
    let limit = to_size srv.read_timeout in
    let timeout = to_int32 srv.req_max_bytes in
    let c = make_connection junk srv.now limit srv.write_timeout timeout in
    rw (accepted_conn srv.accepting srv c a) (
      accepted_limits junk srv.now srv.read_timeout srv.write_timeout srv.req_max_bytes r w hr hw
        hb)
