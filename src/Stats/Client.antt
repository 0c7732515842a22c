-- ===== src/Stats/Client.antt =====
-- The class `statsd` with its constructor and operations: src/quitsies/stats/statsd.hpp and
-- statsd.cpp, over the network library as a parameter.
use quitsies.Prelude.{ℕ, M, ◌>>=◌, ◌>>◌, pure}
use quitsies.Text.{Bytes}
use quitsies.Stats.Statsd.{a_counter, a_timer, a_gauge, a_set, send_stat}

-- An endpoint is written as the library prints it. Each operation may throw.
pub record Udp (N : Type 0) : Type 0 where
  pub resolve : Bytes → Bytes → M N Bytes
  pub open_v4 : M N (Unit {0})
  pub send_to : Bytes → Bytes → M N (Unit {0})

-- The dot behind the prefix is written by `stat_text`.
pub record Statsd : Type 0 where
  pub prefix : Bytes
  pub endpoint : Bytes

module _ {N : Type 0} (udp : Udp N) where
  unfoldable pub make_statsd : Bytes → Bytes → Bytes → M N Statsd
  make_statsd host port prefix = do
    endpoint ← udp.resolve host port
    udp.open_v4
    pure (record { prefix = prefix; endpoint = endpoint })

  abbrev pub socket_of : Statsd → Bytes → M N (Unit {0})
  socket_of client text = udp.send_to text client.endpoint

  unfoldable pub statsd_counter : Statsd → Bytes → ℕ → M N (Unit {0})
  unfolding send_stat
  statsd_counter client name v = send_stat (socket_of client) client.prefix (a_counter name v)

  unfoldable pub statsd_timer : Statsd → Bytes → ℕ → M N (Unit {0})
  unfolding send_stat
  statsd_timer client name v = send_stat (socket_of client) client.prefix (a_timer name v)

  unfoldable pub statsd_gauge : Statsd → Bytes → ℕ → M N (Unit {0})
  unfolding send_stat
  statsd_gauge client name v = send_stat (socket_of client) client.prefix (a_gauge name v)

  unfoldable pub statsd_set : Statsd → Bytes → ℕ → M N (Unit {0})
  unfolding send_stat
  statsd_set client name v = send_stat (socket_of client) client.prefix (a_set name v)
