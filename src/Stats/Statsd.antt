-- ===== src/Stats/Statsd.antt =====
-- src/quitsies/stats/statsd.hpp and statsd.cpp: the client that formats a statistic and sends it as
-- one datagram. `send_to` is the socket's, which may throw. The prefix is a part of the format, and
-- a percent sign in it is not modelled.
use quitsies.Prelude.{ℕ, ◌-◌, ◌%◌, ◌^◌, [], ◌∷◌, ◌++◌, if◌then◌else◌, M, raise, length, ltb, leb}
use quitsies.Text.{Bytes, codes}
use quitsies.Text.Decimal.{print}

-- What the client is asked to send, with the values of `intmax_t` and `uintmax_t` as 64-bit words.
pub data Stat : Type 0 where
  a_counter a_timer a_gauge a_set : Bytes → ℕ → Stat

-- The text of a name as `%s` reads it, up to a null byte.
unfoldable pub c_str : Bytes → Bytes
c_str [] = []
c_str (c ∷ cs) = let rest = c_str cs in if ltb 0 c then c ∷ rest else []

-- `%d` reads the low 32 bits of its argument as an `int`.
unfoldable pub print_d : ℕ → Bytes
unfolding print
print_d v =
    let low = v % 2 ^ 32 in if ltb low (2 ^ 31) then print low else b'-' ∷ print (2 ^ 32 - low)

-- The masks of `detail`, filled.
unfoldable pub stat_text : Bytes → Stat → Bytes
unfolding c_str print print_d
stat_text prefix (a_counter name v) =
    (prefix ++ codes ".") ++ (c_str name ++ (codes ":" ++ (print_d v ++ codes "|c")))
stat_text prefix (a_timer name v) =
    (prefix ++ codes ".") ++ (c_str name ++ (codes ":" ++ (print v ++ codes "|ms")))
stat_text prefix (a_gauge name v) =
    (prefix ++ codes ".") ++ (c_str name ++ (codes ":" ++ (print v ++ codes "|g")))
stat_text prefix (a_set name v) =
    (prefix ++ codes ".") ++ (c_str name ++ (codes ":" ++ (print_d v ++ codes "|s")))

abbrev pub max_buffer_size : ℕ
max_buffer_size = 256

abbrev pub too_long : Bytes
too_long = codes "stat message larger than max buffer size"

module _ {N : Type 0} (send_to : Bytes → M N (Unit {0})) (prefix : Bytes) where
  -- `send_stat`. A text is never empty, as the mask is not.
  unfoldable pub send_stat : Stat → M N (Unit {0})
  unfolding stat_text
  send_stat st =
      let text = stat_text prefix st in
      if leb max_buffer_size (length text) then raise too_long else send_to text
