-- ===== src/Service/Defaults.antt =====
-- The variables and the options of `main`: src/service.cpp, with those of the store.
use quitsies.Prelude.{ℕ, zero, suc, false, List, [], ◌∷◌}
use quitsies.Prelude.Int.{ℤ, pos, negsuc}
use quitsies.Text.{Bytes, codes}
use quitsies.Options.Kinds.{Vars, int_option, str_option}
use quitsies.Options.Parse.{Sections}
use quitsies.Db.Rocks.Open.{Settings, register_options}

-- The variables of `main`, by number: the texts are the three of HTTP, the two of TCP, the three of
-- statsd, the level and the path of the store, the numbers those of threads and of the store.
abbrev pub default_texts : List Bytes
default_texts =
    codes "localhost"
    ∷ codes "3058"
    ∷ codes "/quitsies"
    ∷ codes "localhost"
    ∷ codes "11211"
    ∷ codes ""
    ∷ codes "8125"
    ∷ codes "quitsies"
    ∷ codes "info"
    ∷ codes "/tmp/quitsies"
    ∷ []

abbrev pub default_numbers : List ℤ
default_numbers = pos 1 ∷ pos 10 ∷ pos 0 ∷ negsuc 0 ∷ pos 134217728 ∷ pos 4 ∷ pos 8388608 ∷ []

abbrev pub nth : {A : Type 0} → A → List A → ℕ → A
nth a [] n = a
nth a (x ∷ xs) zero = x
nth a (x ∷ xs) (suc n) = nth a xs n

abbrev pub default_vars : Vars
default_vars = record {
  bools = λ t. false;
  ints = nth (pos 0) default_numbers;
  strs = nth [] default_texts;
}

abbrev pub io_options : Sections
io_options =
    (
      codes "IO",
      str_option b'?' (codes "http_address") (codes "Address to bind to for HTTP.") 0
          ∷ str_option b'?' (codes "http_port") (codes "Port to bind to for HTTP.") 1
          ∷ str_option b'?' (codes "http_prefix") (codes "Path prefix for HTTP paths.") 2
          ∷ int_option b'?' (codes "http_threads") (codes "Number of HTTP threads.") 0
          ∷ str_option b'?' (codes "tcp_address") (codes "Address to bind to for TCP.") 3
          ∷ str_option b'?' (codes "tcp_port") (codes "Port to bind to for TCP.") 4
          ∷ int_option b'?' (codes "tcp_threads") (codes "Number of TCP threads.") 1
          ∷ str_option b'?' (codes "statsd_address")
              (codes "Address of the statsd server for sending metrics.") 5
          ∷ str_option b'?' (codes "statsd_port")
              (codes "Port of the statsd server for sending metrics.") 6
          ∷ str_option b'?' (codes "statsd_prefix") (codes "Prefix of statsd metrics.") 7
          ∷ str_option b'?' (codes "log_level")
              (codes "Level of logging (trace, debug, info, warn, err, critical, off).") 8
          ∷ [],
    )
    ∷ []

abbrev pub main_options : Sections
main_options = register_options 9 2 0 io_options

abbrev pub settings_of : Vars → Settings
settings_of v = record {
  path = v.strs 9;
  ttl = v.ints 2;
  memtable = v.ints 4;
  shard_bits = v.ints 5;
  block_cap = v.ints 6;
  max_files = v.ints 3;
  debug = v.bools 0;
  write_mode = v.bools 1;
  restore = v.bools 2;
}
