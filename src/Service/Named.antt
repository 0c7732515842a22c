-- ===== src/Service/Named.antt =====
-- Where each option of the command line goes: src/service.cpp with the options of
-- src/quitsies/db/rocks.cpp.
use quitsies.Prelude.{
  ◌⊎◌, inl, Bool, true, false, ◌≡◌, refl, sym, ap, subst, ◌∙◌, List, [], ◌∷◌, ℕ, Result, ok, err,
  if◌then◌else◌, All, arith, ltb, length,
}
use quitsies.Prelude.Int.{ℤ, pos, negsuc}
use quitsies.Text.{Bytes, codes}
use quitsies.Text.Stoi.{stoll}
use quitsies.Tcp.Server.{to_int}
use quitsies.Tcp.Server.Run.{run_threads}
use quitsies.Log.{Spdlog, create}
use quitsies.Options.Kinds.{Handler, Vars}
use quitsies.Options.Parse.{options_of, register_with_help}
use quitsies.Options.Reads.{a_bool, an_int, a_str, an_int_of, Reads}
use quitsies.Db.Rocks.Open.{Settings, Disk, rocks_open}
use quitsies.Service.Defaults.{main_options, default_vars, settings_of}
use quitsies.Service.{Network, Services, serves, main, main-serves, Started}

-- What the command line says of an option by its name, or the default.
abbrev pub told : {H : Type 0} → Handler H → H → Bytes → Bytes → Bytes
told handler h name old = if handler.get_option h name then handler.get_argument h name else old

abbrev pub told_number : {H : Type 0} → Handler H → H → Bytes → ℤ → Result ℤ
told_number handler h name old =
    if handler.get_option h name then stoll (handler.get_argument h name) else ok old

told-value :
    (b : Bool) (old x y : Bytes)
    → (if b then ok (a_str x) else ok (a_str old)) ≡ ok (a_str y)
    → (if b then x else old) ≡ y
told-value true old x y e = cc (e)
told-value false old x y e = cc (e)

number-value :
    (b : Bool) (old : ℤ) (r : Result ℤ) (y : ℤ)
    → (if b then an_int_of r else ok (an_int old)) ≡ ok (an_int y)
    → (if b then r else ok old) ≡ ok y
number-value true old (ok x) y e = cc (e)
number-value true old (err what) y e = cc (e)
number-value false old r y e = cc (e)

flag-value :
    (b y : Bool) → (if b then ok (a_bool true) else ok (a_bool false)) ≡ ok (a_bool y) → b ≡ y
flag-value true y e = cc (e)
flag-value false y e = cc (e)

-- The settings of the store hold what is said of the options with these names.
abbrev pub ToldSettings : {H : Type 0} → Handler H → H → Settings → Type 0
ToldSettings handler h t =
    (told handler h (codes "db_path") (codes "/tmp/quitsies") ≡ t.path)
    × (told_number handler h (codes "db_ttl") (pos 0) ≡ ok t.ttl)
    × (told_number handler h (codes "db_max_open_files") (negsuc 0) ≡ ok t.max_files)
    × (told_number handler h (codes "db_memtable") (pos 134217728) ≡ ok t.memtable)
    × (told_number handler h (codes "db_shard_bits") (pos 4) ≡ ok t.shard_bits)
    × (told_number handler h (codes "db_block_cap") (pos 8388608) ≡ ok t.block_cap)
    × (handler.get_option h (codes "db_debug") ≡ t.debug)
    × (handler.get_option h (codes "db_write_mode") ≡ t.write_mode)
    × (handler.get_option h (codes "db_restore_backup") ≡ t.restore)

module _ {H L W D : Type 0} (handler : Handler H) (spdlog : Spdlog L W) (before : W) (net : Network)
    (disk : Disk D) where
  -- The settings of the store, from what its variables hold.
  settings-told :
      (h : H) (v : Vars)
      → All (Reads handler h default_vars v) (options_of main_options)
      → ToldSettings handler h (settings_of v)
  settings-told h v reads =
      let db = reads.1.1.1.1.1.1.1.1.1.1.1 in
      (
        told-value _ _ _ _ db.0,
        number-value _ _ _ _ db.1.0,
        number-value _ _ _ _ db.1.1.0,
        number-value _ _ _ _ db.1.1.1.0,
        number-value _ _ _ _ db.1.1.1.1.0,
        number-value _ _ _ _ db.1.1.1.1.1.0,
        flag-value _ _ db.1.1.1.1.1.1.0,
        flag-value _ _ db.1.1.1.1.1.1.1.0,
        flag-value _ _ db.1.1.1.1.1.1.1.1.0,
      )

  -- What listens, and how many threads there are, by the names of the options.
  abbrev pub ToldServices : H → ℕ → D → Services L → Type 0
  ToldServices h answer d s =
      let text = told handler h in
      ((create spdlog (codes "quitsies") (text (codes "log_level") (codes "info")) before).0
        ≡ ok s.logger)
      × ((text (codes "statsd_address") [] ≡ [])
          ⊎ (net.connect_statsd (text (codes "statsd_address") [])
                (text (codes "statsd_port") (codes "8125"))
              ≡ ok tt))
      × (net.listen_tcp (text (codes "tcp_address") (codes "localhost"))
            (text (codes "tcp_port") (codes "11211"))
          ≡ ok tt)
      × (net.listen_http (text (codes "http_address") (codes "localhost"))
            (text (codes "http_port") (codes "3058"))
          ≡ ok tt)
      × ((n : ℤ) × (told_number handler h (codes "tcp_threads") (pos 10) ≡ ok n)
          × (s.tcp_threads ≡ run_threads (to_int n)))
      × ((n : ℤ) × (told_number handler h (codes "http_threads") (pos 1) ≡ ok n)
          × (s.http_threads ≡ to_int n))
      × ((t : Settings) × ToldSettings handler h t × ((rocks_open disk answer t d).0 ≡ ok tt))

  no_address :
      (host : Bytes) (r : Result (Unit {0}))
      → (if ltb 0 (length host) then r else ok tt) ≡ ok tt
      → (host ≡ []) ⊎ (r ≡ ok tt)
  no_address [] r e = inl refl
  no_address (b ∷ bs) r e = ground (arith, e)

  services-told :
      (h : H) (answer : ℕ) (d : D) (s : Services L)
      → All (Reads handler h default_vars s.vars) (options_of main_options)
      → ToldSettings handler h (settings_of s.vars)
      → Started handler spdlog before net disk answer d s
      → ToldServices h answer d s
  services-told h answer d s reads settings started = (
    ap (λ x. (create spdlog (codes "quitsies") x before).0)
          (told-value _ _ _ _ reads.1.1.1.1.1.1.1.1.1.1.0)
        ∙ started.0,
    subst
        (λ x.
          (x ≡ [])
          ⊎ (net.connect_statsd x (told handler h (codes "statsd_port") (codes "8125")) ≡ ok tt))
        (sym (told-value _ _ _ _ reads.1.1.1.1.1.1.1.0))
        (subst (λ y. (s.vars.strs 5 ≡ []) ⊎ (net.connect_statsd (s.vars.strs 5) y ≡ ok tt))
          (sym (told-value _ _ _ _ reads.1.1.1.1.1.1.1.1.0))
          (no_address (s.vars.strs 5) _ started.2)),
    ap (λ x. net.listen_tcp x (told handler h (codes "tcp_port") (codes "11211")))
          (told-value _ _ _ _ reads.1.1.1.1.0)
        ∙ ap (λ y. net.listen_tcp (s.vars.strs 3) y) (told-value _ _ _ _ reads.1.1.1.1.1.0)
        ∙ started.4,
    ap (λ x. net.listen_http x (told handler h (codes "http_port") (codes "3058")))
          (told-value _ _ _ _ reads.0)
        ∙ ap (λ y. net.listen_http (s.vars.strs 0) y) (told-value _ _ _ _ reads.1.0)
        ∙ started.5,
    (s.vars.ints 1, number-value _ _ _ _ reads.1.1.1.1.1.1.0, ap (λ x. x.tcp_threads) started.6),
    (s.vars.ints 0, number-value _ _ _ _ reads.1.1.1.0, ap (λ x. x.http_threads) started.6),
    (settings_of s.vars, settings, started.3),
  )

  -- When `main` comes to serve, the command line was understood, and each part was started with
  -- what it says of the options with these names, or with their defaults: the logger was made
  -- for the text of `log_level`; a statsd client was connected to `statsd_address` and `statsd_port`
  -- unless there is no address; the servers listen at `tcp_address` and `tcp_port`, and at
  -- `http_address` and `http_port`; as many threads run the memcached server as the low 32 bits of
  -- `tcp_threads` say, or the one that calls it; the HTTP server is given those of `http_threads`;
  -- and the store was opened with the settings that the nine options of the store say.
  pub main-told :
      (program : Bytes) (args : List Bytes) (answer : ℕ) (d : D) (s : Services L)
      → main handler spdlog before net disk program args answer d ≡ serves s
      → (h : H) × (register_with_help handler (options_of main_options) (handler.make args) ≡ ok h)
        × ToldServices h answer d s
  main-told program args answer d s e =
      let (h, registered, reads, started) =
        main-serves handler spdlog before net disk program args answer d s e in
      (h, registered, services-told h answer d s reads (settings-told h s.vars reads) started)
