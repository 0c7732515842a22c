-- ===== src/Service/Tests.antt =====
-- `main` at concrete command lines.
use quitsies.Prelude.{
  none, some, ℕ, if◌then◌else◌, ◌∷◌, true, false, ◌≡◌, refl, [], ltb, length, List, ok, err,
}
use quitsies.Text.{Bytes, codes, eqb}
use quitsies.Tcp.Server.Run.{run_threads}
use quitsies.Log.Tests.{no_loggers, spdlog}
use quitsies.Options.Kinds.{Handler}
use quitsies.Options.Parse.{options_of, register_with_help}
use quitsies.Db.Rocks.Engine.{EngineStatus}
use quitsies.Db.Rocks.Open.{Disk}
use quitsies.Service.Named.{ToldServices, main-told}
use quitsies.Service.{
  Network, main, main_options, default_vars, services_of, terminates, serves, returned,
}

-- A command line with at most the level.
abbrev bare : Handler (List Bytes)
bare = record {
  make = λ args. args;
  add_option = λ s name type multiple h. ok h;
  get_option = λ h name. if eqb name (codes "log_level") then ltb 0 (length h) else false;
  get_argument = λ h name. codes "loud";
}

abbrev fine : EngineStatus
fine = record { is_ok = true; is_not_found = false; text = [] }

abbrev disk : Disk ℕ
disk = record {
  open_backups = λ path d. (fine, d);
  restore_latest = λ path to d. (fine, d);
  open_db = λ options path ttl d. (fine, d);
}

-- No address is known to the statsd client.
abbrev net : Network
net = record {
  connect_statsd = λ host port. err (codes "host not found");
  listen_tcp = λ host port. ok tt;
  listen_http = λ host port. ok tt;
}

-- The exception for an unknown level leaves `main`.
unknown_level :
    main bare spdlog no_loggers net disk
      (codes "quitsies")
      (codes "--log_level" ∷ codes "loud" ∷ [])
      0
      0
    ≡ terminates (codes "Unrecognised log level: loud")
unfolding main eqb
unknown_level = refl

-- A command line with at most an address for statistics.
abbrev counting : Handler (List Bytes)
counting = record bare {
  get_option = λ h name. if eqb name (codes "statsd_address") then ltb 0 (length h) else false;
}

-- So does the one for a statsd server that is not found.
unknown_statsd :
    main counting spdlog no_loggers net disk
      (codes "quitsies")
      (codes "--statsd_address" ∷ codes "loud" ∷ [])
      0
      0
    ≡ terminates (codes "host not found")
unfolding main eqb
unknown_statsd = refl

-- Ten threads call `io_service::run`.
ten_threads :
    (services_of (codes "quitsies") default_vars).tcp_threads
    ≡ 9 ∷ 8 ∷ 7 ∷ 6 ∷ 5 ∷ 4 ∷ 3 ∷ 2 ∷ 1 ∷ 0 ∷ []
unfolding run_threads
ten_threads = refl

main-told_example :
    (h : List Bytes) × (register_with_help bare (options_of main_options) [] ≡ ok h)
    × ToldServices bare spdlog no_loggers net disk h 0 0
        (services_of (codes "quitsies") default_vars)
unfolding main eqb
main-told_example =
    main-told bare spdlog no_loggers net disk (codes "quitsies") [] 0 0
      (services_of (codes "quitsies") default_vars) refl

waits_for_both :
    (returned true false (serves (services_of (codes "quitsies") default_vars)) ≡ none)
    × (returned true true (serves (services_of (codes "quitsies") default_vars)) ≡ some 0)
unfolding returned
waits_for_both = (refl, refl)
