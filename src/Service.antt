-- ===== src/Service.antt =====
-- src/service.cpp: the program's `main`. The options and their variables are in Defaults.
mod Defaults
pub mod Named
mod Tests
pub use Defaults.*
use quitsies.Prelude.{
  ◌&&◌, Option, none, some, ◌-◌, ◌%◌, ◌^◌, ℕ, zero, suc, not, arith, Bool, true, false, ◌≡◌, ◌≢◌,
  refl, subst, ap, ◌∙◌, sym, List, [], ◌∷◌, if◌then◌else◌, ltb, length, Result, ok, err, All,
  Bool-cases, inl, inr,
}
use quitsies.Prelude.Int.{ℤ, pos, negsuc}
use quitsies.Text.{Bytes, codes}
use quitsies.Tcp.Server.{to_int}
use quitsies.Tcp.Server.Run.{run_threads}
use quitsies.Log.{Level, level_name, Spdlog, create}
use quitsies.Log.Created.{create-named}
use quitsies.Options.Kinds.{Handler, Vars, bool_option, int_option, str_option}
use quitsies.Options.Parse.{Sections, options_of, register_with_help, parse_arg_options}
use quitsies.Options.Apart.{are_apart, are_apart-AreApart}
use quitsies.Options.Reads.{Reads, parse_arg_options-Reads}
use quitsies.Db.Rocks.Open.{Settings, register_options, Disk, rocks_open}

-- What the constructors of the statsd client, of the memcached server and of the HTTP server may
-- throw, when a name has no address or an address cannot be bound.
pub record Network : Type 0 where
  pub connect_statsd : Bytes → Bytes → Result (Unit {0})
  pub listen_tcp : Bytes → Bytes → Result (Unit {0})
  pub listen_http : Bytes → Bytes → Result (Unit {0})

-- What runs when `main` waits: the calls of `io_service::run` of the memcached server, and the
-- number that the HTTP server is given.
pub record Services (L : Type 0) : Type 0 where
  pub logger : L
  pub sends_stats : Bool
  pub tcp_threads : List ℕ
  pub http_threads : ℤ
  pub vars : Vars

-- How far `main` comes. An exception that nothing catches terminates the program.
pub data Outcome (L : Type 0) : Type 0 where
  exits : ℕ → Outcome L
  terminates : Bytes → Outcome L
  serves : Services L → Outcome L

abbrev pub services_of : {L : Type 0} → L → Vars → Services L
services_of logger v = record {
  logger = logger;
  sends_stats = ltb 0 (length (v.strs 5));
  tcp_threads = run_threads (to_int (v.ints 1));
  http_threads = to_int (v.ints 0);
  vars = v;
}

-- What the process returns, by whether `run` of the HTTP server has returned and the thread of the
-- memcached server has ended. `main` waits for the first, and then for the second.
unfoldable pub returned : {L : Type 0} → Bool → Bool → Outcome L → Option ℕ
returned http tcp (exits code) = some code
returned http tcp (terminates what) = none
returned http tcp (serves s) = if http && tcp then some 0 else none

-- Goes on with what a call returned.
abbrev attempt : {A L : Type 0} → Result A → (Bytes → Outcome L) → (A → Outcome L) → Outcome L
attempt (ok a) failed go = go a
attempt (err what) failed go = failed what

attempt-serves :
    {A L : Type 0} (r : Result A) (failed : Bytes → Outcome L) (go : A → Outcome L) (s : Services L)
    → ((what : Bytes) → failed what ≢ serves s)
    → attempt r failed go ≡ serves s
    → (a : A) × (r ≡ ok a) × (go a ≡ serves s)
attempt-serves (ok a) failed go s n e = (a, refl, e)
attempt-serves (err what) failed go s n e = absurd (n what e)

-- `before` is what spdlog has when `main` begins.
module _ {H L W D : Type 0} (handler : Handler H) (spdlog : Spdlog L W) (before : W) (net : Network)
    (disk : Disk D) where
  -- `stats`, an aggregator that does nothing or one with a client.
  abbrev pub start_stats : Vars → Result (Unit {0})
  start_stats v =
      if ltb 0 (length (v.strs 5)) then net.connect_statsd (v.strs 5) (v.strs 6) else ok tt

  -- Behind the options. Only the opening of the database is in a `try`.
  unfoldable pub start_service : ℕ → D → Vars → Outcome L
  unfolding create rocks_open run_threads
  start_service answer d v =
      attempt (create spdlog (codes "quitsies") (v.strs 8) before).0 terminates (λ logger.
        attempt (start_stats v) terminates (λ u.
          attempt (rocks_open disk answer (settings_of v) d).0 (λ what. exits 1)
            (λ u. attempt (net.listen_tcp (v.strs 3) (v.strs 4)) terminates (λ u.
              attempt (net.listen_http (v.strs 0) (v.strs 1)) terminates
                (λ u. serves (services_of logger v))))))

  unfoldable pub after_options : ℕ → D → (Bool × Bytes) × Vars → Outcome L
  unfolding start_service
  after_options answer d ((true, printed), v) = start_service answer d v
  after_options answer d ((false, printed), v) = exits 1

  unfoldable pub main : Bytes → List Bytes → ℕ → D → Outcome L
  unfolding parse_arg_options after_options
  main program args answer d =
      after_options answer d (parse_arg_options handler program args main_options default_vars)

  -- What was started, and that it could be.
  abbrev pub Started : ℕ → D → Services L → Type 0
  Started answer d s =
      ((create spdlog (codes "quitsies") (s.vars.strs 8) before).0 ≡ ok s.logger)
      × ((l : Level) × (s.vars.strs 8 ≡ level_name l))
      × (start_stats s.vars ≡ ok tt)
      × ((rocks_open disk answer (settings_of s.vars) d).0 ≡ ok tt)
      × (net.listen_tcp (s.vars.strs 3) (s.vars.strs 4) ≡ ok tt)
      × (net.listen_http (s.vars.strs 0) (s.vars.strs 1) ≡ ok tt)
      × (s ≡ services_of s.logger s.vars)

  start_service-Started :
      (answer : ℕ) (d : D) (v : Vars) (s : Services L)
      → start_service answer d v ≡ serves s
      → Started answer d s × (v ≡ s.vars)
  unfolding start_service
  start_service-Started answer d v s e =
      let (logger, created, e1) =
        attempt-serves (create spdlog (codes "quitsies") (v.strs 8) before).0 _ _ s
          (λ what x. cc (x)) e in
      let (u1, stats, e2) = attempt-serves (start_stats v) _ _ s (λ what x. cc (x)) e1 in
      let (u2, opened, e3) =
        attempt-serves (rocks_open disk answer (settings_of v) d).0 _ _ s (λ what x. cc (x)) e2 in
      let (u3, tcp, e4) =
        attempt-serves (net.listen_tcp (v.strs 3) (v.strs 4)) _ _ s (λ what x. cc (x)) e3 in
      let (u4, http, e5) =
        attempt-serves (net.listen_http (v.strs 0) (v.strs 1)) _ _ s (λ what x. cc (x)) e4 in
      let same : services_of logger v ≡ s = cc (e5) in
      subst (λ x. Started answer d x × (v ≡ x.vars)) same
        (
          (
            created,
            create-named spdlog (codes "quitsies") (v.strs 8) before logger created,
            stats,
            opened,
            tcp,
            http,
            refl,
          ),
          refl,
        )

  after_options-cases :
      (answer : ℕ) (d : D) (o : Outcome L) (r : (Bool × Bytes) × Vars)
      → o ≢ exits 1
      → after_options answer d r ≡ o
      → (r.0.0 ≡ true) × (start_service answer d r.1 ≡ o)
  unfolding after_options
  after_options-cases answer d o ((true, printed), v) n e = (refl, e)
  after_options-cases answer d o ((false, printed), v) n e = absurd (n (sym e))

  -- When `main` comes to serve, each of its variables and of the store's holds what the command
  -- line says of its option, or its default; a logger was made, and the option names its level; the
  -- statsd client was connected if there is an address for it; the database is open; the two
  -- servers listen at the addresses and ports of the options; and as many threads run the memcached
  -- server as the low 32 bits of its option say, or the one that calls it.
  pub main-serves :
      (program : Bytes) (args : List Bytes) (answer : ℕ) (d : D) (s : Services L)
      → main program args answer d ≡ serves s
      → (h : H) × (register_with_help handler (options_of main_options) (handler.make args) ≡ ok h)
        × All (Reads handler h default_vars s.vars) (options_of main_options)
        × Started answer d s
  unfolding main
  main-serves program args answer d s e =
      let r = parse_arg_options handler program args main_options default_vars in
      let v = (parse_arg_options handler program args main_options default_vars).1 in
      let (went, ran) = after_options-cases answer d (serves s) r (λ x. cc (x)) e in
      let (h, registered, no_help, reads) =
        parse_arg_options-Reads handler program args main_options default_vars
          (are_apart-AreApart (options_of main_options) refl) went in
      let (started, same) = start_service-Started answer d v s ran in
      (
        h,
        registered,
        subst (λ u. All (Reads handler h default_vars u) (options_of main_options)) same reads,
        started,
      )
