-- ===== src/Log/Tests.antt =====
-- The level of the logger at concrete options, and a registry of loggers that each name knows.
use quitsies.Prelude.{
  ℕ, Bool, true, false, ◌≡◌, refl, none, some, ok, err, if◌then◌else◌, Bool-cases, inl, inr,
}
use quitsies.Text.{Bytes, codes, eqb, eqb_iff}
use quitsies.Log.{Level, trace, warn, level_of, Spdlog, create}
use quitsies.Log.Created.{Registry, IsSpdlog, Created, create-Created}

a_level : level_of (codes "warn") ≡ ok warn
unfolding level_of eqb
a_level = refl

no_level : level_of (codes "warning") ≡ err (codes "Unrecognised log level: warning")
unfolding level_of eqb
no_level = refl

-- A logger is its name. The registry has the size of the next queue and, of each logger, its level
-- and queue.
pub record Loggers : Type 0 where
  pub size : ℕ
  pub made : Bytes → Bool
  pub levels : Bytes → Level
  pub queues : Bytes → ℕ

abbrev pub no_loggers : Loggers
no_loggers = record { size = 0; made = λ j. false; levels = λ j. trace; queues = λ j. 0 }

abbrev make : Bytes → Loggers → Loggers
make name w = record w {
  made = λ j. if eqb j name then true else w.made j;
  queues = λ j. if eqb j name then w.size else w.queues j;
}

abbrev pub spdlog : Spdlog Bytes Loggers
spdlog = record {
  set_async_mode = λ n w. record w { size = n };
  stdout_logger_mt =
      λ name w. if w.made name then (err (codes "already exists"), w) else (ok name, make name w);
  set_level = λ log l w. record w { levels = λ j. if eqb j log then l else w.levels j };
}

abbrev registry : Registry Bytes Loggers
registry = record {
  find = λ name w. if w.made name then some name else none;
  queue_size = λ w. w.size;
  level_at = λ log w. w.levels log;
  queue_at = λ log w. w.queues log;
}

eqb_refl : (name : Bytes) → eqb name name ≡ true
eqb_refl name = (eqb_iff name name).1 refl

spdlog-makes :
    (name : Bytes) (w : Loggers)
    → registry.find name w ≡ none
    → (log : Bytes) × (v : Loggers) × (spdlog.stdout_logger_mt name w ≡ (ok log, v))
      × (registry.find name v ≡ some log)
      × (registry.queue_at log v ≡ registry.queue_size w)
spdlog-makes name w e = elim (Bool-cases (w.made name)) [
  | inl f ↦ cc (e, f)
  | inr f ↦ (name, make name w, rw f refl, rw (eqb_refl name) refl, rw (eqb_refl name) refl)
]

spdlog-refuses :
    (name : Bytes) (w : Loggers) (log : Bytes)
    → registry.find name w ≡ some log
    → (what : Bytes) × (spdlog.stdout_logger_mt name w ≡ (err what, w))
spdlog-refuses name w log e = elim (Bool-cases (w.made name)) [
  | inl f ↦ (codes "already exists", rw f refl)
  | inr f ↦ cc (e, f)
]

spdlog-IsSpdlog : IsSpdlog spdlog registry
spdlog-IsSpdlog = record {
  mode_size = λ n w. refl;
  mode_keeps = λ n name w. refl;
  makes = spdlog-makes;
  refuses = spdlog-refuses;
  level_set = λ log l w. rw (eqb_refl log) refl;
  level_keeps = λ log l name w. refl;
  level_queue = λ log l w. refl;
}

create-Created_example :
    Created spdlog registry spdlog-IsSpdlog
      (codes "quitsies")
      (codes "warning")
      (level_of (codes "warning"))
      (create spdlog (codes "quitsies") (codes "warning") no_loggers)
create-Created_example =
    create-Created spdlog registry spdlog-IsSpdlog (codes "quitsies") (codes "warning") no_loggers
      refl
