-- ===== src/Log.antt =====
-- src/quitsies/log/logger.cpp: the level of the logger by its name, and its creation. The logger
-- itself is that of src/spdlog, a parameter.
pub mod Created
pub mod Tests
use quitsies.Prelude.{
  ℕ, Bool, true, false, ◌≡◌, ◌↔◌, refl, ap, ◌∙◌, ◌++◌, if◌then◌else◌, Result, ok, err, arith,
}
use quitsies.Text.{Bytes, codes, eqb, eqb_iff}

pub data Level : Type 0 where
  trace debug info warn error_level critical off : Level

-- The chain of comparisons, and its exception.
unfoldable pub level_of : Bytes → Result Level
unfolding eqb
level_of level =
    if eqb level (codes "trace")
    then ok trace
    else if eqb level (codes "debug")
    then ok debug
    else if eqb level (codes "info")
    then ok info
    else if eqb level (codes "warn")
    then ok warn
    else if eqb level (codes "err")
    then ok error_level
    else if eqb level (codes "critical")
    then ok critical
    else if eqb level (codes "off")
    then ok off
    else err (codes "Unrecognised log level: " ++ level)

abbrev pub level_name : Level → Bytes
level_name trace = codes "trace"
level_name debug = codes "debug"
level_name info = codes "info"
level_name warn = codes "warn"
level_name error_level = codes "err"
level_name critical = codes "critical"
level_name off = codes "off"

level_of-level_name : (l : Level) → level_of (level_name l) ≡ ok l
unfolding level_of
level_of-level_name trace = refl
level_of-level_name debug = refl
level_of-level_name info = refl
level_of-level_name warn = refl
level_of-level_name error_level = refl
level_of-level_name critical = refl
level_of-level_name off = refl

level_of-named : (level : Bytes) (l : Level) → level_of level ≡ ok l → level ≡ level_name l
unfolding level_of
level_of-named level l e = ground (
  arith,
  eqb_iff level (codes "trace"),
  eqb_iff level (codes "debug"),
  eqb_iff level (codes "info"),
  eqb_iff level (codes "warn"),
  eqb_iff level (codes "err"),
  eqb_iff level (codes "critical"),
  eqb_iff level (codes "off"),
)

-- A logger has a level exactly if the option is the name of that level, letter by letter.
pub level_of_iff : (level : Bytes) (l : Level) → (level_of level ≡ ok l) ↔ (level ≡ level_name l)
level_of_iff level l = (level_of-named level l, λ e. ap level_of e ∙ level_of-level_name l)

-- The calls of spdlog. `L` stands for a pointer to a logger, and `W` for the loggers there are and
-- how the next is made.
pub record Spdlog (L W : Type 0) : Type 0 where
  pub set_async_mode : ℕ → W → W
  pub stdout_logger_mt : Bytes → W → Result L × W
  pub set_level : L → Level → W → W

-- Behind the making of the logger.
abbrev pub with_level : {L W : Type 0} → Spdlog L W → Result Level → Result L × W → Result L × W
with_level lib (ok l) (ok log, w) = (ok log, lib.set_level log l w)
with_level lib (err what) (ok log, w) = (err what, w)
with_level lib level (err what, w) = (err what, w)

unfoldable pub create : {L W : Type 0} → Spdlog L W → Bytes → Bytes → W → Result L × W
unfolding level_of
create lib name level w =
    with_level lib (level_of level) (lib.stdout_logger_mt name (lib.set_async_mode 8192 w))
