-- ===== src/Log/Created.antt =====
-- What src/quitsies/log/logger.cpp makes of spdlog's registry of loggers.
use quitsies.Prelude.{
  ℕ, ◌≡◌, refl, sym, subst, ap, ◌∙◌, ◌++◌, Option, none, some, Result, ok, err, arith,
}
use quitsies.Text.{Bytes, codes}
use quitsies.Log.{Level, level_name, level_of, level_of_iff, Spdlog, with_level, create}

-- What the registry has.
pub record Registry (L W : Type 0) : Type 0 where
  pub find : Bytes → W → Option L
  pub queue_size : W → ℕ
  pub level_at : L → W → Level
  pub queue_at : L → W → ℕ

-- What spdlog documents: a logger is made with the queue that was asked for, unless there is one of
-- its name, when an exception leaves everything as it was; and it keeps the level it is given.
pub record IsSpdlog {L W : Type 0} (lib : Spdlog L W) (reg : Registry L W) : Type 0 where
  pub mode_size : (n : ℕ) (w : W) → reg.queue_size (lib.set_async_mode n w) ≡ n
  pub mode_keeps :
      (n : ℕ) (name : Bytes) (w : W) → reg.find name (lib.set_async_mode n w) ≡ reg.find name w
  pub makes :
      (name : Bytes) (w : W)
      → reg.find name w ≡ none
      → (log : L) × (v : W) × (lib.stdout_logger_mt name w ≡ (ok log, v))
        × (reg.find name v ≡ some log)
        × (reg.queue_at log v ≡ reg.queue_size w)
  pub refuses :
      (name : Bytes) (w : W) (log : L)
      → reg.find name w ≡ some log
      → (what : Bytes) × (lib.stdout_logger_mt name w ≡ (err what, w))
  pub level_set : (log : L) (l : Level) (w : W) → reg.level_at log (lib.set_level log l w) ≡ l
  pub level_keeps :
      (log : L) (l : Level) (name : Bytes) (w : W)
      → reg.find name (lib.set_level log l w) ≡ reg.find name w
  pub level_queue :
      (log : L) (l : Level) (w : W) → reg.queue_at log (lib.set_level log l w) ≡ reg.queue_at log w

with_level-ok :
    {L W : Type 0} (lib : Spdlog L W) (r : Result Level) (made : Result L × W) (log : L)
    → (with_level lib r made).0 ≡ ok log
    → (l : Level) × (r ≡ ok l)
with_level-ok lib (ok l) (ok made, w) log e = (l, refl)
with_level-ok lib (ok l) (err what, w) log e = (l, refl)
with_level-ok lib (err what) (ok made, w) log e = cc (e)
with_level-ok lib (err text) (err what, w) log e = cc (e)

-- A logger is only made for the name of a level.
pub create-named :
    {L W : Type 0} (lib : Spdlog L W) (name level : Bytes) (w : W) (log : L)
    → (create lib name level w).0 ≡ ok log
    → (l : Level) × (level ≡ level_name l)
unfolding create
create-named lib name level w log e =
    let (l, named) =
      with_level-ok lib (level_of level) (lib.stdout_logger_mt name (lib.set_async_mode 8192 w)) log
        e in
    (l, (level_of_iff level l).0 named)

module _ {L W : Type 0} (lib : Spdlog L W) (reg : Registry L W) (law : IsSpdlog lib reg) where
  -- The registry has this logger by its name, with this level and this queue.
  abbrev pub Has : Bytes → L → Level → ℕ → W → Type 0
  Has name log l n w =
      (reg.find name w ≡ some log) × (reg.level_at log w ≡ l) × (reg.queue_at log w ≡ n)

  -- What comes of a level: a logger that has it, or an exception with the logger left behind, so
  -- that no other can be made by that name.
  abbrev pub Created : Bytes → Bytes → Result Level → Result L × W → Type 0
  Created name level (ok l) made =
      (log : L) × (made.0 ≡ ok log) × (level ≡ level_name l) × Has name log l 8192 made.1
  Created name level (err text) made =
      (made.0 ≡ err (codes "Unrecognised log level: " ++ level))
      × ((again : Bytes) → (what : Bytes) × (create lib name again made.1).0 ≡ err what)

  create-exists :
      (name level : Bytes) (w : W) (log : L)
      → reg.find name w ≡ some log
      → (what : Bytes) × ((create lib name level w).0 ≡ err what)
  unfolding create level_of
  create-exists name level w log e =
      let (what, made) =
        law.refuses name (lib.set_async_mode 8192 w) log (law.mode_keeps 8192 name w ∙ e) in
      (what, ap (λ x. (with_level lib (level_of level) x).0) made ∙ refused (level_of level) what)
    where
      refused :
          (r : Result Level) (what : Bytes)
          → (with_level lib r (err what, lib.set_async_mode 8192 w)).0 ≡ err what
      refused (ok l) what = refl
      refused (err text) what = refl

  level_of-err :
      (level text : Bytes)
      → level_of level ≡ err text
      → text ≡ codes "Unrecognised log level: " ++ level
  unfolding level_of
  level_of-err level text e = ground arith

  with_level-Created :
      (name level : Bytes) (r : Result Level) (log : L) (w : W)
      → level_of level ≡ r
      → reg.find name w ≡ some log
      → reg.queue_at log w ≡ 8192
      → Created name level r (with_level lib r (ok log, w))
  with_level-Created name level (ok l) log w e found queue = (
    log,
    refl,
    (level_of_iff level l).0 e,
    (law.level_keeps log l name w ∙ found, law.level_set log l w, law.level_queue log l w ∙ queue),
  )
  with_level-Created name level (err text) log w e found queue =
      (ap err (level_of-err level text e), λ again. create-exists name again w log found)

  pub create-Created :
      (name level : Bytes) (w : W)
      → reg.find name w ≡ none
      → Created name level (level_of level) (create lib name level w)
  unfolding create level_of
  create-Created name level w none_yet =
      let (log, v, made, found, queue) =
        law.makes name (lib.set_async_mode 8192 w) (law.mode_keeps 8192 name w ∙ none_yet) in
      subst (λ x. Created name level (level_of level) (with_level lib (level_of level) x))
        (sym made)
        (with_level-Created name level (level_of level) log v refl found
          (queue ∙ law.mode_size 8192 w))
