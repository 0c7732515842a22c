-- ===== src/Tcp/Threads/Serial/Served.antt =====
-- The handlers of the commands that threads may begin: src/quitsies/tcp/request.cpp.
use quitsies.Prelude.{
  ℕ, ◌≡◌, refl, sym, subst, inl, inr, List, Option, some, ◌==◌, ==_iff, arith, Bool-cases, false,
  if◌then◌else◌,
}
use quitsies.Text.{Bytes}
use quitsies.Tcp.Request.Types.{CommandType}
use quitsies.Tcp.Threads.{Point, add_puts, delete_deletes, ended, first_point}
use quitsies.Tcp.Threads.Shared.{at}
use quitsies.Tcp.Threads.Calls.{NotSet}
use quitsies.Tcp.Threads.Serial.{Mode, adding, Serial, took, IsServed}
use quitsies.Tcp.Threads.Serial.Decides.{Decided}

-- A thread moves, and what is decided of the others stays.
pub at-Decided :
    (mode : Mode) (deleter : ℕ) (points : ℕ → Point) (decided after : ℕ → Option Bytes) (i : ℕ)
    (p : Point)
    → ((j : ℕ) → Decided mode deleter j (points j) (decided j))
    → Decided mode deleter i p (after i)
    → ((j : ℕ) → (i == j) ≡ false → after j ≡ decided j)
    → (j : ℕ) → Decided mode deleter j (at points i p j) (after j)
at-Decided mode deleter points decided after i p h here same j = elim (Bool-cases (i == j)) [
  | inl e ↦
      subst (λ b. Decided mode deleter j (if b then p else points j) (after j)) (sym e)
        (subst (λ k. Decided mode deleter k p (after k)) ((==_iff i j).0 e) here)
  | inr e ↦
      subst (λ b. Decided mode deleter j (if b then p else points j) (after j)) (sym e)
        (subst (Decided mode deleter j (points j)) (sym (same j e)) (h j))
]

pub took-other :
    (q p : Point) (i : ℕ) (g : Serial) (j : ℕ)
    → (i == j) ≡ false
    → (took q p i g).decided j ≡ g.decided j
took-other q p i g j e = ground arith

pub first_point-Decided :
    (mode : Mode) (deleter i : ℕ) (cmd : CommandType) (key : Bytes) (keys : List Bytes)
    (buffer : Bytes) (o : Option Bytes)
    → IsServed mode deleter i cmd keys
    → Decided mode deleter i (first_point cmd key keys buffer) o
first_point-Decided mode deleter i cmd key keys buffer o (inl (e, adds)) =
    subst (λ c. Decided mode deleter i (first_point c key keys buffer) o) (sym e) adds
first_point-Decided mode deleter i cmd key keys buffer o (inr (inl (e, sets))) =
    subst (λ c. Decided mode deleter i (first_point c key keys buffer) o) (sym e) sets
first_point-Decided mode deleter i cmd key keys buffer o (inr (inr (inl (e, no_keys)))) =
    subst (λ c. Decided mode deleter i (first_point c key keys buffer) o) (sym e) (no_keys, refl)
first_point-Decided mode deleter i cmd key keys buffer o (inr (inr (inr (e, mine)))) =
    subst (λ c. Decided mode deleter i (first_point c key keys buffer) o) (sym e) mine

pub served-NotSet :
    (mode : Mode) (deleter i : ℕ) (cmd : CommandType) (keys : List Bytes)
    → mode ≡ adding
    → IsServed mode deleter i cmd keys
    → NotSet cmd
served-NotSet mode deleter i cmd keys m (inl (e, adds)) f = cc (e, f)
served-NotSet mode deleter i cmd keys m (inr (inl (e, sets))) f = cc (m, sets)
served-NotSet mode deleter i cmd keys m (inr (inr (inl (e, no_keys)))) f = cc (e, f)
served-NotSet mode deleter i cmd keys m (inr (inr (inr (e, mine)))) f = cc (e, f)

pub deletes-mine :
    (mode : Mode) (deleter i : ℕ) (p : Point) (key : Bytes) (o : Option Bytes)
    → p ≡ delete_deletes key
    → Decided mode deleter i p o
    → i ≡ deleter
deletes-mine mode deleter i p key o e d = subst (λ q. Decided mode deleter i q o) e d

pub ended-Decided :
    (mode : Mode) (deleter i : ℕ) (p : Point) (reply : Bytes) (o : Option Bytes)
    → p ≡ ended reply
    → Decided mode deleter i p o
    → o ≡ some reply
ended-Decided mode deleter i p reply o e d = subst (λ q. Decided mode deleter i q o) e d

pub adds-mode :
    (mode : Mode) (deleter i : ℕ) (p : Point) (key value : Bytes) (o : Option Bytes)
    → p ≡ add_puts key value
    → Decided mode deleter i p o
    → mode ≡ adding
adds-mode mode deleter i p key value o e d = subst (λ q. Decided mode deleter i q o) e d
