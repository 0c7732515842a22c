-- ===== src/Tcp/Request/Words.antt =====
-- What `request::process` does with a word and the white space behind it, and with a data block.
use native.Mathlib.Nat.{zero-add}
use quitsies.Prelude.{
  ◌↔◌, ℕ, ◌+◌, ◌-◌, true, false, ◌≡◌, ◌≢◌, refl, sym, ap, ◌∙◌, [], ◌∷◌, ◌++◌, Option, ok, arith,
  length, All, append-nil, append_assoc, ◌<◌, ◌^◌,
}
use quitsies.Prelude.Int.{ℤ, pos}
use quitsies.Text.{eqb_iff, Bytes, codes}
use quitsies.Text.Decimal.{print, IsDigit, print-All}
use quitsies.Text.Stoi.{stoi-print}
use quitsies.Db.Store.{Store}
use quitsies.Tcp.Request.Types.{
  Request, StatusType, data_block, CommandType, no_command, set, add, get, gets, delete, quit, ping,
}
use quitsies.Tcp.Request.Command.{is_white_space, command_from_str, status_from_command}
use quitsies.Tcp.Request.Process.{
  next, done, chain, push, push_key, is_data_block, is_finished, on_command, on_key, on_number,
  on_space, on_data, step, run,
}
use quitsies.Tcp.Request.Chunks.{run-cons}

-- No byte of it is white space.
abbrev pub IsWord : Bytes → Type 0
IsWord = All (λ c. is_white_space c ≡ false)

-- The name by which a client asks for a command.
unfoldable pub name : CommandType → Bytes
name set = codes "set"
name add = codes "add"
name get = codes "get"
name gets = codes "gets"
name delete = codes "delete"
name quit = codes "quit"
name ping = codes "ping"
name no_command = []

command_from_str-name : (c : CommandType) → command_from_str (name c) ≡ c
unfolding command_from_str name
command_from_str-name set = refl
command_from_str-name add = refl
command_from_str-name get = refl
command_from_str-name gets = refl
command_from_str-name delete = refl
command_from_str-name quit = refl
command_from_str-name ping = refl
command_from_str-name no_command = refl

command_from_str-named :
    (s : Bytes) (c : CommandType) → c ≢ no_command → command_from_str s ≡ c → s ≡ name c
unfolding command_from_str name
command_from_str-named s c h e = ground (
  arith,
  eqb_iff s (codes "set"),
  eqb_iff s (codes "add"),
  eqb_iff s (codes "get"),
  eqb_iff s (codes "gets"),
  eqb_iff s (codes "delete"),
  eqb_iff s (codes "quit"),
  eqb_iff s (codes "ping"),
)

-- A word is read as a command exactly if it is the name of that command, letter by letter.
pub command_from_str_iff :
    (s : Bytes) (c : CommandType) → c ≢ no_command → (command_from_str s ≡ c) ↔ (s ≡ name c)
command_from_str_iff s c h =
    (command_from_str-named s c h, λ e. ap command_from_str e ∙ command_from_str-name c)

pub name-IsWord : (c : CommandType) → IsWord (name c)
unfolding name is_white_space
name-IsWord set = (refl, (refl, (refl, tt)))
name-IsWord add = (refl, (refl, (refl, tt)))
name-IsWord get = (refl, (refl, (refl, tt)))
name-IsWord gets = (refl, (refl, (refl, (refl, tt))))
name-IsWord delete = (refl, (refl, (refl, (refl, (refl, (refl, tt))))))
name-IsWord quit = (refl, (refl, (refl, (refl, tt))))
name-IsWord ping = (refl, (refl, (refl, (refl, tt))))
name-IsWord no_command = tt

digit_not_space : (c : ℕ) → IsDigit c → is_white_space c ≡ false
unfolding is_white_space
digit_not_space c h = ground arith

digits-IsWord : (cs : Bytes) → All IsDigit cs → IsWord cs
digits-IsWord [] h = tt
digits-IsWord (c ∷ cs) h = (digit_not_space c h.0, digits-IsWord cs h.1)

pub print-IsWord : (n : ℕ) → IsWord (print n)
print-IsWord n = digits-IsWord (print n) (print-All n)

-- The word `w` behind what the buffer holds.
abbrev pub with_word : Request → Bytes → Request
with_word r w = record r { buffer = r.buffer ++ w }

module _ {S : Type 0} (db : Option (Store S)) where
  pub step_char :
      (c : ℕ) (r : Request) (s : S)
      → is_data_block r.status ≡ false
      → is_white_space c ≡ false
      → step db c (r, s) ≡ next (push r c, s)
  unfolding step
  step_char c r s d h = rw (d, h)

  pub step_space :
      (c : ℕ) (r : Request) (s : S)
      → is_data_block r.status ≡ false
      → is_white_space c ≡ true
      → step db c (r, s) ≡ on_space r.status db r s
  unfolding step
  step_space c r s d h = rw (d, h)

  pub run-word :
      (w rest : Bytes) (r : Request) (s : S)
      → is_data_block r.status ≡ false
      → IsWord w
      → run db (w ++ rest) (r, s) ≡ run db rest (with_word r w, s)
  run-word [] rest r s d h = rw append-nil
  run-word (c ∷ cs) rest r s d h =
      run-cons db c (cs ++ rest) (r, s)
      ∙ ap (λ f. chain f (run db (cs ++ rest))) (step_char c r s d h.0)
      ∙ run-word cs rest (push r c) s d h.1
      ∙ rw append_assoc

  -- A word and the white space behind it.
  pub run-word_space :
      (w : Bytes) (c : ℕ) (rest : Bytes) (r : Request) (s : S)
      → is_data_block r.status ≡ false
      → IsWord w
      → is_white_space c ≡ true
      → run db (w ++ c ∷ rest) (r, s) ≡ chain (on_space r.status db (with_word r w) s) (run db rest)
  run-word_space w c rest r s d h blank =
      run-word w (c ∷ rest) r s d h
      ∙ run-cons db c rest (with_word r w, s)
      ∙ ap (λ f. chain f (run db rest)) (step_space c (with_word r w) s d blank)

  -- Where the loop goes on behind the white space, and where it ends.
  pub run_on :
      (w : Bytes) (c : ℕ) (rest : Bytes) (r : Request) (s : S) (v : Request × S)
      → is_data_block r.status ≡ false
      → IsWord w
      → is_white_space c ≡ true
      → on_space r.status db (with_word r w) s ≡ next v
      → run db (w ++ c ∷ rest) (r, s) ≡ run db rest v
  run_on w c rest r s v d h blank e =
      run-word_space w c rest r s d h blank ∙ ap (λ f. chain f (run db rest)) e

  pub run_ends :
      (w : Bytes) (c : ℕ) (rest : Bytes) (r : Request) (s : S) (v : Request × S)
      → is_data_block r.status ≡ false
      → IsWord w
      → is_white_space c ≡ true
      → on_space r.status db (with_word r w) s ≡ done v
      → run db (w ++ c ∷ rest) (r, s) ≡ done v
  run_ends w c rest r s v d h blank e =
      run-word_space w c rest r s d h blank ∙ ap (λ f. chain f (run db rest)) e

  step_data :
      (c : ℕ) (r : Request) (s : S)
      → r.status ≡ data_block
      → 0 < r.remaining
      → step db c (r, s)
        ≡ next (record r { remaining = r.remaining - 1; buffer = r.buffer ++ c ∷ [] }, s)
  unfolding step on_data
  step_data c r s d h = ground arith

  -- The data block is taken as it is, whatever bytes it holds.
  pub run-data :
      (body rest : Bytes) (k : ℕ) (r : Request) (s : S)
      → r.status ≡ data_block
      → r.remaining ≡ length body + k
      → run db (body ++ rest) (r, s)
        ≡ run db rest (record r { buffer = r.buffer ++ body; remaining = k }, s)
  run-data [] rest k r s d h = λ i.
      run db rest
        (record r { buffer = sym (append-nil r.buffer) i; remaining = (h ∙ zero-add k) i }, s)
  run-data (c ∷ cs) rest k r s d h =
      run-cons db c (cs ++ rest) (r, s)
      ∙ ap (λ f. chain f (run db (cs ++ rest))) (step_data c r s d (omega arith))
      ∙ run-data cs rest k _ s d (omega arith)
      ∙ rw append_assoc

  pub on_command-name :
      (c : CommandType) (st : StatusType) (r : Request) (s : S)
      → r.buffer ≡ name c
      → status_from_command c ≡ ok st
      → is_finished st ≡ false
      → on_command db r s ≡ next (record r { cmd = c; buffer = []; status = st }, s)
  unfolding on_command
  on_command-name c st r s b e f = ground (arith, command_from_str-name c)

  pub on_key-word :
      (st : StatusType) (r : Request) (s : S)
      → r.buffer ≢ []
      → on_key st r s ≡ next (push_key r st, s)
  unfolding on_key
  on_key-word st r s h = ground arith

  pub on_number-print :
      (n : ℕ) (store : ℤ → Request → Request) (st : StatusType) (r : Request) (s : S)
      → n < 2 ^ 31
      → r.buffer ≡ print n
      → on_number store st r s ≡ next (record (store (pos n) r) { buffer = []; status = st }, s)
  unfolding on_number
  on_number-print n store st r s h e = ground (arith, stoi-print n)
