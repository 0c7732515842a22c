-- ===== src/Options/Kinds.antt =====
-- src/quitsies/options.hpp: the three classes of options. The library that splits the command line
-- is a parameter, a record of its operations on a state of its own.
use quitsies.Prelude.{
  ℕ, suc, Bool, true, false, List, [], ◌∷◌, if◌then◌else◌, Result, ok, err, M, ◌==◌,
}
use quitsies.Prelude.Int.{ℤ, pos, negsuc}
use quitsies.Text.{Bytes}
use quitsies.Text.Decimal.{print}
use quitsies.Text.Stoi.{stoll}

pub data ArgumentType : Type 0 where
  no_argument required : ArgumentType

-- `OptionHandler::Handler`, as far as the options use it. `add_option` may throw.
pub record Handler (H : Type 0) : Type 0 where
  pub make : List Bytes → H
  pub add_option : ℕ → Bytes → ArgumentType → Bool → H → Result H
  pub get_option : H → Bytes → Bool
  pub get_argument : H → Bytes → Bytes

-- The variables that the options point to, by number.
pub record Vars : Type 0 where
  pub bools : ℕ → Bool
  pub ints : ℕ → ℤ
  pub strs : ℕ → Bytes

-- `*_value = …`.
abbrev pub assign_at : {A : Type 0} → (ℕ → A) → ℕ → A → ℕ → A
assign_at f t a j = if t == j then a else f j

-- The fields are the members, and what the methods of the same names return. `value` is the variable.
pub record BoolOption : Type 0 where
  pub short_name : ℕ
  pub name : Bytes
  pub description : Bytes
  pub value : ℕ

pub record IntOption : Type 0 where
  pub short_name : ℕ
  pub name : Bytes
  pub description : Bytes
  pub value : ℕ

pub record StrOption : Type 0 where
  pub short_name : ℕ
  pub name : Bytes
  pub description : Bytes
  pub value : ℕ

abbrev pub int_text : ℤ → Bytes
int_text (pos n) = print n
int_text (negsuc n) = b'-' ∷ print (suc n)

unfoldable pub default_int : IntOption → Vars → Bytes
unfolding print
default_int o v = int_text (v.ints o.value)

module _ {H : Type 0} (handler : Handler H) where
  unfoldable pub register_bool : BoolOption → H → Result H
  register_bool o h = handler.add_option o.short_name o.name no_argument false h

  unfoldable pub read_bool : H → BoolOption → M Vars (Unit {0})
  read_bool h o v =
      if handler.get_option h o.name
      then (ok tt, record v { bools = assign_at v.bools o.value true })
      else (ok tt, v)

  unfoldable pub register_int : IntOption → H → Result H
  register_int o h = handler.add_option o.short_name o.name required false h

  -- A number that `stoll` refuses makes it throw, with the variable as it was.
  unfoldable pub read_int : H → IntOption → M Vars (Unit {0})
  unfolding stoll
  read_int h o v =
      if handler.get_option h o.name
      then elim (stoll (handler.get_argument h o.name)) [
        | err what ↦ (err what, v)
        | ok i ↦ (ok tt, record v { ints = assign_at v.ints o.value i })
      ]
      else (ok tt, v)

  unfoldable pub register_str : StrOption → H → Result H
  register_str o h = handler.add_option o.short_name o.name required false h

  unfoldable pub read_str : H → StrOption → M Vars (Unit {0})
  read_str h o v =
      if handler.get_option h o.name
      then (ok tt, record v { strs = assign_at v.strs o.value (handler.get_argument h o.name) })
      else (ok tt, v)

-- The abstract class `option`, by the class of the object.
pub data Choice : Type 0 where
  of_bool : BoolOption → Choice
  of_int : IntOption → Choice
  of_str : StrOption → Choice

-- The constructors of the classes.
abbrev pub bool_option : ℕ → Bytes → Bytes → ℕ → Choice
bool_option s n d t = of_bool (record { short_name = s; name = n; description = d; value = t })

abbrev pub int_option : ℕ → Bytes → Bytes → ℕ → Choice
int_option s n d t = of_int (record { short_name = s; name = n; description = d; value = t })

abbrev pub str_option : ℕ → Bytes → Bytes → ℕ → Choice
str_option s n d t = of_str (record { short_name = s; name = n; description = d; value = t })

abbrev pub short_name : Choice → ℕ
short_name (of_bool o) = o.short_name
short_name (of_int o) = o.short_name
short_name (of_str o) = o.short_name

abbrev pub name : Choice → Bytes
name (of_bool o) = o.name
name (of_int o) = o.name
name (of_str o) = o.name

abbrev pub description : Choice → Bytes
description (of_bool o) = o.description
description (of_int o) = o.description
description (of_str o) = o.description

unfoldable pub default_value : Choice → Vars → Bytes
unfolding default_int
default_value (of_bool o) v = []
default_value (of_int o) v = default_int o v
default_value (of_str o) v = v.strs o.value

module _ {H : Type 0} (handler : Handler H) where
  unfoldable pub register_option : Choice → H → Result H
  unfolding register_bool register_int register_str
  register_option (of_bool o) h = register_bool handler o h
  register_option (of_int o) h = register_int handler o h
  register_option (of_str o) h = register_str handler o h

  unfoldable pub read_option : H → Choice → M Vars (Unit {0})
  unfolding read_bool read_int read_str
  read_option h (of_bool o) v = read_bool handler h o v
  read_option h (of_int o) v = read_int handler h o v
  read_option h (of_str o) v = read_str handler h o v
