-- ===== src/Options/Parse.antt =====
-- `parse_arg_options`: src/quitsies/options.cpp.
use quitsies.Prelude.{
  Bool, true, false, List, [], ◌∷◌, ◌++◌, if◌then◌else◌, Result, ok, err, M, ◌>>◌, pure, length,
  ltb, not, ◌==◌,
}
use quitsies.Text.{Bytes, codes}
use quitsies.Options.Kinds.{
  Handler, Vars, Choice, no_argument, short_name, name, description, default_value, register_option,
  read_option,
}

abbrev pub Sections : Type 0
Sections = List (Bytes × List Choice)

-- The options in the order in which the loops over the sections come to them.
abbrev pub options_of : Sections → List Choice
options_of [] = []
options_of ((title, os) ∷ ss) = os ++ options_of ss

-- The lines of `help_func`.
abbrev pub option_line : Vars → Choice → Bytes
option_line v o =
    let short = if not (short_name o == b'?') then b'-' ∷ short_name o ∷ codes ", " else [] in
    let default =
      if ltb 0 (length (default_value o v))
      then codes " (default: " ++ (default_value o v ++ codes ")")
      else [] in
    short ++ (codes "--" ++ (name o ++ (codes ", " ++ (description o ++ (default ++ codes "\n")))))

abbrev pub option_lines : Vars → List Choice → Bytes
option_lines v [] = []
option_lines v (o ∷ os) = option_line v o ++ option_lines v os

abbrev pub section_lines : Vars → Sections → Bytes
section_lines v [] = []
section_lines v ((title, os) ∷ ss) =
    codes "\n" ++ (title ++ (codes " options:\n\n" ++ (option_lines v os ++ section_lines v ss)))

unfoldable pub help_text : Bytes → Sections → Vars → Bytes
unfolding default_value
help_text program sections v =
    codes "Usage: "
    ++ (program
        ++ (codes " [OPTION]...\n\nGeneral options: \n\n-h, --help, Show this help page.\n"
            ++ section_lines v sections))

-- The `catch` of `parse_arg_options`.
abbrev pub flags_error : Bytes → Bytes
flags_error what =
    codes "Parse input flags error: " ++ (what ++ codes "\nUse -h, --help for a list of options\n")

-- What `read_all` came to.
abbrev pub report : Result (Unit {0}) × Vars → (Bool × Bytes) × Vars
report (ok tt, v) = ((true, []), v)
report (err what, v) = ((false, flags_error what), v)

module _ {H : Type 0} (handler : Handler H) where
  unfoldable pub register_all : List Choice → H → Result H
  unfolding register_option
  register_all [] h = ok h
  register_all (o ∷ os) h = elim (register_option handler o h) [
    | err what ↦ err what
    | ok g ↦ register_all os g
  ]

  -- Behind the options of the program comes that of the help page.
  unfoldable pub register_with_help : List Choice → H → Result H
  unfolding register_all
  register_with_help os h = elim (register_all os h) [
    | err what ↦ err what
    | ok g ↦ handler.add_option b'h' (codes "help") no_argument false g
  ]

  unfoldable pub read_all : H → List Choice → M Vars (Unit {0})
  unfolding read_option
  read_all h [] = pure tt
  read_all h (o ∷ os) = do read_option handler h o; read_all h os

  -- Behind the registration: the help page, or the reading of the options.
  unfoldable pub after_registration : Bytes → Sections → Vars → Result H → (Bool × Bytes) × Vars
  unfolding help_text read_all
  after_registration program sections v (err what) = ((false, flags_error what), v)
  after_registration program sections v (ok h) =
      if handler.get_option h (codes "help")
      then ((false, help_text program sections v), v)
      else report (read_all h (options_of sections) v)

  -- What it returns, what it prints, and the variables. `program` is `argv[0]`.
  unfoldable pub parse_arg_options : Bytes → List Bytes → Sections → Vars → (Bool × Bytes) × Vars
  unfolding register_with_help after_registration
  parse_arg_options program args sections v =
      after_registration program sections v
        (register_with_help (options_of sections) (handler.make args))
