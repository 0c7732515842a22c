-- ===== src/Options/Tests.antt =====
-- Runs of `parse_arg_options` over a small handler, in which an argument follows its flag.
use quitsies.Prelude.{Bool, true, false, ◌≡◌, refl, List, [], ◌∷◌, ◌++◌, ok, All, if◌then◌else◌}
use quitsies.Prelude.Int.{pos}
use quitsies.Text.{Bytes, codes, eqb}
use quitsies.Text.Stoi.{stoll}
use quitsies.Options.Kinds.{Handler, Vars, bool_option, int_option, str_option}
use quitsies.Options.Parse.{Sections, options_of, register_with_help, parse_arg_options}
use quitsies.Options.Reads.{Reads, parse_arg_options-Reads}

abbrev has : List Bytes → Bytes → Bool
has [] name = false
has (word ∷ words) name = if eqb word (codes "--" ++ name) then true else has words name

abbrev behind : List Bytes → Bytes → Bytes
behind [] name = []
behind (word ∷ []) name = []
behind (word ∷ next ∷ words) name =
    if eqb word (codes "--" ++ name) then next else behind (next ∷ words) name

abbrev words : Handler (List Bytes)
words = record {
  make = λ args. args;
  add_option = λ s name type multiple h. ok h;
  get_option = has;
  get_argument = behind;
}

abbrev sections : Sections
sections =
    (codes "IO", int_option b'?' (codes "tcp_threads") (codes "Threads.") 0 ∷ [])
    ∷ (
      codes "DB",
      str_option b'?' (codes "db_path") (codes "Path.") 0
          ∷ bool_option b'd' (codes "db_debug") (codes "Debug.") 0
          ∷ [],
    )
    ∷ []

abbrev defaults : Vars
defaults = record { bools = λ t. false; ints = λ t. pos 10; strs = λ t. codes "/tmp/quitsies" }

abbrev line : List Bytes
line = codes "--tcp_threads" ∷ codes "4" ∷ codes "--db_debug" ∷ []

variables :
    let w = (parse_arg_options words (codes "quitsies") line sections defaults).1 in
    (w.ints 0 ≡ pos 4) × (w.strs 0 ≡ codes "/tmp/quitsies") × (w.bools 0 ≡ true)
unfolding parse_arg_options eqb stoll
variables = (refl, refl, refl)

printed_error :
    (parse_arg_options words
      (codes "quitsies")
      (codes "--tcp_threads" ∷ codes "x" ∷ [])
      sections
      defaults).0
    ≡ (false, codes "Parse input flags error: stoll\nUse -h, --help for a list of options\n")
unfolding parse_arg_options eqb stoll
printed_error = refl

parse_arg_options-Reads_example :
    (h : List Bytes) × (register_with_help words (options_of sections) line ≡ ok h)
    × (has h (codes "help") ≡ false)
    × All
        (Reads words h defaults
          (parse_arg_options words (codes "quitsies") line sections defaults).1)
        (options_of sections)
unfolding parse_arg_options eqb stoll
parse_arg_options-Reads_example =
    parse_arg_options-Reads words (codes "quitsies") line sections defaults
      ((refl, (refl, tt)), ((refl, tt), (tt, tt))) refl
