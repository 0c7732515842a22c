-- ===== src/Options/Reads.antt =====
-- What the variables hold behind `parse_arg_options`.
use quitsies.Prelude.{
  seq-both, Bool, true, false, ◌≡◌, refl, ◌∙◌, ap, sym, subst, List, [], ◌∷◌, Result, ok, err, All,
  arith, ◌==◌, ==_iff, Bool-cases, inl, inr, if◌then◌else◌,
}
use quitsies.Prelude.Int.{ℤ}
use quitsies.Text.{Bytes, codes}
use quitsies.Text.Stoi.{stoll}
use quitsies.Options.Kinds.{Handler, Vars, Choice, read_option, of_bool, of_int, of_str}
use quitsies.Options.Parse.{
  Sections, options_of, register_with_help, read_all, after_registration, parse_arg_options, report,
}

pub data Value : Type 0 where
  a_bool : Bool → Value
  an_int : ℤ → Value
  a_str : Bytes → Value

-- What the variable of an option holds.
abbrev pub value : Choice → Vars → Value
value (of_bool o) v = a_bool (v.bools o.value)
value (of_int o) v = an_int (v.ints o.value)
value (of_str o) v = a_str (v.strs o.value)

abbrev pub same_variable : Choice → Choice → Bool
same_variable (of_bool o) (of_bool p) = o.value == p.value
same_variable (of_int o) (of_int p) = o.value == p.value
same_variable (of_str o) (of_str p) = o.value == p.value
same_variable _ _ = false

-- No two options have one variable.
abbrev pub AreApart : List Choice → Type 0
AreApart [] = Unit {0}
AreApart (o ∷ os) = All (λ p. same_variable o p ≡ false) os × AreApart os

abbrev pub an_int_of : Result ℤ → Result Value
an_int_of (ok i) = ok (an_int i)
an_int_of (err what) = err what

module _ {H : Type 0} (handler : Handler H) where
  -- What the command line says of an option, whose default is `old`.
  abbrev pub wanted : H → Choice → Value → Result Value
  wanted h (of_bool o) old = if handler.get_option h o.name then ok (a_bool true) else ok old
  wanted h (of_int o) old =
      if handler.get_option h o.name
      then an_int_of (stoll (handler.get_argument h o.name))
      else ok old
  wanted h (of_str o) old =
      if handler.get_option h o.name then ok (a_str (handler.get_argument h o.name)) else ok old

  read_option-wanted :
      (h : H) (o : Choice) (v : Vars)
      → (read_option handler h o v).0 ≡ ok tt
      → wanted h o (value o v) ≡ ok (value o (read_option handler h o v).1)
  unfolding read_option
  read_option-wanted h (of_bool o) v e = ground (arith, ==_iff o.value o.value)
  read_option-wanted h (of_int o) v e = ground (arith, ==_iff o.value o.value)
  read_option-wanted h (of_str o) v e = ground (arith, ==_iff o.value o.value)

  read_option-other :
      (h : H) (o p : Choice) (v : Vars)
      → same_variable o p ≡ false
      → value p (read_option handler h o v).1 ≡ value p v
  unfolding read_option
  read_option-other h (of_bool o) (of_bool p) v a = ground arith
  read_option-other h (of_int o) (of_int p) v a = ground arith
  read_option-other h (of_str o) (of_str p) v a = ground arith
  read_option-other h (of_bool o) (of_int p) v a = ground arith
  read_option-other h (of_bool o) (of_str p) v a = ground arith
  read_option-other h (of_int o) (of_bool p) v a = ground arith
  read_option-other h (of_int o) (of_str p) v a = ground arith
  read_option-other h (of_str o) (of_bool p) v a = ground arith
  read_option-other h (of_str o) (of_int p) v a = ground arith

  read_all-other :
      (h : H) (os : List Choice) (p : Choice) (v : Vars)
      → All (λ o. same_variable p o ≡ false) os
      → (read_all handler h os v).0 ≡ ok tt
      → value p (read_all handler h os v).1 ≡ value p v
  unfolding read_all
  read_all-other h [] p v a e = refl
  read_all-other h (o ∷ os) p v a e =
      let one = read_option handler h o v in
      let (first, others, all) = seq-both one.0 one.1 (read_all handler h os) tt e in
      ap (λ r. value p r.1) all
      ∙ read_all-other h os p one.1 a.1 others
      ∙ read_option-other h o p v (same_variable_comm p o a.0)
    where
      same_variable_comm : (p o : Choice) → same_variable p o ≡ false → same_variable o p ≡ false
      same_variable_comm (of_bool o) (of_bool p) a = ground arith
      same_variable_comm (of_int o) (of_int p) a = ground arith
      same_variable_comm (of_str o) (of_str p) a = ground arith
      same_variable_comm _ _ a = ground arith

  abbrev pub Reads : H → Vars → Vars → Choice → Type 0
  Reads h v w o = wanted h o (value o v) ≡ ok (value o w)

  carried :
      (h : H) (o : Choice) (os : List Choice) (u v : Vars)
      → All (λ p. same_variable o p ≡ false) os
      → All (λ p. value p v ≡ value p u) os
      → All (λ p. value p (read_option handler h o v).1 ≡ value p u) os
  carried h o [] u v a same = tt
  carried h o (p ∷ os) u v a same =
      (read_option-other h o p v a.0 ∙ same.0, carried h o os u v a.1 same.1)

  read_all-Reads_from :
      (h : H) (os : List Choice) (u v : Vars)
      → AreApart os
      → All (λ o. value o v ≡ value o u) os
      → (read_all handler h os v).0 ≡ ok tt
      → All (Reads h u (read_all handler h os v).1) os
  unfolding read_all
  read_all-Reads_from h [] u v a same e = tt
  read_all-Reads_from h (o ∷ os) u v a same e =
      let one = read_option handler h o v in
      let (first, others, all) = seq-both one.0 one.1 (read_all handler h os) tt e in
      let kept = read_all-other h os o one.1 a.0 others in
      let head = ap (wanted h o) (sym same.0) ∙ read_option-wanted h o v first ∙ ap ok (sym kept) in
      let tail = read_all-Reads_from h os u one.1 a.1 (carried h o os u v a.0 same.1) others in
      subst (λ r. All (Reads h u r.1) (o ∷ os)) (sym all) (head, tail)

  unchanged : (os : List Choice) (v : Vars) → All (λ o. value o v ≡ value o v) os
  unchanged [] v = tt
  unchanged (o ∷ os) v = (refl, unchanged os v)

  reported :
      (r : Result (Unit {0}) × Vars) → (report r).0.0 ≡ true → (r.0 ≡ ok tt) × ((report r).1 ≡ r.1)
  reported (ok tt, v) e = (refl, refl)
  reported (err what, v) e = cc (e)

  read_all-Reads :
      (h : H) (os : List Choice) (v : Vars)
      → AreApart os
      → (report (read_all handler h os v)).0.0 ≡ true
      → All (Reads h v (report (read_all handler h os v)).1) os
  read_all-Reads h os v a e =
      let (fine, same) = reported (read_all handler h os v) e in
      subst (λ w. All (Reads h v w) os) (sym same)
        (read_all-Reads_from h os v v a (unchanged os v) fine)

  after_registration-Reads :
      (program : Bytes) (sections : Sections) (v : Vars) (r : Result H)
      → AreApart (options_of sections)
      → (after_registration handler program sections v r).0.0 ≡ true
      → (h : H) × (r ≡ ok h)
        × (handler.get_option h (codes "help") ≡ false)
        × All (Reads h v (after_registration handler program sections v r).1) (options_of sections)
  unfolding after_registration
  after_registration-Reads program sections v (err what) a e = cc (e)
  after_registration-Reads program sections v (ok h) a e =
      elim (Bool-cases (handler.get_option h (codes "help"))) [
        | inl help ↦ absurd (ne (rw help at e))
        | inr off ↦
            (h, refl, off, rw off (read_all-Reads h (options_of sections) v a (rw off at e)))
      ]
    where
      ne : false ≡ true → ⊥
      ne z = cc (z)

  -- When the program goes on behind the command line, every option was accepted, no help was asked
  -- for, and each variable holds what the command line says of its option: the number or the text
  -- of its argument, `true` for a flag that is there, and its default where the option is missing.
  -- No two options may point to one variable.
  pub parse_arg_options-Reads :
      (program : Bytes) (args : List Bytes) (sections : Sections) (v : Vars)
      → AreApart (options_of sections)
      → (parse_arg_options handler program args sections v).0.0 ≡ true
      → (h : H) × (register_with_help handler (options_of sections) (handler.make args) ≡ ok h)
        × (handler.get_option h (codes "help") ≡ false)
        × All
            (Reads h v (parse_arg_options handler program args sections v).1)
            (options_of sections)
  unfolding parse_arg_options
  parse_arg_options-Reads program args sections v a e =
      after_registration-Reads program sections v
        (register_with_help handler (options_of sections) (handler.make args)) a e
