-- ===== src/Options/Apart.antt =====
-- Whether the options of src/quitsies/options.hpp point to different variables.
use quitsies.Prelude.{
  Bool, true, false, ◌≡◌, List, [], ◌∷◌, All, Bool-cases, inl, inr, if◌then◌else◌,
}
use quitsies.Options.Kinds.{Choice}
use quitsies.Options.Reads.{same_variable, AreApart}

-- A test for `AreApart`.
abbrev is_apart_from : Choice → List Choice → Bool
is_apart_from o [] = true
is_apart_from o (p ∷ os) =
    let rest = is_apart_from o os in if same_variable o p then false else rest

abbrev pub are_apart : List Choice → Bool
are_apart [] = true
are_apart (o ∷ os) = let rest = are_apart os in if is_apart_from o os then rest else false

is_apart_from-All :
    (o : Choice) (os : List Choice)
    → is_apart_from o os ≡ true
    → All (λ p. same_variable o p ≡ false) os
is_apart_from-All o [] h = tt
is_apart_from-All o (p ∷ os) h = elim (Bool-cases (same_variable o p)) [
  | inl e ↦ cc (e, h)
  | inr e ↦ (e, is_apart_from-All o os (rw e at h))
]

pub are_apart-AreApart : (os : List Choice) → are_apart os ≡ true → AreApart os
are_apart-AreApart [] h = tt
are_apart-AreApart (o ∷ os) h = elim (Bool-cases (is_apart_from o os)) [
  | inl e ↦ (is_apart_from-All o os e, are_apart-AreApart os (rw e at h))
  | inr e ↦ cc (e, h)
]
