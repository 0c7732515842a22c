-- ===== src/Text/Decimal.antt =====
-- Decimal text: what `operator<<` prints for an unsigned number, and reading digits back.
use quitsies.Prelude.{
  ℕ, zero, suc, ◌+◌, ◌-◌, ◌*◌, ◌/◌, ◌%◌, ◌<◌, ◌≡◌, ap, subst, ◌∙◌, inl, inr, Bool, true, ◌&&◌, [],
  ◌∷◌, arith, ltb, leb, if◌then◌else◌, Bool-cases, All,
}
use quitsies.Text.ByteString.{Bytes}

abbrev pub is_digit : ℕ → Bool
is_digit c = leb 48 c && leb c 57

-- The digits of `n` in front of `rest`.
print_onto : ℕ → ℕ → Bytes → Bytes
print_onto zero n rest = rest
print_onto (suc fuel) n rest =
    let more = print_onto fuel (n / 10) ((48 + n % 10) ∷ rest) in
    if ltb n 10 then (48 + n) ∷ rest else more

unfoldable pub print : ℕ → Bytes
unfolding print_onto
print n = print_onto (suc n) n []

-- The value of the digits at the front, behind `acc`.
unfoldable pub read_digits : ℕ → Bytes → ℕ
read_digits acc [] = acc
read_digits acc (c ∷ cs) = if is_digit c then read_digits (acc * 10 + (c - 48)) cs else acc

read_digits-cons :
    (acc d : ℕ) (rest : Bytes)
    → d < 10
    → read_digits acc ((48 + d) ∷ rest) ≡ read_digits (acc * 10 + d) rest
unfolding read_digits
read_digits-cons acc d rest h = ground arith

read_digits-print_onto :
    (fuel n : ℕ) (rest : Bytes)
    → n < fuel
    → read_digits 0 (print_onto fuel n rest) ≡ read_digits n rest
unfolding print_onto
read_digits-print_onto zero n rest h = elim h [ ]
read_digits-print_onto (suc fuel) n rest h = elim (Bool-cases (ltb n 10)) [
  | inl small ↦
      rw small
        (read_digits-cons 0 n rest (ground arith) ∙ ap (λ k. read_digits k rest) (omega arith))
  | inr large ↦ rw large (
      read_digits-print_onto fuel (n / 10) _ (ground arith)
      ∙ read_digits-cons (n / 10) (n % 10) rest (omega arith)
      ∙ ap (λ k. read_digits k rest) (omega arith))
]

-- Printing a number and reading the digits gives the number back.
pub read_digits-print : (n : ℕ) → read_digits 0 (print n) ≡ n
unfolding print read_digits
read_digits-print n = read_digits-print_onto (suc n) n [] (omega arith)

abbrev pub IsDigit : ℕ → Type 0
IsDigit c = is_digit c ≡ true

print_onto-All :
    (fuel n : ℕ) (rest : Bytes) → All IsDigit rest → All IsDigit (print_onto fuel n rest)
unfolding print_onto
print_onto-All zero n rest h = h
print_onto-All (suc fuel) n rest h = elim (Bool-cases (ltb n 10)) [
  | inl small ↦ rw small (ground arith, h)
  | inr large ↦ rw large (print_onto-All fuel (n / 10) _ (ground arith, h))
]

pub print-All : (n : ℕ) → All IsDigit (print n)
unfolding print
print-All n = print_onto-All (suc n) n [] tt

print_onto-cons :
    (fuel n : ℕ) (rest : Bytes)
    → n < fuel
    → (c : ℕ) × (cs : Bytes) × (print_onto fuel n rest ≡ c ∷ cs)
unfolding print_onto
print_onto-cons zero n rest h = elim h [ ]
print_onto-cons (suc fuel) n rest h = elim (Bool-cases (ltb n 10)) [
  | inl small ↦ (48 + n, rest, rw small)
  | inr large ↦ rw large (print_onto-cons fuel (n / 10) _ (ground arith))
]

-- The text of a number is not empty, and starts with a digit.
pub print-cons : (n : ℕ) → (c : ℕ) × (cs : Bytes) × (print n ≡ c ∷ cs) × (IsDigit c)
unfolding print
print-cons n =
    let (c, cs, e) = print_onto-cons (suc n) n [] (omega arith) in
    (c, cs, e, (subst (All IsDigit) e (print_onto-All (suc n) n [] tt)).0)
