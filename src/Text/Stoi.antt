-- ===== src/Text/Stoi.antt =====
-- `std::stoi` and `std::stoll` as the C++ library documents them: leading white space, a sign,
-- decimal digits, and whatever follows is ignored. Both of its exceptions carry the function's name
-- as their text.
use quitsies.Prelude.{
  ℕ, zero, suc, ◌^◌, ◌<◌, ◌≡◌, refl, sym, ap, ◌∙◌, Bool, true, false, [], ◌∷◌, arith, ltb, ◌==◌,
  if◌then◌else◌, Result, ok, err,
}
use quitsies.Prelude.Int.{ℤ, pos, negsuc}
use quitsies.Text.ByteString.{Bytes, codes, is_space}
use quitsies.Text.Decimal.{is_digit, IsDigit, read_digits, print, print-cons, read_digits-print}

abbrev starts_with_digit : Bytes → Bool
starts_with_digit [] = false
starts_with_digit (c ∷ cs) = is_digit c

-- The magnitude `m` with its sign, if the type, whose values are below `limit`, holds it.
to_int : ℕ → Bytes → Bool → ℕ → Result ℤ
to_int limit name false m = if ltb m limit then ok (pos m) else err name
to_int limit name true zero = ok (pos zero)
to_int limit name true (suc m) = if ltb m limit then ok (negsuc m) else err name

read_int : ℕ → Bytes → Bool → Bytes → Result ℤ
unfolding to_int
read_int limit name negative s =
    if starts_with_digit s then to_int limit name negative (read_digits 0 s) else err name

read_sign : ℕ → Bytes → Bytes → Result ℤ
unfolding read_int
read_sign limit name [] = err name
read_sign limit name (c ∷ cs) =
    if c == b'-'
    then read_int limit name true cs
    else if c == b'+'
    then read_int limit name false cs
    else read_int limit name false (c ∷ cs)

skip_space : Bytes → Bytes
skip_space [] = []
skip_space (c ∷ cs) = let rest = skip_space cs in if is_space c then rest else c ∷ cs

unfoldable pub stoi : Bytes → Result ℤ
unfolding skip_space read_sign is_space read_digits
stoi s = read_sign (2 ^ 31) (codes "stoi") (skip_space s)

-- `std::stoll`.
unfoldable pub stoll : Bytes → Result ℤ
unfolding skip_space read_sign is_space read_digits
stoll s = read_sign (2 ^ 63) (codes "stoll") (skip_space s)

read_sign-digit :
    (limit : ℕ) (name : Bytes) (c : ℕ) (cs : Bytes)
    → IsDigit c
    → read_sign limit name (skip_space (c ∷ cs)) ≡ read_int limit name false (c ∷ cs)
unfolding read_sign skip_space is_space
read_sign-digit limit name c cs h = ground arith

read_int-digit :
    (limit : ℕ) (name : Bytes) (c : ℕ) (cs : Bytes) (n : ℕ)
    → IsDigit c
    → read_digits 0 (c ∷ cs) ≡ n
    → n < limit
    → read_int limit name false (c ∷ cs) ≡ ok (pos n)
unfolding read_int
read_int-digit limit name c cs n d e h = ground arith

-- `stoi` reads back every printed number that an `int` holds.
pub stoi-print : (n : ℕ) → n < 2 ^ 31 → stoi (print n) ≡ ok (pos n)
unfolding stoi
stoi-print n h =
    let (c, cs, e, d) = print-cons n in
    rw e (
      read_sign-digit (2 ^ 31) (codes "stoi") c cs d
      ∙ read_int-digit (2 ^ 31) (codes "stoi") c cs n d
          (ap (read_digits 0) (sym e) ∙ read_digits-print n) h)

read_sign-minus :
    (limit : ℕ) (name cs : Bytes)
    → read_sign limit name (skip_space (b'-' ∷ cs)) ≡ read_int limit name true cs
unfolding read_sign skip_space is_space
read_sign-minus limit name cs = refl

read_int-minus :
    (limit : ℕ) (name : Bytes) (c : ℕ) (cs : Bytes) (n : ℕ)
    → IsDigit c
    → read_digits 0 (c ∷ cs) ≡ suc n
    → n < limit
    → read_int limit name true (c ∷ cs) ≡ ok (negsuc n)
unfolding read_int
read_int-minus limit name c cs n d e h = ground arith

-- So it does for a negative one.
pub stoi-minus : (n : ℕ) → n < 2 ^ 31 → stoi (b'-' ∷ print (suc n)) ≡ ok (negsuc n)
unfolding stoi
stoi-minus n h =
    let (c, cs, e, d) = print-cons (suc n) in
    rw e (
      read_sign-minus (2 ^ 31) (codes "stoi") (c ∷ cs)
      ∙ read_int-minus (2 ^ 31) (codes "stoi") c cs n d
          (ap (read_digits 0) (sym e) ∙ read_digits-print (suc n)) h)
