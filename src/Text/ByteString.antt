-- ===== src/Text/ByteString.antt =====
-- Byte strings: `std::string` and `char` buffers as lists of byte values.
use Prim.Native.Char.{code}
use quitsies.Prelude.{
  ℕ, String, ◌≡◌, ◌↔◌, Bool, true, false, ◌&&◌, ◌||◌, List, [], ◌∷◌, arith, ◌==◌,
}

abbrev pub Bytes : Type 0
Bytes = List ℕ

-- The bytes of an ASCII literal.
abbrev pub codes : String → Bytes
codes String.[] = []
codes (String.◌∷◌ c s) = code c ∷ codes s

abbrev pub crlf : Bytes
crlf = b'\r' ∷ b'\n' ∷ []

-- `==` of `std::string`.
unfoldable pub eqb : Bytes → Bytes → Bool
eqb [] [] = true
eqb (x ∷ xs) (y ∷ ys) = x == y && eqb xs ys
eqb _ _ = false

pub eqb_iff : (a b : Bytes) → (eqb a b ≡ true) ↔ (a ≡ b)
unfolding eqb
eqb_iff (x ∷ a) (y ∷ b) = ground (arith, eqb_iff a b)
eqb_iff _ _ = ground arith

-- `isspace` in the C locale.
unfoldable pub is_space : ℕ → Bool
is_space c = c == 32 || c == 9 || c == 10 || c == 11 || c == 12 || c == 13
