-- ===== src/Base/Decimal.antt =====
-- Decimal numbers: `%u` and `%d` of printf, and `atoi` as the C library has it, which reads the
-- digits as a saturating `long` and cuts that to an `int`.
use Prim.Native.Nat.{ℕ, zero, suc, ◌+◌, ◌-◌, ◌*◌, ◌/◌, ◌%◌, ◌^◌, ◌<◌, min}
use mathlib.Core.Path.{◌≡◌, sym, ap, ◌∙◌}
use native.Mathlib.Omega.{arith}
use mathlib.Core.Bool.{Bool, true, ◌&&◌, ◌||◌}
use mathlib.Core.List.{[], ◌∷◌}
use stardictd.Base.Int.{ℤ, pos, negsuc}
use mathlib.Core.Logic.{inl, inr}
use stardictd.Base.Tests.{ltb, leb, ◌==◌, Bool-cases, if◌then◌else◌}
use stardictd.Base.Texts.{Bytes}

-- The digits of `n`, the lowest last, put before `rest`; one round of fuel for each digit.
unfoldable pub put_digits : ℕ → ℕ → Bytes → Bytes
put_digits zero n rest = rest
put_digits (suc fuel) n rest =
    let shown = (b'0' + n % 10) ∷ rest in
    let more = put_digits fuel (n / 10) shown in if ltb n 10 then shown else more

-- `%u`
unfoldable pub print_nat : ℕ → Bytes
print_nat n = put_digits (suc n) n []

-- `%d`
unfoldable pub print_int : ℤ → Bytes
print_int (pos n) = print_nat n
print_int (negsuc n) = b'-' ∷ print_nat (suc n)

abbrev pub is_digit : ℕ → Bool
is_digit c = leb b'0' c && leb c b'9'

-- The number that the leading digits stand for.
unfoldable pub read_digits : Bytes → ℕ → ℕ
read_digits [] n = n
read_digits (c ∷ s) n =
    let more = read_digits s (n * 10 + (c - b'0')) in if is_digit c then more else n

abbrev pub is_space : ℕ → Bool
is_space c = c == 32 || (leb 9 c && leb c 13)

-- A 64-bit `long` cut to a 32-bit `int`.
abbrev pub to_int : ℕ → ℤ
to_int n = let m = n % 2 ^ 32 in if ltb m (2 ^ 31) then pos m else negsuc (2 ^ 32 - 1 - m)

abbrev pub long_max : ℕ
long_max = 9223372036854775807

abbrev pub positive : ℕ → ℤ
positive n = to_int (min n long_max)

abbrev pub negative : ℕ → ℤ
negative n = to_int (2 ^ 64 - min n (suc long_max))

unfoldable pub atoi : Bytes → ℤ
unfolding read_digits
atoi [] = pos 0
atoi (c ∷ s) =
    let after = atoi s in
    if is_space c
    then after
    else (if c == b'-'
        then negative (read_digits s 0)
        else (if c == b'+' then positive (read_digits s 0) else positive (read_digits (c ∷ s) 0)))

read_last :
    (n : ℕ) (rest : Bytes) → read_digits ((b'0' + n % 10) ∷ rest) (n / 10) ≡ read_digits rest n
unfolding read_digits
read_last n rest = ground arith

read-put :
    (fuel n : ℕ) (rest : Bytes)
    → n < fuel
    → read_digits (put_digits fuel n rest) 0 ≡ read_digits rest n
unfolding put_digits
read-put zero n rest lt = absurd (omega arith)
read-put (suc fuel) n rest lt =
    grind (arith, read_last n rest, read-put fuel (n / 10) ((b'0' + n % 10) ∷ rest))

put_digits-cons :
    (fuel n : ℕ) (rest : Bytes)
    → n < fuel
    → (c : ℕ) × (s : Bytes) × (put_digits fuel n rest ≡ c ∷ s) × (is_digit c ≡ true)
unfolding put_digits
put_digits-cons zero n rest lt = absurd (omega arith)
put_digits-cons (suc fuel) n rest lt = elim (Bool-cases (ltb n 10)) [
  | inl small ↦ (b'0' + n % 10, rest, ground arith, ground arith)
  | inr large ↦
      let (c, s, e, d) = put_digits-cons fuel (n / 10) ((b'0' + n % 10) ∷ rest) (ground arith) in
      (c, s, ground (arith, e), d)
]

atoi-digit :
    (c : ℕ) (s : Bytes) → is_digit c ≡ true → atoi (c ∷ s) ≡ positive (read_digits (c ∷ s) 0)
unfolding atoi
atoi-digit c s d = ground arith

read-print : (n : ℕ) → read_digits (print_nat n) 0 ≡ n
unfolding print_nat read_digits
read-print n = read-put (suc n) n [] (omega arith)

-- `atoi` reads back every number below 2 ^ 31 that `%d` prints.
pub atoi-print_nat : (n : ℕ) → n < 2 ^ 31 → atoi (print_nat n) ≡ pos n
unfolding print_nat
atoi-print_nat n fits =
    let (c, s, e, d) = put_digits-cons (suc n) n [] (omega arith) in
    let read : read_digits (c ∷ s) 0 ≡ n = sym (ap (λ t. read_digits t 0) e) ∙ read-print n in
    rw (e, atoi-digit c s d, read) (ground arith)

pub atoi-print_int : (n : ℕ) → n < 2 ^ 31 → atoi (print_int (negsuc n)) ≡ negsuc n
unfolding print_int atoi
atoi-print_int n fits = rw (read-print (suc n)) (ground arith)
