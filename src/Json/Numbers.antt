-- ===== src/Json/Numbers.antt =====
-- The readers of numbers on what `std::to_string` printed.
use linux.Base.{
  ℕ, zero, suc, ◌+◌, ◌-◌, ◌*◌, ◌/◌, ◌%◌, ◌^◌, ◌<◌, ◌≡◌, refl, ◌∙◌, inl, inr, Bool, true, not, some,
  [], ◌∷◌, ◌++◌, arith, Bytes, u64_mod, All, ltb, ◌==◌, lt→ltb, Bool-cases, length, length-append,
}
use linux.Decimal.{decimal, to_string, IsDigit, decimal-IsDigit, is_digit}
use linux.Json.{take_while, digits_value, stoull}

digits_value-snoc :
    (xs : Bytes) (c v : ℕ) → digits_value (xs ++ c ∷ []) v ≡ digits_value xs v * 10 + (c - b'0')
unfolding digits_value
digits_value-snoc [] c v = refl
digits_value-snoc (x ∷ xs) c v = digits_value-snoc xs c (v * 10 + (x - b'0'))

digits_value-decimal : (k v : ℕ) → v < 10 ^ suc k → digits_value (decimal k v) 0 ≡ v
unfolding digits_value decimal
digits_value-decimal zero v h = ground arith
digits_value-decimal (suc k) v h = elim (Bool-cases (ltb v 10)) [
  | inl e ↦ rw e (ground arith)
  | inr e ↦ rw e (
      digits_value-snoc (decimal k (v / 10)) (b'0' + v % 10) 0
      ∙ rw (digits_value-decimal k (v / 10) (omega arith)) (omega arith))
]

take_while-All : (p : ℕ → Bool) (xs : Bytes) → All (λ c. p c ≡ true) xs → take_while p xs ≡ xs
unfolding take_while
take_while-All p [] h = refl
take_while-All p (x ∷ xs) (h, hs) = rw (h, take_while-All p xs hs) refl

digit_tests :
    (xs : Bytes)
    → All IsDigit xs
    → All (λ c. is_digit c ≡ true) xs × All (λ c. not (c == 0) ≡ true) xs
unfolding is_digit
digit_tests [] h = (tt, tt)
digit_tests (x ∷ xs) (h, hs) =
    let rest = digit_tests xs hs in ((ground arith, rest.0), (ground arith, rest.1))

pub to_string-digits : (n : ℕ) → n < u64_mod → All IsDigit (to_string n)
unfolding to_string
to_string-digits n h = decimal-IsDigit 19 n (omega arith)

-- The text of a number holds no NUL.
pub to_string-no_nul :
    (n : ℕ) → n < u64_mod → take_while (λ c. not (c == 0)) (to_string n) ≡ to_string n
to_string-no_nul n h =
    take_while-All (λ c. not (c == 0)) (to_string n)
      (digit_tests (to_string n) (to_string-digits n h)).1

-- `std::stoull` reads back what `std::to_string` printed.
pub stoull-to_string : (n : ℕ) → n < u64_mod → stoull (take_while is_digit (to_string n)) ≡ some n
unfolding stoull to_string
stoull-to_string n h =
    let all : take_while is_digit (to_string n) ≡ to_string n =
      take_while-All is_digit (to_string n) (digit_tests (to_string n) (to_string-digits n h)).0 in
    rw (all, digits_value-decimal 19 n (omega arith), lt→ltb n u64_mod h) refl

decimal-nonempty : (k v : ℕ) → 0 < length (decimal k v)
unfolding decimal
decimal-nonempty zero v = omega arith
decimal-nonempty (suc k) v = elim (Bool-cases (ltb v 10)) [
  | inl e ↦ rw e (omega arith)
  | inr e ↦ rw e (omega (arith, length-append (decimal k (v / 10)) ((b'0' + v % 10) ∷ [])))
]

pub to_string-nonempty : (n : ℕ) → 0 < length (to_string n)
unfolding to_string
to_string-nonempty n = decimal-nonempty 19 n
