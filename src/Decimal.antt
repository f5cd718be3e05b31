-- ===== src/Decimal.antt =====
-- Decimal numbers in text: `std::to_string` of a `uint64_t` and `parseUint64Safe`.
use linux.Base.{
  ℕ, zero, suc, ◌+◌, ◌-◌, ◌*◌, ◌/◌, ◌%◌, ◌^◌, ◌≤◌, ◌<◌, ◌≡◌, ◌∙◌, inl, inr, Bool, false, ◌&&◌, [],
  ◌∷◌, ◌++◌, arith, Bytes, u64_mod, All, All-append, ltb, leb, if◌then◌else◌, ltb→lt, Bool-cases,
}

-- The decimal digits of `v` below `10 ^ (k + 1)`, highest first.
unfoldable pub decimal : ℕ → ℕ → Bytes
decimal zero v = (b'0' + v) ∷ []
decimal (suc k) v =
    let high = decimal k (v / 10) in
    if ltb v 10 then (b'0' + v) ∷ [] else high ++ (b'0' + v % 10) ∷ []

-- `std::to_string`: a `uint64_t` has at most twenty digits.
unfoldable pub to_string : ℕ → Bytes
to_string v = decimal 19 v

unfoldable pub is_digit : ℕ → Bool
is_digit c = leb b'0' c && leb c b'9'

-- The loop of `parseUint64Safe`, in `uint64_t` arithmetic.
parse_loop : Bytes → ℕ → ℕ
parse_loop [] v = v
parse_loop (ch ∷ s) v =
    let rest = parse_loop s ((v * 10 + (ch - b'0')) % u64_mod) in if is_digit ch then rest else 0

pub parse_uint64_safe : Bytes → ℕ
parse_uint64_safe s = parse_loop s 0

abbrev pub IsDigit : ℕ → Type 0
IsDigit c = (b'0' ≤ c) × (c ≤ b'9')

parse_loop-snoc :
    (xs : Bytes) (c v : ℕ)
    → All IsDigit xs
    → IsDigit c
    → parse_loop (xs ++ c ∷ []) v ≡ (parse_loop xs v * 10 + (c - b'0')) % u64_mod
unfolding parse_loop is_digit
parse_loop-snoc [] c v h hc = ground arith
parse_loop-snoc (x ∷ xs) c v h hc =
    ground (arith, parse_loop-snoc xs c ((v * 10 + (x - b'0')) % u64_mod) h.1 hc)

pub decimal-IsDigit : (k v : ℕ) → v < 10 ^ suc k → All IsDigit (decimal k v)
unfolding decimal
decimal-IsDigit zero v h = omega arith
decimal-IsDigit (suc k) v h = elim (Bool-cases (ltb v 10)) [
  | inl e ↦ rw e (omega (arith, ltb→lt v 10 e))
  | inr e ↦ rw e (
      All-append IsDigit (decimal k (v / 10)) ((b'0' + v % 10) ∷ [])
        (decimal-IsDigit k (v / 10) (omega arith)) (omega arith))
]

parse-decimal : (k v : ℕ) → v < 10 ^ suc k → v < u64_mod → parse_loop (decimal k v) 0 ≡ v
unfolding decimal parse_loop is_digit
parse-decimal zero v h hv = ground arith
parse-decimal (suc k) v h hv = elim (Bool-cases (ltb v 10)) [
  | inl e ↦ rw e (ground arith)
  | inr e ↦ rw e (
      parse_loop-snoc (decimal k (v / 10)) (b'0' + v % 10) 0
        (decimal-IsDigit k (v / 10) (omega arith)) (omega arith)
      ∙ rw (parse-decimal k (v / 10) (omega arith) (omega arith)) (omega arith))
]

-- `parseUint64Safe` reads back every `uint64_t` that `std::to_string` printed.
pub parse_uint64_safe-to_string : (n : ℕ) → n < u64_mod → parse_uint64_safe (to_string n) ≡ n
unfolding parse_uint64_safe to_string
parse_uint64_safe-to_string n h = parse-decimal 19 n (omega arith) h

parse_loop-reject : (xs ys : Bytes) (c v : ℕ) → is_digit c ≡ false → parse_loop (xs ++ c ∷ ys) v ≡ 0
unfolding parse_loop
parse_loop-reject [] ys c v h = rw h
parse_loop-reject (x ∷ xs) ys c v h =
    ground (arith, parse_loop-reject xs ys c ((v * 10 + (x - b'0')) % u64_mod))

-- A text with a character that is no digit parses as 0.
pub parse_uint64_safe_reject :
    (xs ys : Bytes) (c : ℕ) → is_digit c ≡ false → parse_uint64_safe (xs ++ c ∷ ys) ≡ 0
unfolding parse_uint64_safe
parse_uint64_safe_reject xs ys c h = parse_loop-reject xs ys c 0 h
