-- ===== src/Base.antt =====
-- The names that the other modules share: the libraries', passed on, and those of the children.
-- A byte string is a list of numbers below 256; `size_t` and `uint64_t` are numbers below `2 ^ 64`.
mod Tests
mod Lists
pub mod Tabulate
pub mod Bits
pub mod Order
pub use Tests.*
pub use Lists.*
pub use Prim.Native.Nat.{ℕ, zero, suc, ◌+◌, ◌-◌, ◌*◌, ◌/◌, ◌%◌, ◌^◌, ◌≤◌, ◌<◌, min, max}
pub use Prim.Native.Nat.{bit_and, bit_or}
pub use mathlib.Core.Path.{◌≡◌, refl, sym, ap, ap₂, ◌∙◌, subst}
pub use mathlib.Core.Logic.{◌≢◌, ◌↔◌, ◌⊎◌, inl, inr}
pub use mathlib.Core.Bool.{Bool, true, false, ◌&&◌, ◌||◌, not}
pub use mathlib.Core.Option.{Option, none, some}
pub use mathlib.Core.List.{List, [], ◌∷◌, ◌++◌, map, append-nil, append_assoc}
pub use native.Mathlib.Omega.{arith}
use Prim.Native.String.{String}
use Prim.Native.Char.{code}

abbrev pub Bytes : Type 0
Bytes = List ℕ

abbrev pub u64_mod : ℕ
u64_mod = 2 ^ 64

-- A predicate on every element.
abbrev pub All {ℓ κ} : {A : Type ℓ} → (A → Type κ) → List A → Type κ
All P [] = Unit
All P (x ∷ xs) = P x × All P xs

pub All-append {ℓ κ} :
    {A : Type ℓ} (P : A → Type κ) (xs ys : List A) → All P xs → All P ys → All P (xs ++ ys)
All-append P [] ys hx hy = hy
All-append P (x ∷ xs) ys hx hy = (hx.0, All-append P xs ys hx.1 hy)

-- `std::string` equality.
unfoldable pub eqb : Bytes → Bytes → Bool
eqb [] [] = true
eqb [] (y ∷ ys) = false
eqb (x ∷ xs) [] = false
eqb (x ∷ xs) (y ∷ ys) = if x == y then eqb xs ys else false

pub eqb_refl : (xs : Bytes) → eqb xs xs ≡ true
unfolding eqb
eqb_refl [] = refl
eqb_refl (x ∷ xs) = ground (arith, eqb_refl xs)

pub eqb→eq : (xs ys : Bytes) → eqb xs ys ≡ true → xs ≡ ys
unfolding eqb
eqb→eq [] [] h = refl
eqb→eq [] (y ∷ ys) h = cc
eqb→eq (x ∷ xs) [] h = cc
eqb→eq (x ∷ xs) (y ∷ ys) h = ground (arith, eqb→eq xs ys)

-- The bytes of an ASCII text.
abbrev pub codes : String → Bytes
codes String.[] = []
codes (String.◌∷◌ c s) = code c ∷ codes s

-- `std::string::empty`.
abbrev pub is_empty {ℓ} : {A : Type ℓ} → List A → Bool
is_empty [] = true
is_empty (x ∷ xs) = false
