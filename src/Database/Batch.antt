-- ===== src/Database/Batch.antt =====
-- A batch has a placeholder for each value that is bound.
use linux.Base.{
  ℕ, ◌+◌, ◌*◌, ◌≡◌, refl, List, [], ◌∷◌, ◌++◌, arith, Bytes, ◌==◌, if◌then◌else◌, length,
}
use linux.Database.{Entry, placeholders, batch_sql, batch_binds}

-- How often a character occurs.
pub count : ℕ → Bytes → ℕ
count c [] = 0
count c (x ∷ s) = (if x == c then 1 else 0) + count c s

count-append : (c : ℕ) (a b : Bytes) → count c (a ++ b) ≡ count c a + count c b
unfolding count
count-append c [] b = omega arith
count-append c (x ∷ a) b = omega (arith, count-append c a b)

count-placeholders :
    (md5 : Bytes → Bytes) (es : List Entry)
    → count b'?' (placeholders es) ≡ length (batch_binds md5 es)
unfolding placeholders batch_binds count
count-placeholders md5 [] = refl
count-placeholders md5 (e ∷ []) = refl
count-placeholders md5 (e ∷ f ∷ es) = omega (arith, count-placeholders md5 (f ∷ es))

-- The statement for a batch of any size has as many placeholders as there are values, four for each entry.
pub batch_sql-placeholders :
    (md5 : Bytes → Bytes) (es : List Entry)
    → (count b'?' (batch_sql es) ≡ length (batch_binds md5 es))
      × (length (batch_binds md5 es) ≡ 4 * length es)
unfolding batch_sql count batch_binds
batch_sql-placeholders md5 es = (omega (arith, count-placeholders md5 es), four es)
  where
    four : (es : List Entry) → length (batch_binds md5 es) ≡ 4 * length es
    four [] = refl
    four (e ∷ es) = omega (arith, four es)
