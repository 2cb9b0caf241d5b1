-- ===== src/Base/Decimal.antt =====
-- Numbers as `printf` writes them.
use linux_c_code.Base.{ℕ, zero, suc, ◌+◌, ◌-◌, ◌/◌, ◌%◌, List, [], ◌∷◌, ◌++◌, length, replicate}

-- The decimal digits of `%d`, the last one first, in at most `fuel` digits.
unfoldable pub digits_back : (fuel n : ℕ) → List ℕ
digits_back zero n = []
digits_back (suc fuel) zero = []
digits_back (suc fuel) (suc n) = (48 + suc n % 10) ∷ digits_back fuel (suc n / 10)

unfoldable pub reverse_onto : List ℕ → List ℕ → List ℕ
reverse_onto [] acc = acc
reverse_onto (x ∷ xs) acc = reverse_onto xs (x ∷ acc)

-- `%d` of a length, an `int` that is not negative: ten digits suffice below 2 ^ 31.
unfoldable pub decimal : ℕ → List ℕ
decimal zero = 48 ∷ []
decimal (suc n) = reverse_onto (digits_back 10 (suc n)) []

-- `%0wd`: zeros in front, up to `w` digits.
unfoldable pub padded : (w n : ℕ) → List ℕ
padded w n = let text = decimal n in replicate (w - length text) 48 ++ text
