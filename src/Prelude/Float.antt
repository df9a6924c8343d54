-- ===== src/Prelude/Float.antt =====
-- float64 sums and differences of whole amounts, as in pkg/apis/info/resource_info.go: rounded to the
-- nearest number with 53 binary digits, and of two such numbers to the one that is even. An amount stays
-- far below the largest float64.
use pinta_scheduler.Prelude.{
  ℕ, zero, suc, ◌+◌, ◌*◌, ◌/◌, ◌%◌, ◌<◌, ◌≡◌, refl, arith, ap, true, ltb, ◌==◌, if◌then◌else◌,
}
use pinta_scheduler.Prelude.Int.{
  ℤ, pos, negsuc, sub_ℕ, abs_ℤ, ◌+ℤ◌, ◌-ℤ◌, +ℤ_zero, -ℤ_zero, +ℤ_cancel,
}

abbrev pub two_53 : ℕ
two_53 = 9007199254740992

-- The distance of the numbers with 53 digits around `n`. The exponents of a float64 end below 1024.
spacing : ℕ → ℕ → ℕ
spacing zero n = 1
spacing (suc fuel) n = let rest = spacing fuel (n / 2) in if ltb n two_53 then 1 else 2 * rest

-- The multiple of `s` that is nearest to `n`.
nearest : ℕ → ℕ → ℕ
nearest n s =
    let below = n / s in
    let rest = n % s * 2 in
    if ltb rest s
    then below * s
    else if ltb s rest
    then (below + 1) * s
    else if (below % 2) == 0
    then below * s
    else (below + 1) * s

unfoldable pub round_ℕ : ℕ → ℕ
unfolding spacing nearest
round_ℕ n = if ltb n two_53 then n else nearest n (spacing 1024 n)

unfoldable pub round_float : ℤ → ℤ
unfolding round_ℕ
round_float (pos n) = pos (round_ℕ n)
round_float (negsuc n) = sub_ℕ 0 (round_ℕ (suc n))

unfoldable pub float_add : ℤ → ℤ → ℤ
unfolding round_float
float_add a b = round_float (a +ℤ b)

unfoldable pub float_sub : ℤ → ℤ → ℤ
unfolding round_float
float_sub a b = round_float (a -ℤ b)

round_ℕ-small : (n : ℕ) → n < two_53 → round_ℕ n ≡ n
unfolding round_ℕ
round_ℕ-small n h = rw (ltb-true n two_53 h) refl
  where
    ltb-true : (m k : ℕ) → m < k → ltb m k ≡ true
    ltb-true m k h = ground arith

-- Below 2^53 nothing is rounded.
pub round_float_small : (a : ℤ) → abs_ℤ a < two_53 → round_float a ≡ a
unfolding round_float
round_float_small (pos n) h = ap pos (round_ℕ-small n (omega arith))
round_float_small (negsuc n) h = rw (round_ℕ-small (suc n) (omega arith)) (ground arith)

pub float_add_zero : (a : ℤ) → abs_ℤ a < two_53 → float_add a (pos 0) ≡ a
unfolding float_add
float_add_zero a h = rw (+ℤ_zero a) (round_float_small a h)

pub float_sub_zero : (a : ℤ) → abs_ℤ a < two_53 → float_sub a (pos 0) ≡ a
unfolding float_sub
float_sub_zero a h = rw (-ℤ_zero a) (round_float_small a h)

pub float_add-small : (a b : ℤ) → abs_ℤ (a +ℤ b) < two_53 → float_add a b ≡ a +ℤ b
unfolding float_add
float_add-small a b h = round_float_small (a +ℤ b) h

-- A sum below 2^53 is exact, and the difference of it and its second part the first one.
pub float_sub-float_add :
    (a b : ℤ) → abs_ℤ a < two_53 → abs_ℤ (a +ℤ b) < two_53 → float_sub (float_add a b) b ≡ a
unfolding float_add float_sub
float_sub-float_add a b h k =
    rw (round_float_small (a +ℤ b) k, +ℤ_cancel a b) (round_float_small a h)

-- 2^53 + 1 has 54 digits and is rounded to 2^53; 2^53 + 3 to 2^53 + 4.
rounds :
    (float_add (pos two_53) (pos 1) ≡ pos two_53)
    × (float_sub (negsuc 9007199254740990) (pos 4) ≡ negsuc 9007199254740995)
unfolding float_add float_sub ◌+ℤ◌ ◌-ℤ◌
rounds = (refl, refl)
