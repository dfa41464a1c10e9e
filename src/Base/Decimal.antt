-- ===== src/Base/Decimal.antt =====
-- `std::to_string` of integers.
use Prim.Native.Nat.{ℕ, zero, suc, ◌+◌, ◌-◌, ◌*◌, ◌/◌, ◌%◌, ◌^◌, ◌≤◌, ◌<◌}
use mathlib.Core.Path.{◌≡◌, refl}
use mathlib.Core.List.{[], ◌∷◌, ◌++◌}
use native.Mathlib.Omega.{arith}
use native.Mathlib.Nat.{pow-suc}
use mathlib.Core.Logic.{inl, inr}
use myg3log.Base.Tests.{ltb, if◌then◌else◌, Bool-cases, ltb→lt, ltb-false→le}
use myg3log.Base.Lists.{length, length-append, All, All-append}
use myg3log.Base.Text.{Text, codes}
use myg3log.Base.Int.{ℤ, pos, negsuc}

-- The digits of a number, most significant first; each round of the fuel divides by ten.
digits_fuel : ℕ → ℕ → Text
digits_fuel zero n = []
digits_fuel (suc f) n =
    let more = digits_fuel f (n / 10) ++ (b'0' + n % 10) ∷ [] in
    if ltb n 10 then (b'0' + n) ∷ [] else more

unfoldable pub decimal : ℕ → Text
unfolding digits_fuel
decimal n = digits_fuel (suc n) n

-- `std::to_string(int)`.
unfoldable pub int_to_string : ℤ → Text
int_to_string (pos n) = decimal n
int_to_string (negsuc n) = b'-' ∷ decimal (suc n)

abbrev pub IsDigit : ℕ → Type 0
IsDigit c = (b'0' ≤ c) × (c ≤ b'9')

-- The number that digits spell behind `acc`.
abbrev pub value_from : ℕ → Text → ℕ
value_from acc [] = acc
value_from acc (c ∷ s) = value_from (acc * 10 + (c - b'0')) s

pub value_from-append :
    (xs ys : Text) (acc : ℕ) → value_from acc (xs ++ ys) ≡ value_from (value_from acc xs) ys
value_from-append [] ys acc = refl
value_from-append (x ∷ xs) ys acc = value_from-append xs ys (acc * 10 + (x - b'0'))

-- With enough fuel the digits spell the number.
digits_fuel_lem :
    (f n : ℕ) → n < f → (value_from 0 (digits_fuel f n) ≡ n) × All IsDigit (digits_fuel f n)
unfolding digits_fuel
digits_fuel_lem zero n h = absurd (omega arith)
digits_fuel_lem (suc f) n h = elim (Bool-cases (ltb n 10)) [
  | inl e ↦
      let small : n < 10 = ltb→lt n 10 e in rw e (omega arith, ((omega arith, omega arith), tt))
  | inr e ↦
      let large : 10 ≤ n = ltb-false→le n 10 e in
      let (v, d) = digits_fuel_lem f (n / 10) (omega arith) in
      rw e (
        rw (value_from-append (digits_fuel f (n / 10)) _ 0, v) (omega arith),
        All-append IsDigit _ _ d ((omega arith, omega arith), tt),
      )
]

pub value_from-decimal : (n : ℕ) → value_from 0 (decimal n) ≡ n
unfolding decimal
value_from-decimal n = (digits_fuel_lem (suc n) n (omega arith)).0

pub decimal-IsDigit : (n : ℕ) → All IsDigit (decimal n)
unfolding decimal
decimal-IsDigit n = (digits_fuel_lem (suc n) n (omega arith)).1

digits_fuel-length : (f n k : ℕ) → n < f → n < 10 ^ suc k → length (digits_fuel f n) ≤ suc k
unfolding digits_fuel
digits_fuel-length zero n k h b = omega arith
digits_fuel-length (suc f) n zero h b = ground arith
digits_fuel-length (suc f) n (suc k) h b = elim (Bool-cases (ltb n 10)) [
  | inl e ↦ rw e (omega arith)
  | inr e ↦
      let large : 10 ≤ n = ltb-false→le n 10 e in
      let b' : n < 10 ^ suc k * 10 = rw pow-suc at b in
      rw (e, length-append (digits_fuel f (n / 10)) _)
        (omega (arith, digits_fuel-length f (n / 10) k (omega arith) (omega arith)))
]

-- A number below 10 ^ (k + 1) has at most k + 1 digits.
pub decimal-length : (n k : ℕ) → n < 10 ^ suc k → length (decimal n) ≤ suc k
unfolding decimal
decimal-length n k h = digits_fuel-length (suc n) n k (omega arith) h

decimal_runs : decimal 1200345 ≡ codes "1200345"
unfolding decimal codes
decimal_runs = refl
