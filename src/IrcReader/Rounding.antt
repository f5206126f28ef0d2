-- ===== src/IrcReader/Rounding.antt =====
-- `roundUpToPowerOfTwo`: the result is not below the argument. The libraries have no laws of
-- `bit_or` at variables.
use Prim.Native.Nat.{bit_or-bitwise, digits, max}
use irc_go.Prelude.{ℕ, zero, suc, ◌-◌, ◌/◌, ◌^◌, ◌≤◌, ◌≡◌, refl, arith}
use irc_go.IrcReader.{smear, round_up_to_power_of_two}

abbrev or_digits : ℕ → ℕ → ℕ → ℕ
or_digits n a b = digits (λ b. b) max n a b

or_digits_fuel : (n m a b : ℕ) → a ≤ n → a ≤ m → or_digits n a b ≡ or_digits m a b
or_digits_fuel zero zero a b p q = refl
or_digits_fuel zero (suc m) zero b p q = refl
or_digits_fuel zero (suc m) (suc a) b p q = absurd (omega arith)
or_digits_fuel (suc n) zero zero b p q = refl
or_digits_fuel (suc n) zero (suc a) b p q = absurd (omega arith)
or_digits_fuel (suc n) (suc m) zero b p q = refl
or_digits_fuel (suc n) (suc m) (suc a) b p q =
    omega (arith, or_digits_fuel n m (suc a / 2) (b / 2) (omega arith) (omega arith))

le-or_digits : (n a b : ℕ) → a ≤ n → a ≤ or_digits n a b
le-or_digits zero zero b h = omega arith
le-or_digits zero (suc a) b h = absurd (omega arith)
le-or_digits (suc n) zero b h = omega arith
le-or_digits (suc n) (suc a) b h = omega (arith, le-or_digits n (suc a / 2) (b / 2) (omega arith))

le-smear : (k v : ℕ) → v ≤ smear k v
unfolding smear
le-smear k v =
    omega (arith, bit_or-bitwise v (v / 2 ^ k), le-or_digits v v (v / 2 ^ k) (omega arith))

-- The size of a new buffer is not below the size asked for.
pub le-round_up_to_power_of_two : (v : ℕ) → v ≤ round_up_to_power_of_two v
unfolding round_up_to_power_of_two
le-round_up_to_power_of_two v =
    let a = smear 1 (v - 1) in
    let b = smear 2 a in
    let c = smear 4 b in
    let d = smear 8 c in
    omega (arith, le-smear 1 (v - 1), le-smear 2 a, le-smear 4 b, le-smear 8 c, le-smear 16 d)
