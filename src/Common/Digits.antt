-- ===== src/Common/Digits.antt =====
-- Numbers in a base: math/big's `SetBytes` and `Bytes` (base 256, big-endian), and the `%d` of
-- package fmt. `digits` and `value` are little-endian.
use Prim.Native.Nat.{ℕ, zero, suc, ◌+◌, ◌-◌, ◌*◌, ◌/◌, ◌%◌, ◌≤◌, ◌<◌}
use mathlib.Core.Path.{◌≡◌, refl, ap, ◌∙◌}
use mathlib.Core.Bool.{false}
use mathlib.Core.Logic.{inl, inr}
use mathlib.Core.List.{List, [], ◌∷◌, ◌++◌, map, reverse, reverse-reverse, reverse-cons}
use native.Mathlib.Omega.{arith}
use native.Mathlib.Nat.{
  mod-lt, div-lt_self, div-add-mod, add-mul-div_left, add-mul-mod_self_left, div-eq_of_lt,
  mod-eq_of_lt,
}
use mpc_go.Common.Numbers.{◌==◌, if◌then◌else◌, Bool-cases, ==_iff}
use mpc_go.Common.Lists.{All, All-append}
use mpc_go.Common.Strings.{Text, codes}

-- On fuel: `n` rounds are enough, since each divides by the base.
unfoldable pub digits : ℕ → ℕ → ℕ → List ℕ
digits b zero n = []
digits b (suc f) n = let rest = digits b f (n / b) in if n == 0 then [] else (n % b) ∷ rest

unfoldable pub value : ℕ → List ℕ → ℕ
value b [] = 0
value b (d ∷ ds) = d + b * value b ds

-- `new(big.Int).SetBytes` and `Bytes`: the latter has no leading zero.
unfoldable pub set_bytes : Text → ℕ
set_bytes s = value 256 (reverse s)

unfoldable pub bytes : ℕ → Text
bytes n = reverse (digits 256 n n)

-- `%d` of a number that is not negative.
unfoldable pub decimal : ℕ → Text
decimal n = if n == 0 then b'0' ∷ [] else reverse (map (λ d. b'0' + d) (digits 10 n n))

-- The last digit, which is the leading one, is not zero.
abbrev pub Ends : List ℕ → Type 0
Ends [] = ⊥
Ends (d ∷ []) = 0 < d
Ends (d ∷ e ∷ ds) = Ends (e ∷ ds)

module _ (b : ℕ) (base : 1 < b) where
  -- With enough fuel the digits stand for the number.
  pub value-digits : (f n : ℕ) → n ≤ f → value b (digits b f n) ≡ n
  unfolding value digits
  value-digits zero n h = omega arith
  value-digits (suc f) n h = elim (Bool-cases (n == 0)) [
    | inl z ↦ rw z (omega (arith, (==_iff n 0).0 z))
    | inr p ↦ rw p (
        omega (
          arith,
          ap (λ (t : ℕ). b * t) (value-digits f (n / b) (omega (arith, smaller n p))),
          div-add-mod n b,
        ))
  ]
    where
      smaller : (n : ℕ) → (n == 0) ≡ false → n / b < n
      smaller n p = div-lt_self (ground arith) base

  pub digits-All : (f n : ℕ) → All (λ d. d < b) (digits b f n)
  unfolding digits
  digits-All zero n = tt
  digits-All (suc f) n = elim (Bool-cases (n == 0)) [
    | inl z ↦ rw z tt
    | inr p ↦ rw p (mod-lt n (omega arith), digits-All f (n / b))
  ]

  Ends-value-pos : (ds : List ℕ) → Ends ds → 0 < value b ds
  unfolding value
  Ends-value-pos [] h = absurd h
  Ends-value-pos (d ∷ []) h = grind arith
  Ends-value-pos (d ∷ e ∷ ds) h = grind (arith, Ends-value-pos (e ∷ ds) h)

  smaller : (f d v : ℕ) → 0 < v → d + b * v ≤ suc f → v ≤ f
  smaller f d v p h = grind arith

  digits_zero : (f : ℕ) → digits b f 0 ≡ []
  unfolding digits
  digits_zero zero = refl
  digits_zero (suc f) = refl

  digits_step :
      (f d v : ℕ) → d < b → 0 < d + b * v → digits b (suc f) (d + b * v) ≡ d ∷ digits b f v
  unfolding digits
  digits_step f d v h p =
      rw
        (
          positive,
          add-mul-div_left d v {y = b} (omega arith),
          div-eq_of_lt h,
          add-mul-mod_self_left d b v,
        )
        (rw (mod-eq_of_lt h) (ap (λ (t : ℕ). d ∷ digits b f t) (omega arith)))
    where
      positive : (d + b * v == 0) ≡ false
      positive = ground arith

  -- The digits of a number are the only ones without a leading zero.
  pub digits-value :
      (f : ℕ) (ds : List ℕ)
      → All (λ d. d < b) ds
      → Ends ds
      → value b ds ≤ f
      → digits b f (value b ds) ≡ ds
  unfolding value
  digits-value f [] h e le = absurd e
  digits-value zero (d ∷ ds) h e le = absurd (omega (arith, Ends-value-pos (d ∷ ds) e))
  digits-value (suc f) (d ∷ []) h e le =
      digits_step f d 0 h.0 (omega arith) ∙ ap (λ t. d ∷ t) (digits_zero f)
  digits-value (suc f) (d ∷ c ∷ ds) h e le =
      digits_step f d (value b (c ∷ ds)) h.0 (Ends-value-pos (d ∷ c ∷ ds) e)
      ∙ ap (λ t. d ∷ t)
          (digits-value f (c ∷ ds) h.1 e
            (smaller f d (value b (c ∷ ds)) (Ends-value-pos (c ∷ ds) e) le))

Ends-append : (c : ℕ) (ds : List ℕ) → 0 < c → Ends (ds ++ c ∷ [])
Ends-append c [] h = h
Ends-append c (d ∷ []) h = h
Ends-append c (d ∷ e ∷ ds) h = Ends-append c (e ∷ ds) h

All-reverse {κ} : (P : ℕ → Type κ) (s : List ℕ) → All P s → All P (reverse s)
All-reverse P [] h = h
All-reverse P (c ∷ s) h =
    rw (reverse-cons c s) (All-append P (reverse s) (c ∷ []) (All-reverse P s h.1) (h.0, tt))

-- What `Bytes` gives back after `SetBytes`: the text, if it does not begin with a zero byte.
pub bytes-set_bytes :
    (c : ℕ) (s : Text) → 0 < c → All (λ d. d < 256) (c ∷ s) → bytes (set_bytes (c ∷ s)) ≡ c ∷ s
unfolding bytes set_bytes
bytes-set_bytes c s p h =
    rw
      (digits-value 256 (omega arith) (value 256 (reverse (c ∷ s))) (reverse (c ∷ s))
        (All-reverse _ (c ∷ s) h) last (omega arith))
      (reverse-reverse (c ∷ s))
  where
    last : Ends (reverse (c ∷ s))
    last = rw (reverse-cons c s) (Ends-append c (reverse s) p)

digits_printed :
    (ds : List ℕ) → All (λ d. d < 10) ds → All (λ c. (c < 58) × (47 < c)) (map (λ d. b'0' + d) ds)
digits_printed [] h = tt
digits_printed (d ∷ ds) h = ((omega arith, omega arith), digits_printed ds h.1)

-- A decimal consists of digits.
pub decimal-All : (n : ℕ) → All (λ c. (c < 58) × (47 < c)) (decimal n)
unfolding decimal
decimal-All n = elim (Bool-cases (n == 0)) [
  | inl z ↦ rw z (omega arith)
  | inr p ↦ rw p (All-reverse _ _ (digits_printed _ (digits-All 10 (omega arith) n n)))
]

-- Reads a decimal back.
unfoldable undecimal : Text → ℕ
unfolding value
undecimal s = value 10 (map (λ c. c - b'0') (reverse s))

shift_back : (ds : List ℕ) → map (λ c. c - b'0') (map (λ d. b'0' + d) ds) ≡ ds
shift_back [] = refl
shift_back (d ∷ ds) = ground (arith, shift_back ds)

undecimal-decimal : (n : ℕ) → undecimal (decimal n) ≡ n
unfolding undecimal decimal
undecimal-decimal n = elim (Bool-cases (n == 0)) [
  | inl z ↦ rw z (omega (arith, (==_iff n 0).0 z))
  | inr p ↦
      rw (p, reverse-reverse (map (λ d. b'0' + d) (digits 10 n n)), shift_back (digits 10 n n))
        (value-digits 10 (omega arith) n n (omega arith))
]

-- Two numbers that print alike are equal.
pub decimal-injective : (m n : ℕ) → decimal m ≡ decimal n → m ≡ n
decimal-injective m n h = cc (undecimal-decimal m, undecimal-decimal n, ap undecimal h)

decimal_tests : (decimal 0 ≡ codes "0") × (decimal 10203 ≡ codes "10203")
unfolding decimal digits
decimal_tests = (refl, refl)

bytes_test : bytes (set_bytes (codes "node0:1")) ≡ codes "node0:1"
unfolding bytes set_bytes digits value
bytes_test = refl
