-- ===== src/ConnForm/Decimal.antt =====
-- How a JavaScript integer is printed, and `parseInt(s, 10)`. Integers are exact in the model.
use termcp.Base.{
  ℕ, zero, suc, ◌+◌, ◌*◌, ◌/◌, ◌%◌, ◌-◌, ◌<◌, ◌≡◌, refl, arith, Option, none, some, [], ◌∷◌, ◌++◌,
  Text, ℤ, pos, negsuc, ◌-ℤ◌, trim_start, is_empty, ltb, ◌==◌, if◌then◌else◌, Bool-cases, inl, inr,
}
use termcp.ConnForm.Toml.{read_digits, span, is_digit}

-- `n` with fuel; more fuel than the number is always enough.
unfoldable pub show_fuel : ℕ → ℕ → Text
show_fuel zero n = []
show_fuel (suc f) n =
    let rest = show_fuel f (n / 10) in
    if ltb n 10 then (b'0' + n) ∷ [] else rest ++ (b'0' + n % 10) ∷ []

unfoldable pub show_nat : ℕ → Text
unfolding show_fuel
show_nat n = show_fuel (suc n) n

unfoldable pub show_int : ℤ → Text
unfolding show_nat
show_int (pos n) = show_nat n
show_int (negsuc n) = b'-' ∷ show_nat (suc n)

abbrev digits_value : Text → Option ℕ
digits_value ds = if is_empty ds then none else some (read_digits 0 ds)

-- `parseInt(s, 10)`; none is NaN.
unfoldable pub parse_int : Text → Option ℤ
unfolding read_digits span
parse_int s = elim (trim_start s) [
  | [] ↦ none
  | c ∷ r ↦
      (if c == b'-'
        then elim (digits_value (span is_digit r).0) [
          | none ↦ none
          | some n ↦ some (pos 0 -ℤ pos n)
        ]
        else if c == b'+'
        then elim (digits_value (span is_digit r).0) [ none ↦ none | some n ↦ some (pos n) ]
        else elim (digits_value (span is_digit (c ∷ r)).0) [ none ↦ none | some n ↦ some (pos n) ])
]

read_digits-snoc :
    (acc : ℕ) (s : Text) (c : ℕ)
    → read_digits acc (s ++ c ∷ []) ≡ read_digits acc s * 10 + (c - b'0')
unfolding read_digits
read_digits-snoc acc [] c = refl
read_digits-snoc acc (d ∷ s) c = read_digits-snoc (acc * 10 + (d - b'0')) s c

read_digits-show_fuel : (f n : ℕ) → n < f → read_digits 0 (show_fuel f n) ≡ n
unfolding show_fuel read_digits
read_digits-show_fuel zero n h = absurd (omega arith)
read_digits-show_fuel (suc f) n h = elim (Bool-cases (ltb n 10)) [
  | inl e ↦ rw e (omega arith)
  | inr e ↦
      let ih = read_digits-show_fuel f (n / 10) (ground arith) in
      rw (e, read_digits-snoc 0 (show_fuel f (n / 10)) (b'0' + n % 10), ih) (omega arith)
]

-- The digits of a number are read back as that number.
pub read_digits-show_nat : (n : ℕ) → read_digits 0 (show_nat n) ≡ n
unfolding show_nat
read_digits-show_nat n = read_digits-show_fuel (suc n) n (omega arith)
