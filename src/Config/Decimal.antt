-- ===== src/Config/Decimal.antt =====
-- `strconvAtoi` reads what `%d` prints.
use mathlib.Core.Option
use swim.Prelude.{
  subst, ℕ, zero, suc, ◌+◌, ◌-◌, ◌*◌, ◌/◌, ◌%◌, ◌^◌, ◌≤◌, ◌<◌, ◌≡◌, refl, ◌∙◌, ap, sym, true, false,
  Option, none, some, [], ◌∷◌, ◌++◌, Text, ltb, ℕ_discrete, ltb→le, ◌==◌, nat_eq, if◌then◌else◌,
  arith, All, All-append, Bool-cases, inl, inr,
}
use swim.Prelude.Int.{ℤ, pos, negsuc}
use swim.Config.{is_digit, digits_value, below, magnitude, not_negative, strconv_atoi}

-- `fmt.Sprintf("%d", n)`, on fuel.
unfoldable pub print_digits : ℕ → ℕ → Text
print_digits zero n = []
print_digits (suc fuel) n =
    let front = print_digits fuel (n / 10) in
    if ltb n 10 then (n + b'0') ∷ [] else front ++ ((n % 10 + b'0') ∷ [])

-- A number has fewer digits than its value plus one.
unfoldable pub decimal : ℕ → Text
unfolding print_digits
decimal n = print_digits (suc n) n

-- The same for an int.
unfoldable pub decimal_ℤ : ℤ → Text
unfolding decimal
decimal_ℤ (pos n) = decimal n
decimal_ℤ (negsuc n) = b'-' ∷ decimal (suc n)

abbrev pub Digits : Text → Type 0
Digits = All (λ c. is_digit c ≡ true)

print-Digits : (fuel n : ℕ) → Digits (print_digits fuel n)
unfolding print_digits
print-Digits zero n = tt
print-Digits (suc fuel) n = elim (Bool-cases (ltb n 10)) [
  | inl small ↦ rw small (ground arith, tt)
  | inr large ↦ rw large (
      All-append (λ c. is_digit c ≡ true) (print_digits fuel (n / 10)) ((n % 10 + b'0') ∷ [])
        (print-Digits fuel (n / 10)) (ground arith, tt))
]

pub decimal-Digits : (n : ℕ) → Digits (decimal n)
unfolding decimal
decimal-Digits n = print-Digits (suc n) n

value-snoc :
    (s : Text) (acc v d : ℕ)
    → d < 10
    → digits_value acc s ≡ some v
    → digits_value acc (s ++ ((d + b'0') ∷ [])) ≡ some (v * 10 + d)
unfolding digits_value
value-snoc [] acc v d small h = ground arith
value-snoc (c ∷ s) acc v d small h = elim (Bool-cases (is_digit c)) [
  | inl digit ↦ rw digit (value-snoc s (acc * 10 + (c - b'0')) v d small (rw digit at h))
  | inr other ↦ cc (h, other)
]

value-print : (fuel n : ℕ) → n < fuel → digits_value 0 (print_digits fuel n) ≡ some n
unfolding print_digits digits_value
value-print zero n h = absurd (omega arith)
value-print (suc fuel) n h = elim (Bool-cases (ltb n 10)) [
  | inl small ↦ rw small (ground arith)
  | inr large ↦
      let big : 10 ≤ n = ltb→le n 10 large in
      rw large (
        value-snoc (print_digits fuel (n / 10)) 0 (n / 10) (n % 10) (omega arith)
          (value-print fuel (n / 10) (omega arith))
        ∙ ap some (omega arith))
]

pub value-decimal : (n : ℕ) → digits_value 0 (decimal n) ≡ some n
unfolding decimal
value-decimal n = value-print (suc n) n (omega arith)

atoi_unsigned :
    (c : ℕ) (s : Text)
    → is_digit c ≡ true
    → strconv_atoi (c ∷ s)
      ≡ not_negative (Option.map (λ n. (false, n)) (magnitude (2 ^ 63) (c ∷ s)))
unfolding strconv_atoi
atoi_unsigned c s digit =
    let minus : (c == b'-') ≡ false = ground arith in
    let plus : (c == b'+') ≡ false = ground arith in rw (minus, plus)

not_negative-below :
    (limit n : ℕ)
    → not_negative (Option.map (λ n. (false, n)) (below limit (some n)))
      ≡ (if ltb n limit then some n else none)
not_negative-below limit n = ground arith

magnitude-value :
    (limit c : ℕ) (s : Text) → magnitude limit (c ∷ s) ≡ below limit (digits_value 0 (c ∷ s))
unfolding magnitude
magnitude-value limit c s = refl

-- A text of digits is read as the number that it spells, unless that is no int.
pub atoi-Digits :
    (c : ℕ) (s : Text) (n : ℕ)
    → Digits (c ∷ s)
    → digits_value 0 (c ∷ s) ≡ some n
    → strconv_atoi (c ∷ s) ≡ (if ltb n (2 ^ 63) then some n else none)
atoi-Digits c s n (digit, d) e =
    atoi_unsigned c s digit
    ∙ ap (λ o. not_negative (Option.map (λ n. (false, n)) o))
        (magnitude-value (2 ^ 63) c s ∙ ap (below (2 ^ 63)) e)
    ∙ not_negative-below (2 ^ 63) n

append-nonempty : (s : Text) (d : ℕ) → (c : ℕ) × (r : Text) × (s ++ (d ∷ []) ≡ c ∷ r)
append-nonempty [] d = (d, [], refl)
append-nonempty (c ∷ s) d = (c, s ++ (d ∷ []), refl)

print-nonempty : (fuel n : ℕ) → (c : ℕ) × (s : Text) × (print_digits (suc fuel) n ≡ c ∷ s)
unfolding print_digits
print-nonempty fuel n = elim (Bool-cases (ltb n 10)) [
  | inl small ↦ (n + b'0', [], rw small)
  | inr large ↦
      let (c, s, e) = append-nonempty (print_digits fuel (n / 10)) (n % 10 + b'0') in
      (c, s, rw large e)
]

pub decimal-nonempty : (n : ℕ) → (c : ℕ) × (s : Text) × (decimal n ≡ c ∷ s)
unfolding decimal
decimal-nonempty n = print-nonempty n n

pub strconv_atoi-decimal :
    (n : ℕ) → strconv_atoi (decimal n) ≡ (if ltb n (2 ^ 63) then some n else none)
strconv_atoi-decimal n =
    let (c, s, e) = decimal-nonempty n in
    ap strconv_atoi e
    ∙ atoi-Digits c s n (subst Digits e (decimal-Digits n))
        (sym (ap (digits_value 0) e) ∙ value-decimal n)

not_negative-negative :
    (limit n : ℕ) → not_negative (Option.map (λ n. (true, n)) (below limit (some (suc n)))) ≡ none
not_negative-negative limit n = ground arith

atoi_minus : (n : ℕ) → strconv_atoi (b'-' ∷ decimal (suc n)) ≡ none
unfolding strconv_atoi ℕ_discrete
atoi_minus n =
    let (c, s, e) = decimal-nonempty (suc n) in
    ap (λ t. not_negative (Option.map (λ n. (true, n)) (magnitude (2 ^ 63 + 1) t))) e
    ∙ ap (λ o. not_negative (Option.map (λ n. (true, n)) o))
        (magnitude-value (2 ^ 63 + 1) c s
          ∙ ap (below (2 ^ 63 + 1)) (sym (ap (digits_value 0) e) ∙ value-decimal (suc n)))
    ∙ not_negative-negative (2 ^ 63 + 1) n

-- The integers that a size or a preview's number can be.
abbrev pub accepted : ℤ → Option ℕ
accepted (pos n) = if ltb n (2 ^ 63) then some n else none
accepted (negsuc n) = none

-- What `strconvAtoi` makes of the decimal text of an integer: a number that is not negative and
-- fits an int is read back, a larger one is refused, and each negative one is refused too.
pub strconv_atoi-decimal_ℤ : (z : ℤ) → strconv_atoi (decimal_ℤ z) ≡ accepted z
unfolding decimal_ℤ
strconv_atoi-decimal_ℤ (pos n) = strconv_atoi-decimal n
strconv_atoi-decimal_ℤ (negsuc n) = atoi_minus n
