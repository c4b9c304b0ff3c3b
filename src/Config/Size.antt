-- ===== src/Config/Size.antt =====
-- `parseByteSize` of a number and a unit.
use mathlib.Core.Option
use mathlib.Core.List.{reverse, reverse-append, reverse-reverse, map-append, append-nil}
use swim.Prelude.{
  ℕ, ◌*◌, ◌^◌, ◌<◌, ◌≡◌, refl, ◌∙◌, ap, sym, subst, true, false, Option, none, some, [], ◌∷◌, ◌++◌,
  ◌&&◌, Text, text, ltb, leb, nat_eq, ℕ_discrete, if◌then◌else◌, arith, All, All-append, All-map,
  has_prefix, has_prefix-append, has_suffix, trim_prefix-append, trim_suffix, trim_left, trim_both,
  trim_space, is_space, to_upper,
}
use swim.Prelude.Int.{ℤ, wrap64}
use swim.Config.{is_digit, split_unit, strconv_atoi, parse_byte_size}
use swim.Config.Decimal.{decimal, Digits, decimal-Digits, strconv_atoi-decimal}

pub data SizeUnit : Type 0 where
  none_given bytes kilobytes megabytes gigabytes : SizeUnit

abbrev pub symbol : SizeUnit → Text
symbol none_given = []
symbol bytes = text "B"
symbol kilobytes = text "KB"
symbol megabytes = text "MB"
symbol gigabytes = text "GB"

abbrev pub factor : SizeUnit → ℕ
factor none_given = 1
factor bytes = 1
factor kilobytes = 1024
factor megabytes = 1024 * 1024
factor gigabytes = 1024 * 1024 * 1024

-- Text without spaces at either end is left alone.
abbrev NoSpace : Text → Type 0
NoSpace = All (λ c. is_space c ≡ false)

All-reverse : (P : ℕ → Type 0) (s : Text) → All P s → All P (reverse s)
All-reverse P [] h = tt
All-reverse P (c ∷ s) (p, h) =
    subst (All P) (sym (reverse-append (c ∷ []) s))
      (All-append P (reverse s) (c ∷ []) (All-reverse P s h) (p, tt))

trim_left-NoSpace : (s : Text) → NoSpace s → trim_left is_space s ≡ s
unfolding trim_left
trim_left-NoSpace [] h = refl
trim_left-NoSpace (c ∷ s) (p, h) = rw p

trim_space-NoSpace : (s : Text) → NoSpace s → trim_space s ≡ s
unfolding trim_both
trim_space-NoSpace s h =
    ap (λ r. reverse (trim_left is_space (reverse r))) (trim_left-NoSpace s h)
    ∙ ap reverse (trim_left-NoSpace (reverse s) (All-reverse _ s h))
    ∙ reverse-reverse s

Digits-NoSpace : (s : Text) → Digits s → NoSpace s
Digits-NoSpace = All-map _ _ (λ c h. ground arith)

to_upper-Digits : (s : Text) → Digits s → to_upper s ≡ s
unfolding to_upper
to_upper-Digits [] h = refl
to_upper-Digits (c ∷ s) (p, h) =
    let digit : (leb b'a' c && leb c b'z') ≡ false = ground arith in
    rw digit (ap (◌∷◌ c) (to_upper-Digits s h))

head_differs :
    (r : Text) (c : ℕ) (t : Text) → Digits r → is_digit c ≡ false → has_prefix r (c ∷ t) ≡ false
head_differs [] c t d other = refl
head_differs (x ∷ r) c t (p, d) other = ground arith

has_suffix-append : (s t : Text) → has_suffix (s ++ t) t ≡ true
has_suffix-append s t = rw reverse-append (has_prefix-append (reverse t) (reverse s))

trim_suffix-append : (s t : Text) → trim_suffix (s ++ t) t ≡ s
unfolding trim_suffix
trim_suffix-append s t =
    rw reverse-append (ap reverse (trim_prefix-append (reverse t) (reverse s)) ∙ reverse-reverse s)

module _ (s : Text) (d : Digits s) where
  rest_differs : (c : ℕ) → is_digit c ≡ false → has_prefix (reverse s) (c ∷ []) ≡ false
  rest_differs c other = head_differs (reverse s) c [] (All-reverse _ s d) other

  no_suffix :
      (u : SizeUnit) (t : Text)
      → has_prefix (reverse (symbol u) ++ reverse s) (reverse t) ≡ false
      → has_suffix (s ++ symbol u) t ≡ false
  no_suffix u t h = rw reverse-append h

  ends_otherwise : (t : Text) → has_prefix (reverse s) (b'B' ∷ t) ≡ false
  ends_otherwise t = head_differs (reverse s) b'B' t (All-reverse _ s d) refl

  split_unit-bare : split_unit s ≡ (1, s)
  unfolding split_unit
  split_unit-bare = rw (
    ends_otherwise (text "G"),
    ends_otherwise (text "M"),
    ends_otherwise (text "K"),
    ends_otherwise [],
  )

  split_unit-symbol : (u : SizeUnit) → split_unit (s ++ symbol u) ≡ (factor u, s)
  unfolding split_unit
  split_unit-symbol gigabytes =
      rw (has_suffix-append s (text "GB"), trim_suffix-append s (text "GB"))
  split_unit-symbol megabytes = rw (
    no_suffix megabytes (text "GB") (ground arith),
    has_suffix-append s (text "MB"),
    trim_suffix-append s (text "MB"),
  )
  split_unit-symbol kilobytes = rw (
    no_suffix kilobytes (text "GB") (ground arith),
    no_suffix kilobytes (text "MB") (ground arith),
    has_suffix-append s (text "KB"),
    trim_suffix-append s (text "KB"),
  )
  split_unit-symbol bytes = rw (
    no_suffix bytes (text "GB") (ground (arith, rest_differs b'G')),
    no_suffix bytes (text "MB") (ground (arith, rest_differs b'M')),
    no_suffix bytes (text "KB") (ground (arith, rest_differs b'K')),
    has_suffix-append s (text "B"),
    trim_suffix-append s (text "B"),
  )
  split_unit-symbol none_given = rw append-nil split_unit-bare

symbol-upper : (u : SizeUnit) → to_upper (symbol u) ≡ symbol u
unfolding to_upper
symbol-upper none_given = refl
symbol-upper bytes = refl
symbol-upper kilobytes = refl
symbol-upper megabytes = refl
symbol-upper gigabytes = refl

symbol-NoSpace : (u : SizeUnit) → NoSpace (symbol u)
unfolding ℕ_discrete
symbol-NoSpace none_given = tt
symbol-NoSpace bytes = (refl, tt)
symbol-NoSpace kilobytes = (refl, (refl, tt))
symbol-NoSpace megabytes = (refl, (refl, tt))
symbol-NoSpace gigabytes = (refl, (refl, tt))

to_upper-append : (s t : Text) → to_upper (s ++ t) ≡ to_upper s ++ to_upper t
unfolding to_upper
to_upper-append s t = map-append _ s t

upper-size :
    (s : Text) (u : SizeUnit) → Digits s → to_upper (trim_space (s ++ symbol u)) ≡ s ++ symbol u
upper-size s u d =
    ap to_upper (
      trim_space-NoSpace (s ++ symbol u)
        (All-append _ s (symbol u) (Digits-NoSpace s d) (symbol-NoSpace u)))
    ∙ to_upper-append s (symbol u)
    ∙ ap (λ a. a ++ to_upper (symbol u)) (to_upper-Digits s d)
    ∙ ap (λ b. s ++ b) (symbol-upper u)

sized : ℕ × Text → Option ℤ
unfolding strconv_atoi
sized (multiplier, rest) =
    Option.map (λ n. wrap64 (n * multiplier)) (strconv_atoi (trim_space rest))

parse_byte_size-sized :
    (s : Text) → parse_byte_size s ≡ sized (split_unit (to_upper (trim_space s)))
unfolding parse_byte_size sized
parse_byte_size-sized s = refl

fits : (n limit : ℕ) → n < limit → (if ltb n limit then some n else none) ≡ some n
fits n limit small = ground arith

-- A size that is written as a number below 2 ^ 63 and a unit (none, B, KB, MB or GB) is accepted,
-- as the product of the number and the unit's factor, wrapped to 64 bits.
pub parse_byte_size-decimal :
    (n : ℕ) (u : SizeUnit)
    → n < 2 ^ 63
    → parse_byte_size (decimal n ++ symbol u) ≡ some (wrap64 (n * factor u))
unfolding sized
parse_byte_size-decimal n u small =
    let d = decimal-Digits n in
    parse_byte_size-sized (decimal n ++ symbol u)
    ∙ ap (λ t. sized (split_unit t)) (upper-size (decimal n) u d)
    ∙ ap sized (split_unit-symbol (decimal n) d u)
    ∙ ap (λ t. Option.map (λ m. wrap64 (m * factor u)) (strconv_atoi t))
        (trim_space-NoSpace (decimal n) (Digits-NoSpace (decimal n) d))
    ∙ ap (Option.map (λ m. wrap64 (m * factor u))) (strconv_atoi-decimal n ∙ fits n (2 ^ 63) small)
