-- ===== src/Config/Atoi.antt =====
-- `strconv.Atoi` against the decimal notation of a number.
use route_planner.Prelude.{
  ℕ, zero, suc, ◌+◌, ◌*◌, ◌-◌, ◌/◌, ◌%◌, ◌^◌, ◌<◌, ◌≡◌, refl, sym, ap, subst, ◌∙◌, true, false,
  Option, none, some, [], ◌∷◌, ◌++◌, leb, ltb, ◌==◌, if◌then◌else◌, Bool-cases, inl, inr, arith,
}
use route_planner.Prelude.Text.{Text}
use route_planner.Prelude.Int.{ℤ, pos, negsuc}
use route_planner.Config.{
  within_positive, within_negative, minus, is_digit, read_digits, unsigned, atoi,
}

-- The decimal notation; the fuel is the number of digits at most.
abbrev digits_within : ℕ → ℕ → Text
digits_within zero n = []
digits_within (suc f) n =
    let longer = digits_within f (n / 10) ++ ((n % 10 + b'0') ∷ []) in
    if ltb n 10 then (n + b'0') ∷ [] else longer

abbrev pub decimal : ℕ → Text
decimal n = digits_within (suc n) n

abbrev pub show : ℤ → Text
show (pos n) = decimal n
show (negsuc n) = b'-' ∷ decimal (suc n)

-- A number that an `int` of 64 bits can hold.
abbrev pub IsInt64 : ℤ → Type 0
IsInt64 (pos n) = n < 2 ^ 63
IsInt64 (negsuc n) = n < 2 ^ 63

read_digits_snoc :
    (acc a c : ℕ) (s : Text)
    → read_digits acc s ≡ some a
    → is_digit c ≡ true
    → read_digits acc (s ++ (c ∷ [])) ≡ some (10 * a + (c - b'0'))
unfolding read_digits
read_digits_snoc acc a c [] h digit = ground arith
read_digits_snoc acc a c (d ∷ s) h digit = elim (Bool-cases (is_digit d)) [
  | inl good ↦ rw good (read_digits_snoc (10 * acc + (d - b'0')) a c s (rw good at h) digit)
  | inr bad ↦ let refused : ◌≡◌ {A = Option ℕ} none (some a) = rw bad at h in cc
]

read_digits-digits_within : (f n : ℕ) → n < f → read_digits 0 (digits_within f n) ≡ some n
unfolding read_digits
read_digits-digits_within zero n h = absurd (omega arith)
read_digits-digits_within (suc f) n h = elim (Bool-cases (ltb n 10)) [
  | inl small ↦ rw small (ground arith)
  | inr large ↦
      let shorter = read_digits-digits_within f (n / 10) (ground arith) in
      let digit : is_digit (n % 10 + b'0') ≡ true = ground arith in
      let same : 10 * (n / 10) + (n % 10 + b'0' - b'0') ≡ n = omega arith in
      rw large (
        read_digits_snoc 0 (n / 10) (n % 10 + b'0') (digits_within f (n / 10)) shorter digit
        ∙ ap some same)
]

-- The text begins with a digit.
data StartsWithDigit (s : Text) : Type 0 where
  first : (c : ℕ) (rest : Text) → s ≡ c ∷ rest → is_digit c ≡ true → StartsWithDigit s

longer-StartsWithDigit : (s : Text) (t : Text) → StartsWithDigit s → StartsWithDigit (s ++ t)
longer-StartsWithDigit s t (first c rest split digit) =
    first c (rest ++ t) (ap (λ u. u ++ t) split) digit

digits_within-StartsWithDigit : (f n : ℕ) → n < f → StartsWithDigit (digits_within f n)
digits_within-StartsWithDigit zero n h = absurd (omega arith)
digits_within-StartsWithDigit (suc f) n h = elim (Bool-cases (ltb n 10)) [
  | inl small ↦ rw small (first (n + b'0') [] refl (ground arith))
  | inr large ↦ rw large (
      longer-StartsWithDigit (digits_within f (n / 10)) _
        (digits_within-StartsWithDigit f (n / 10) (ground arith)))
]

unsigned_nonempty : (c : ℕ) (s : Text) → unsigned (c ∷ s) ≡ read_digits 0 (c ∷ s)
unfolding unsigned
unsigned_nonempty c s = refl

-- A text that begins with a digit is read without a sign.
atoi_digits :
    (s : Text) (n : ℕ)
    → StartsWithDigit s
    → read_digits 0 s ≡ some n
    → n < 2 ^ 63
    → atoi s ≡ some (pos n)
unfolding atoi
atoi_digits s n (first c rest split digit) value small =
    let read : unsigned (c ∷ rest) ≡ some n =
      unsigned_nonempty c rest ∙ (ap (read_digits 0) (sym split) ∙ value) in
    let no_minus : (c == b'-') ≡ false = ground arith in
    let no_plus : (c == b'+') ≡ false = ground arith in
    let below : ltb n (2 ^ 63) ≡ true = ground arith in
    rw (split, no_minus, no_plus, read, below) refl

atoi_minus :
    (s : Text) (n : ℕ)
    → StartsWithDigit s
    → read_digits 0 s ≡ some (suc n)
    → n < 2 ^ 63
    → atoi (b'-' ∷ s) ≡ some (negsuc n)
unfolding atoi
atoi_minus s n (first c rest split digit) value small =
    let read : unsigned (c ∷ rest) ≡ some (suc n) =
      unsigned_nonempty c rest ∙ (ap (read_digits 0) (sym split) ∙ value) in
    let below : leb (suc n) (2 ^ 63) ≡ true = ground arith in rw (split, read, below) (ground arith)

-- Every 64-bit integer is read back from its decimal notation, the bounds included.
pub atoi-show : (z : ℤ) → IsInt64 z → atoi (show z) ≡ some z
atoi-show (pos n) small =
    atoi_digits (decimal n) n (digits_within-StartsWithDigit (suc n) n (omega arith))
      (read_digits-digits_within (suc n) n (omega arith)) small
atoi-show (negsuc n) small =
    atoi_minus (decimal (suc n)) n
      (digits_within-StartsWithDigit (suc (suc n)) (suc n) (omega arith))
      (read_digits-digits_within (suc (suc n)) (suc n) (omega arith)) small

some-IsInt64 : (a z : ℤ) → IsInt64 a → ◌≡◌ {A = Option ℤ} (some a) (some z) → IsInt64 z
some-IsInt64 a z small h = let same : a ≡ z = cc in subst IsInt64 same small

within_positive-IsInt64 : (o : Option ℕ) (z : ℤ) → within_positive o ≡ some z → IsInt64 z
within_positive-IsInt64 none z h = cc
within_positive-IsInt64 (some n) z h = elim (Bool-cases (ltb n (2 ^ 63))) [
  | inl below ↦ some-IsInt64 (pos n) z (ground arith) (rw below at h)
  | inr above ↦ let refused : ◌≡◌ {A = Option ℤ} none (some z) = rw above at h in cc
]

minus-IsInt64 : (n : ℕ) → leb n (2 ^ 63) ≡ true → IsInt64 (minus n)
minus-IsInt64 n h = ground arith

within_negative-IsInt64 : (o : Option ℕ) (z : ℤ) → within_negative o ≡ some z → IsInt64 z
within_negative-IsInt64 none z h = cc
within_negative-IsInt64 (some n) z h = elim (Bool-cases (leb n (2 ^ 63))) [
  | inl below ↦ some-IsInt64 (minus n) z (minus-IsInt64 n below) (rw below at h)
  | inr above ↦ let refused : ◌≡◌ {A = Option ℤ} none (some z) = rw above at h in cc
]

-- Whatever text is given, the number that is read is a 64-bit integer.
pub atoi-IsInt64 : (s : Text) (z : ℤ) → atoi s ≡ some z → IsInt64 z
unfolding atoi
atoi-IsInt64 [] z h = cc
atoi-IsInt64 (c ∷ s) z h = elim (Bool-cases (c == b'-')) [
  | inl negative ↦ within_negative-IsInt64 (unsigned s) z (rw negative at h)
  | inr other ↦ (elim (Bool-cases (c == b'+')) [
    | inl plus ↦ within_positive-IsInt64 (unsigned s) z (rw (other, plus) at h)
    | inr none_at_all ↦ within_positive-IsInt64 (unsigned (c ∷ s)) z (rw (other, none_at_all) at h)
  ])
]
