-- ===== src/Models/Ewkb/Laws.antt =====
-- What `Location.Scan` makes of a PostGIS point.
use native.Mathlib.Nat.{pow-suc}
use mathlib.Core.List.{append_assoc}
use route_planner.Prelude.{
  ℕ, zero, suc, ◌+◌, ◌-◌, ◌*◌, ◌/◌, ◌%◌, ◌^◌, ◌≤◌, ◌<◌, ◌≡◌, refl, ap, ◌∙◌, ◌↔◌, ◌⊎◌, Bool, true,
  false, List, [], ◌∷◌, ◌++◌, reverse, arith, length, take, drop, All, length-append, Option, none,
  some, ltb, drop-length_append, take-length_append, if◌then◌else◌, Bool-cases, inl, inr,
}
use route_planner.Prelude.Text.{Text}
use route_planner.Errors.{GoError, other}
use route_planner.Models.Ewkb.{odd_hex, invalid_hex}
use route_planner.Effects.{Outcome, ok, err}
use route_planner.Models.{Location}
use route_planner.Models.Ewkb.{
  Column, null, bytes, text, unsupported, hex_digit, with_byte, decode_string, little_endian,
  uint64, is_little, eight_at, scan_point, scan,
}

-- The bytes of a number, the lowest first.
abbrev pub le_bytes : ℕ → ℕ → List ℕ
le_bytes zero n = []
le_bytes (suc k) n = (n % 256) ∷ le_bytes k (n / 256)

length-le_bytes : (k n : ℕ) → length (le_bytes k n) ≡ k
length-le_bytes zero n = refl
length-le_bytes (suc k) n = ap suc (length-le_bytes k (n / 256))

little_endian-le_bytes : (k n : ℕ) → n < 256 ^ k → little_endian (le_bytes k n) ≡ n
little_endian-le_bytes zero n h = omega arith
little_endian-le_bytes (suc k) n h =
    omega (arith, little_endian-le_bytes k (n / 256) (omega (arith, pow-suc 256 k)), pow-suc 256 k)

-- The eight bytes of a double in the given byte order.
abbrev pub double_bytes : Bool → ℕ → List ℕ
double_bytes true n = le_bytes 8 n
double_bytes false n = reverse (le_bytes 8 n)

-- The byte that names the order in EWKB.
abbrev pub order_byte : Bool → ℕ
order_byte true = 1
order_byte false = 0

-- The EWKB of a point, as PostGIS documents it: the byte order, a header of at least four bytes
-- (type, and the SRID where there is one), x and y.
abbrev pub ewkb : Bool → List ℕ → ℕ → ℕ → List ℕ
ewkb little header x y =
    order_byte little ∷ (header ++ (double_bytes little x ++ double_bytes little y))

uint64-double_bytes :
    (little : Bool) (n : ℕ) → n < 2 ^ 64 → uint64 little (double_bytes little n) ≡ n
uint64-double_bytes true n h = little_endian-le_bytes 8 n h
uint64-double_bytes false n h = little_endian-le_bytes 8 n h

length-double_bytes : (little : Bool) (n : ℕ) → length (double_bytes little n) ≡ 8
length-double_bytes true n = refl
length-double_bytes false n = refl

is_little-order_byte :
    (little : Bool) (rest : List ℕ) → is_little (order_byte little ∷ rest) ≡ little
is_little-order_byte true rest = refl
is_little-order_byte false rest = refl

module _ (k : ℕ) (pre xs ys : List ℕ) (hx : length xs ≡ k) where
  slice_first : take k (drop (length pre) (pre ++ (xs ++ ys))) ≡ xs
  slice_first = rw (drop-length_append, ← hx) (take-length_append xs ys)

  drop_last : drop (length pre + k) (pre ++ (xs ++ ys)) ≡ ys
  drop_last =
      rw (← append_assoc pre xs ys, ← hx, ← length-append pre xs)
        (drop-length_append (pre ++ xs) ys)

take_all : (k : ℕ) (ys : List ℕ) → length ys ≡ k → take k ys ≡ ys
take_all zero [] h = refl
take_all zero (y ∷ ys) h = absurd (omega arith)
take_all (suc k) [] h = absurd (omega arith)
take_all (suc k) (y ∷ ys) h = ap (λ r. y ∷ r) (take_all k ys (omega arith))

length-slices :
    (pre xs ys : List ℕ)
    → length xs ≡ 8
    → length ys ≡ 8
    → length (pre ++ (xs ++ ys)) ≡ length pre + 16
length-slices pre xs ys hx hy = omega (arith, length-append pre (xs ++ ys), length-append xs ys)

scan_point_long :
    (bin : List ℕ) (l : Location) (offset : ℕ)
    → length bin ≡ offset + 16
    → 5 ≤ offset
    → scan_point bin l ≡ (
      ok tt,
      record {
        latitude = uint64 (is_little bin) (eight_at (offset + 8) bin);
        longitude = uint64 (is_little bin) (eight_at offset bin);
      },
    )
unfolding scan_point
scan_point_long bin l offset e h =
    let short : ltb (length bin) 21 ≡ false = ground arith in
    let at : length bin - 16 ≡ offset = omega arith in rw (short, at)

-- The last sixteen bytes decide the location.
scan_point_of_slices :
    (pre xs ys : List ℕ) (l : Location)
    → 5 ≤ length pre
    → length xs ≡ 8
    → length ys ≡ 8
    → let little = is_little (pre ++ (xs ++ ys)) in
      scan_point (pre ++ (xs ++ ys)) l
      ≡ (ok tt, record { latitude = uint64 little ys; longitude = uint64 little xs })
scan_point_of_slices pre xs ys l h hx hy =
    scan_point_long _ l (length pre) (length-slices pre xs ys hx hy) h
    ∙ rw (slice_first 8 pre xs ys hx, drop_last 8 pre xs ys hx, take_all 8 ys hy)

-- Scanning the EWKB of a point, in either byte order and with any header of at least four bytes,
-- gives the point: x is the longitude and y the latitude, whatever the location held before.
pub scan-ewkb :
    (little : Bool) (header : List ℕ) (x y : ℕ) (l : Location)
    → 4 ≤ length header
    → x < 2 ^ 64
    → y < 2 ^ 64
    → scan (bytes (ewkb little header x y)) l ≡ (ok tt, record { latitude = y; longitude = x })
unfolding scan
scan-ewkb little header x y l h hx hy =
    scan_point_of_slices (order_byte little ∷ header) (double_bytes little x)
      (double_bytes little y) l (omega arith) (length-double_bytes little x)
      (length-double_bytes little y)
    ∙ rw (is_little-order_byte, uint64-double_bytes little x hx, uint64-double_bytes little y hy)

-- The two hexadecimal digits of a byte, in lower or upper case.
abbrev pub digit : Bool → ℕ → ℕ
digit upper n = if ltb n 10 then n + b'0' else if upper then n - 10 + b'A' else n - 10 + b'a'

abbrev pub hex_encode : Bool → List ℕ → Text
hex_encode upper [] = []
hex_encode upper (b ∷ bs) = digit upper (b / 16) ∷ digit upper (b % 16) ∷ hex_encode upper bs

hex_digit-digit : (upper : Bool) (n : ℕ) → n < 16 → hex_digit (digit upper n) ≡ some n
unfolding hex_digit
hex_digit-digit true n h = ground arith
hex_digit-digit false n h = ground arith

decode_string-hex_encode :
    (upper : Bool) (bs : List ℕ)
    → All (λ b. b < 256) bs
    → decode_string (hex_encode upper bs) ≡ ok bs
unfolding decode_string
decode_string-hex_encode upper [] h = refl
decode_string-hex_encode upper (b ∷ bs) (hb, h) =
    rw
      (
        hex_digit-digit upper (b / 16) (omega arith),
        hex_digit-digit upper (b % 16) (omega arith),
        decode_string-hex_encode upper bs h,
      )
      (ap (λ n. ok (n ∷ bs)) (omega arith))

-- A column that arrives as the hexadecimal text of some bytes, in either case, is scanned like the
-- bytes themselves.
pub scan-hex_encode :
    (upper : Bool) (bs : List ℕ) (l : Location)
    → All (λ b. b < 256) bs
    → scan (text (hex_encode upper bs)) l ≡ scan (bytes bs) l
unfolding scan
scan-hex_encode upper bs l h = rw (decode_string-hex_encode upper bs h)

with_byte_total :
    (h l : Option ℕ) (rest : Outcome (List ℕ))
    → ((bs : List ℕ) × (rest ≡ ok bs)) ⊎ ((e : GoError) × (rest ≡ err e))
    → ((bs : List ℕ) × (with_byte h l rest ≡ ok bs))
      ⊎ ((e : GoError) × (with_byte h l rest ≡ err e))
with_byte_total (some h) (some l) rest (inl (bs, e)) = inl ((h * 16 + l) ∷ bs, rw e)
with_byte_total (some h) (some l) rest (inr (x, e)) = inr (x, rw e)
with_byte_total (some h) none rest known = inr (_, refl)
with_byte_total none l rest known = inr (_, refl)

single_digit :
    (d : Option ℕ)
    → (e : GoError) × (◌≡◌ {A = Outcome (List ℕ)}
        (elim d [ some _ ↦ err odd_hex | none ↦ err invalid_hex ])
        (err e))
single_digit none = (_, refl)
single_digit (some _) = (_, refl)

decode_string_total :
    (s : Text)
    → ((bs : List ℕ) × (decode_string s ≡ ok bs)) ⊎ ((e : GoError) × (decode_string s ≡ err e))
unfolding decode_string
decode_string_total [] = inl ([], refl)
decode_string_total (h ∷ []) = inr (single_digit (hex_digit h))
decode_string_total (h ∷ l ∷ rest) =
    with_byte_total (hex_digit h) (hex_digit l) (decode_string rest) (decode_string_total rest)

scan_point_total :
    (bin : List ℕ) (l : Location)
    → ((scan_point bin l).0 ≡ ok tt) ⊎ ((e : GoError) × (scan_point bin l ≡ (err e, l)))
unfolding scan_point
scan_point_total bin l = elim (Bool-cases (ltb (length bin) 21)) [
  | inl short ↦ inr (other "invalid EWKB length for Point", rw short)
  | inr long ↦ inl (rw long)
]

-- A scan either succeeds or returns an error and leaves the location as it was; it never panics.
pub scan_total :
    (c : Column) (l : Location) → ((scan c l).0 ≡ ok tt) ⊎ ((e : GoError) × (scan c l ≡ (err e, l)))
unfolding scan
scan_total null l = inl refl
scan_total (bytes bin) l = scan_point_total bin l
scan_total (text s) l = elim (decode_string_total s) [
  | inl (bs, e) ↦ rw e (scan_point_total bs l)
  | inr (e, failed) ↦ rw failed (inr (e, refl))
]
scan_total unsupported l = inr (_, refl)

-- Raw bytes are accepted exactly when there are at least 21 of them.
pub scan_bytes_ok_iff :
    (bin : List ℕ) (l : Location) → ((scan (bytes bin) l).0 ≡ ok tt) ↔ (21 ≤ length bin)
unfolding scan scan_point
scan_bytes_ok_iff bin l = ground arith
