-- ===== src/Models/Ewkb.antt =====
-- `Location.Scan` of internal/models/place.go, with `hex.DecodeString` and `Uint64` of both byte
-- orders, which it calls.
pub mod Laws
pub mod Tests
use route_planner.Prelude.{
  ℕ, ◌+◌, ◌-◌, ◌*◌, String, Bool, true, false, ◌&&◌, Option, none, some, List, [], ◌∷◌, reverse,
  ltb, leb, ◌==◌, if◌then◌else◌, length, take, drop,
}
use route_planner.Prelude.Text.{Text}
use route_planner.Errors.{GoError, other}
use route_planner.Effects.{Outcome, ok, err, panic, Eff}
use route_planner.Models.{Location}

-- What `value interface{}` can hold, as far as `Scan` tells it apart.
pub data Column : Type 0 where
  null : Column
  bytes : List ℕ → Column
  text : Text → Column
  unsupported : Column

-- The value of a hexadecimal digit.
hex_digit : ℕ → Option ℕ
hex_digit c =
    if leb b'0' c && leb c b'9'
    then some (c - b'0')
    else if leb b'a' c && leb c b'f'
    then some (c - b'a' + 10)
    else if leb b'A' c && leb c b'F'
    then some (c - b'A' + 10)
    else none

abbrev invalid_hex : GoError
invalid_hex = other "encoding/hex: invalid byte"

abbrev odd_hex : GoError
odd_hex = other "encoding/hex: odd length hex string"

-- One decoded byte before what the rest of the text decodes to.
abbrev with_byte : Option ℕ → Option ℕ → Outcome (List ℕ) → Outcome (List ℕ)
with_byte (some h) (some l) (ok bs) = ok ((h * 16 + l) ∷ bs)
with_byte (some h) (some l) (err e) = err e
with_byte (some h) (some l) panic = panic
with_byte (some h) none rest = err invalid_hex
with_byte none l rest = err invalid_hex

-- `hex.DecodeString`: digits by pairs, the first bad digit before an odd length.
decode_string : Text → Outcome (List ℕ)
unfolding hex_digit
decode_string [] = ok []
decode_string (h ∷ []) = elim (hex_digit h) [ some _ ↦ err odd_hex | none ↦ err invalid_hex ]
decode_string (h ∷ l ∷ rest) = with_byte (hex_digit h) (hex_digit l) (decode_string rest)

-- `binary.LittleEndian.Uint64` and, on the bytes reversed, `binary.BigEndian.Uint64`.
abbrev little_endian : List ℕ → ℕ
little_endian [] = 0
little_endian (b ∷ bs) = b + 256 * little_endian bs

abbrev uint64 : Bool → List ℕ → ℕ
uint64 true bs = little_endian bs
uint64 false bs = little_endian (reverse bs)

-- `bin[0] == 1`; `Scan` reads it only of a list of at least 21 bytes.
abbrev is_little : List ℕ → Bool
is_little [] = false
is_little (b ∷ _) = b == 1

-- `bin[lo : lo + 8]`
abbrev eight_at : ℕ → List ℕ → List ℕ
eight_at lo bin = take 8 (drop lo bin)

-- The last part of `Scan`, on the bytes: the two coordinates end the point, the longitude first.
scan_point : List ℕ → Eff Location (Unit {0})
scan_point bin l =
    if ltb (length bin) 21
    then (err (other "invalid EWKB length for Point"), l)
    else (let order = is_little bin in
        let offset = length bin - 16 in
        (
          ok tt,
          record {
            latitude = uint64 order (eight_at (offset + 8) bin);
            longitude = uint64 order (eight_at offset bin);
          },
        ))

abbrev scan_decoded : Outcome (List ℕ) → Eff Location (Unit {0})
scan_decoded (ok bin) l = scan_point bin l
scan_decoded (err e) l = (err e, l)
scan_decoded panic l = (panic, l)

-- `(l *Location) Scan(value)`: the world is the location that it fills in.
pub scan : Column → Eff Location (Unit {0})
unfolding scan_point decode_string
scan null l = (ok tt, l)
scan (bytes bin) l = scan_point bin l
scan (text s) l = scan_decoded (decode_string s) l
scan unsupported l = (err (other "invalid type for Location Scan"), l)
