-- ===== src/Models/Ewkb/Tests.antt =====
-- `Location.Scan` on the EWKB of one point, longitude 30.5 and latitude 50.5, with the SRID 4326.
use route_planner.Prelude.{ℕ, ◌≡◌, true, List, [], ◌∷◌, arith}
use route_planner.Effects.{ok}
use route_planner.Models.{Location}
use route_planner.Models.Ewkb.{bytes, scan}
use route_planner.Models.Ewkb.Laws.{ewkb, scan-ewkb}

abbrev header : List ℕ
header = 1 ∷ 0 ∷ 0 ∷ 32 ∷ 230 ∷ 16 ∷ 0 ∷ 0 ∷ []

abbrev longitude : ℕ
longitude = 4629278204166602752

abbrev latitude : ℕ
latitude = 4632304060005089280

abbrev nowhere : Location
nowhere = record { latitude = 0; longitude = 0 }

abbrev kyiv : Location
kyiv = record { latitude = latitude; longitude = longitude }

scan-ewkb_example : scan (bytes (ewkb true header longitude latitude)) nowhere ≡ (ok tt, kyiv)
scan-ewkb_example =
    scan-ewkb true header longitude latitude nowhere (omega arith) (omega arith) (omega arith)
