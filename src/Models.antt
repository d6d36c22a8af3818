-- ===== src/Models.antt =====
-- internal/models/place.go and user.go: the rows of the tables and the bodies of the requests.
pub mod Ewkb
use route_planner.Prelude.{ℕ, String, List, ◌++◌, Option}
use route_planner.Prelude.Text.{Text, codes}

-- A float64, as its IEEE-754 bit pattern below 2 ^ 64. The program computes with none of them: it
-- reads them from JSON or from the database and hands them on.
abbrev pub Float64 : Type 0
Float64 = ℕ

-- A time.Time, as nanoseconds from some fixed instant.
abbrev pub Time : Type 0
Time = ℕ

pub record Location : Type 0 where
  pub latitude : Float64
  pub longitude : Float64

-- `Location.Value`, over `fmt`'s `%f`.
abbrev pub location_value : (Float64 → Text) → Location → Text
location_value show_float l =
    codes "SRID=4326;POINT("
    ++ (show_float l.longitude ++ (codes " " ++ (show_float l.latitude ++ codes ")")))

pub record PlaceCreateRequest : Type 0 where
  pub name : String
  pub tags : List String
  pub description : String
  pub location : Location
  pub address : String
  pub rating : Float64

pub record Place : Type 0 where
  pub id : String
  pub name : String
  pub tags : List String
  pub description : String
  pub location : Location
  pub address : String
  pub rating : Float64
  pub created_by : String
  pub created_at : Time
  pub updated_at : Time
  pub deleted_at : Option Time

-- A nil pointer is `none`.
pub record PlaceUpdateRequest : Type 0 where
  pub name : Option String
  pub description : Option String
  pub location : Option Location
  pub address : Option String
  pub rating : Option Float64

pub record User : Type 0 where
  pub id : String
  pub name : String
  pub email : String
  pub password_hash : String
  pub created_at : Time
  pub updated_at : Time
  pub deleted_at : Option Time

pub record UserCreateRequest : Type 0 where
  pub name : String
  pub email : String
  pub password : String

pub record UserUpdateRequest : Type 0 where
  pub name : Option String
  pub email : Option String

pub record LoginRequest : Type 0 where
  pub email : String
  pub password : String

pub record AuthResponse : Type 0 where
  pub token : Text
  pub user : User
