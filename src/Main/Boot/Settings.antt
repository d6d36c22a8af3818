-- ===== src/Main/Boot/Settings.antt =====
-- The fields of the configuration that `main` reads.
use route_planner.Prelude.{String, Option, none, some, if◌then◌else◌}
use route_planner.Prelude.Text.{str_eq}
use route_planner.Prelude.Int.{ℤ, pos}
use route_planner.Config.{Fields, leaf, struct, Value, string, int, Values}
use route_planner.Config.Startup.{config_fields}

-- The value of a field, by its name.
abbrev pub member : String → Fields → Values → Option Value
member name (leaf f fields) (Values.leaf v vs) =
    let rest = member name fields vs in if str_eq f.name name then some v else rest
member name (struct s inner fields) (Values.struct us vs) = member name fields vs
member name fields vs = none

-- The same in a struct of the struct.
abbrev pub member_of : String → String → Fields → Values → Option Value
member_of section name (leaf f fields) (Values.leaf v vs) = member_of section name fields vs
member_of section name (struct s inner fields) (Values.struct us vs) =
    let rest = member_of section name fields vs in
    if str_eq s section then member name inner us else rest
member_of section name fields vs = none

abbrev text_of : Option Value → String
text_of (some (string text)) = text
text_of v = ""

abbrev pub int_of : Option Value → ℤ
int_of (some (int z)) = z
int_of v = pos 0

-- `cfg.<section>.<name>` at a text and at a number.
pub text_setting : Values → String → String → String
text_setting cfg section name = text_of (member_of section name config_fields cfg)

unfoldable pub int_setting : Values → String → String → ℤ
int_setting cfg section name = int_of (member_of section name config_fields cfg)
