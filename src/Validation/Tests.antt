-- ===== src/Validation/Tests.antt =====
-- The unsafe pattern on one text.
use route_planner.Prelude.{◌≡◌, ◌↔◌, false}
use route_planner.Prelude.Text.{codes}
use route_planner.Validation.{is_safe_content}
use route_planner.Validation.Safe.{HasUnsafe, is_safe_content_iff}

is_safe_content_iff_example :
    (is_safe_content (codes "a onclick=b") ≡ false) ↔ HasUnsafe (codes "a onclick=b")
is_safe_content_iff_example = is_safe_content_iff (codes "a onclick=b")
