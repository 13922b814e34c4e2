-- ===== src/Json/Laws.antt =====
-- JSON objects: reading a member after one is written.
use tinymcp.Common.{◌≡◌, refl, some, String, str_eq, if◌then◌else◌, arith, eq_iff}
use tinymcp.Json.{Value, Members, end, field, get, insert}

pub get-insert :
    (name other : String) (new : Value) (m : Members)
    → get other (insert name new m) ≡ (if str_eq name other then some new else get other m)
get-insert name other new end = refl
get-insert name other new (field key v m) =
    ground
      (arith, get-insert name other new m, eq_iff key name, eq_iff key other, eq_iff name other)
