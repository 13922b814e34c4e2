-- ===== src/Tests/ErrorTests.antt =====
-- crates/tinymcp-bus/src/errors/mod.rs: the names of failures at one failure.
use tinymcp.Common.{◌≡◌, true, none, contains, str_eq}
use tinymcp.Error.{unauthorized, is_unauthorized, is_missing_runtime}
use tinymcp.Error.Names.{wire_name, all_names, is_nodup, wire_name-classifies}

wire_name-classifies_example :
    (contains all_names (wire_name (unauthorized "https://a.example" none)) ≡ true)
    × (is_nodup all_names ≡ true)
    × (str_eq
          (wire_name (unauthorized "https://a.example" none))
          "ai.tinyhumans.tinymcp.Error.Unauthorized"
        ≡ is_unauthorized (unauthorized "https://a.example" none))
    × (str_eq
          (wire_name (unauthorized "https://a.example" none))
          "ai.tinyhumans.tinymcp.Error.MissingRuntime"
        ≡ is_missing_runtime (unauthorized "https://a.example" none))
wire_name-classifies_example = wire_name-classifies (unauthorized "https://a.example" none)
