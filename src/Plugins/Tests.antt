-- ===== src/Plugins/Tests.antt =====
-- A registry of one plugin.
use mark_sdk.Prelude.{String, true, some, [], ◌∷◌}
use mark_sdk.Plugins.Registry.{Plugin, Registry, register}
use mark_sdk.Plugins.Claims.{IsLeft, register-IsLeft}

abbrev ranker : Plugin String
ranker = record {
  name = "ranker";
  version = "1.0";
  provides = "scoring" ∷ "critic" ∷ [];
  get_hook = λ h. h;
}

abbrev empty : Registry String
empty = record { plugins = []; hook_index = [] }

-- The plugin's `on_register` raises.
register-IsLeft_example : IsLeft ranker empty (register ranker (some true) empty)
register-IsLeft_example = register-IsLeft ranker (some true) empty
