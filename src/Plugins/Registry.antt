-- ===== src/Plugins/Registry.antt =====
-- `PluginRegistry` (src/mark/plugins/registry.py). A plugin is what its class answers.
use mark_sdk.Prelude.{
  String, Bool, true, false, Option, none, some, List, [], ◌∷◌, not, is_some, if◌then◌else◌, any,
  filter, map, Dict, dict_get, dict_put, dict_pop, sort_by, text_le,
}

module _ {ℓ} (H : Type ℓ) where
  pub record Plugin : Type ℓ where
    pub name : String
    pub version : String
    pub provides : List String
    pub get_hook : String → H

  pub record Registry : Type ℓ where
    pub plugins : Dict Plugin
    pub hook_index : Dict (String × H)

pub data Outcome : Type 0 where
  registered name_taken hook_claimed registration_failed : Outcome

abbrev pub is_registered : Outcome → Bool
is_registered registered = true
is_registered _ = false

module _ {ℓ} {H : Type ℓ} where
  unfoldable pub claim_hooks : Plugin H → List String → Dict (String × H) → Dict (String × H)
  claim_hooks p [] d = d
  claim_hooks p (h ∷ hs) d = claim_hooks p hs (dict_put h (p.name, p.get_hook h) d)

  unfoldable pub drop_hooks : List String → Dict (String × H) → Dict (String × H)
  drop_hooks [] d = d
  drop_hooks (h ∷ hs) d = drop_hooks hs (dict_pop h d)

  unfoldable pub with_plugin : Plugin H → Registry H → Registry H
  with_plugin p r = record {
    plugins = dict_put p.name p r.plugins;
    hook_index = claim_hooks p p.provides r.hook_index;
  }

  unfoldable pub rolled_back : Plugin H → Registry H → Registry H
  rolled_back p r = record {
    plugins = dict_pop p.name r.plugins;
    hook_index = drop_hooks p.provides r.hook_index;
  }

  unfoldable pub is_claimed : Registry H → String → Bool
  is_claimed r h = is_some (dict_get h r.hook_index)

  -- on_register: without a runtime none, else whether the plugin's `on_register` raises.
  unfoldable pub finish : Plugin H → Option Bool → Registry H → Outcome × Registry H
  finish p none r = (registered, with_plugin p r)
  finish p (some false) r = (registered, with_plugin p r)
  finish p (some true) r = (registration_failed, rolled_back p (with_plugin p r))

  -- All outcomes but registered are exceptions.
  unfoldable pub register : Plugin H → Option Bool → Registry H → Outcome × Registry H
  register p on_register r =
      if is_some (dict_get p.name r.plugins)
      then (name_taken, r)
      else if any (is_claimed r) p.provides
      then (hook_claimed, r)
      else finish p on_register r

  unfoldable pub get : Registry H → String → Option H
  get r h = elim (dict_get h r.hook_index) [ none ↦ none | some item ↦ some item.1 ]

  unfoldable pub has : Registry H → String → Bool
  has r h = is_some (dict_get h r.hook_index)

  unfoldable pub list_hooks : Registry H → List String
  list_hooks r = sort_by text_le (map (λ e. e.0) r.hook_index)

  -- The hooks of the list that nobody provides.
  unfoldable pub available_extension_hooks : List String → Registry H → List String
  available_extension_hooks all_hooks r = filter (λ h. not (is_claimed r h)) all_hooks
