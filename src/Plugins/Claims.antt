-- ===== src/Plugins/Claims.antt =====
-- Lemmas and the theorem about registration and its roll back (src/mark/plugins/registry.py).
use mark_sdk.Prelude.{
  String, ◌≡◌, refl, ap, sym, ◌∙◌, Bool, true, false, Option, none, some, List, [], ◌∷◌, ◌&&◌, ◌==◌,
  eq_sound, inl, inr, Bool-cases, Option-cases, is_some, if◌then◌else◌, any, arith, false_of_both,
  Dict, dict_get, dict_put, dict_pop, is_in, dict_get-dict_put, dict_get-dict_pop,
}
use mark_sdk.Plugins.Registry.{
  Plugin, Registry, Outcome, registered, is_registered, claim_hooks, drop_hooks, with_plugin,
  rolled_back, is_claimed, register, finish,
}

module _ {ℓ} {H : Type ℓ} where
  claimed_or : Plugin H → Bool → String → Option (String × H) → Option (String × H)
  claimed_or p mine j o = if mine then some (p.name, p.get_hook j) else o

  same_hook :
      (p : Plugin H) (b : Bool) (h j : String)
      → h ≡ j
      → claimed_or p b j (some (p.name, p.get_hook h)) ≡ some (p.name, p.get_hook j)
  unfolding claimed_or
  same_hook p true h j e = refl
  same_hook p false h j e = rw e refl

  dict_get-claim_hooks :
      (p : Plugin H) (hs : List String) (d : Dict (String × H)) (j : String)
      → dict_get j (claim_hooks p hs d) ≡ claimed_or p (is_in hs j) j (dict_get j d)
  unfolding claim_hooks claimed_or
  dict_get-claim_hooks p [] d j = refl
  dict_get-claim_hooks p (h ∷ hs) d j = elim (Bool-cases (h == j)) [
    | inr n ↦
        dict_get-claim_hooks p hs (dict_put h (p.name, p.get_hook h) d) j
        ∙ rw (dict_get-dict_put h j (p.name, p.get_hook h) d, n) refl
    | inl y ↦
        dict_get-claim_hooks p hs (dict_put h (p.name, p.get_hook h) d) j
        ∙ rw (dict_get-dict_put h j (p.name, p.get_hook h) d, y)
            (same_hook p (is_in hs j) h j (eq_sound h j y))
  ]

  dict_get-drop_hooks :
      (hs : List String) (d : Dict (String × H)) (j : String)
      → dict_get j (drop_hooks hs d) ≡ (if is_in hs j then none else dict_get j d)
  unfolding drop_hooks
  dict_get-drop_hooks [] d j = refl
  dict_get-drop_hooks (h ∷ hs) d j =
      ground (arith, dict_get-drop_hooks hs (dict_pop h d) j, dict_get-dict_pop h j d)

  -- No hook of the list is claimed.
  unclaimed :
      (r : Registry H) (hs : List String) (j : String)
      → any (is_claimed r) hs ≡ false
      → is_in hs j ≡ true
      → dict_get j r.hook_index ≡ none
  unfolding is_claimed
  unclaimed r [] j h k = absurd (ground arith)
  unclaimed r (x ∷ hs) j h k = elim (Bool-cases (x == j)) [
    | inr n ↦ unclaimed r hs j (ground arith) (rw n at k)
    | inl y ↦ elim (Option-cases (dict_get j r.hook_index)) [
      | inl absent ↦ absent
      | inr (e, found) ↦ absurd (
          false_of_both {b = is_some (dict_get x r.hook_index)} (ground arith)
            (ap (λ i. is_some (dict_get i r.hook_index)) (eq_sound x j y) ∙ rw found refl))
    ]
  ]

  hooks_rolled_back :
      (p : Plugin H) (r : Registry H) (j : String)
      → any (is_claimed r) p.provides ≡ false
      → dict_get j (rolled_back p (with_plugin p r)).hook_index ≡ dict_get j r.hook_index
  unfolding rolled_back with_plugin claimed_or
  hooks_rolled_back p r j free =
      dict_get-drop_hooks p.provides (claim_hooks p p.provides r.hook_index) j
      ∙ elim (Bool-cases (is_in p.provides j)) [
        | inl y ↦ rw y (sym (unclaimed r p.provides j free y))
        | inr n ↦ rw n (dict_get-claim_hooks p p.provides r.hook_index j ∙ rw n refl)
      ]

  plugins_rolled_back :
      (p : Plugin H) (r : Registry H) (n : String)
      → dict_get p.name r.plugins ≡ none
      → dict_get n (rolled_back p (with_plugin p r)).plugins ≡ dict_get n r.plugins
  unfolding rolled_back with_plugin
  plugins_rolled_back p r n absent =
      dict_get-dict_pop p.name n (dict_put p.name p r.plugins) ∙ elim (Bool-cases (p.name == n)) [
        | inl y ↦ rw y (sym absent ∙ ap (λ i. dict_get i r.plugins) (eq_sound p.name n y))
        | inr k ↦ rw k (dict_get-dict_put p.name n p r.plugins ∙ rw k refl)
      ]

  -- What a registration that ends so leaves for the hook `j` and the plugin name `n`.
  unfoldable pub IsLeft : Plugin H → Registry H → Outcome × Registry H → Type ℓ
  IsLeft p r (outcome, r') =
      ((j : String)
        → dict_get j r'.hook_index ≡ (
            if is_registered outcome && is_in p.provides j
            then some (p.name, p.get_hook j)
            else dict_get j r.hook_index))
      × ((n : String)
          → dict_get n r'.plugins
            ≡ (if is_registered outcome && (p.name == n) then some p else dict_get n r.plugins))

  IsLeft-with_plugin : (p : Plugin H) (r : Registry H) → IsLeft p r (registered, with_plugin p r)
  unfolding IsLeft with_plugin claimed_or
  IsLeft-with_plugin p r = (
    (λ j. dict_get-claim_hooks p p.provides r.hook_index j),
    (λ n. dict_get-dict_put p.name n p r.plugins),
  )

  finish-IsLeft :
      (p : Plugin H) (on_register : Option Bool) (r : Registry H)
      → any (is_claimed r) p.provides ≡ false
      → dict_get p.name r.plugins ≡ none
      → IsLeft p r (finish p on_register r)
  unfolding finish IsLeft
  finish-IsLeft p none r free absent = IsLeft-with_plugin p r
  finish-IsLeft p (some false) r free absent = IsLeft-with_plugin p r
  finish-IsLeft p (some true) r free absent =
      ((λ j. hooks_rolled_back p r j free), (λ n. plugins_rolled_back p r n absent))

  -- A registration is all or nothing: when it succeeds the plugin and exactly its hooks are added
  -- and every other lookup is as before; when it raises (a taken name, a claimed hook, an
  -- on_register that fails) every hook and plugin lookup is as before.
  pub register-IsLeft :
      (p : Plugin H) (on_register : Option Bool) (r : Registry H)
      → IsLeft p r (register p on_register r)
  unfolding register IsLeft
  register-IsLeft p on_register r = elim (Option-cases (dict_get p.name r.plugins)) [
    | inr (q, found) ↦ rw found ((λ j. refl), (λ n. refl))
    | inl absent ↦ elim (Bool-cases (any (is_claimed r) p.provides)) [
      | inl y ↦ rw (absent, y) ((λ j. refl), (λ n. refl))
      | inr free ↦ rw (absent, free) (finish-IsLeft p on_register r free absent)
    ]
  ]
