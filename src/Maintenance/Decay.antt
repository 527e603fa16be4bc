-- ===== src/Maintenance/Decay.antt =====
-- The decay of importance (src/mark/plasticity/decay.py).
use mark_sdk.Prelude.{ℕ, ◌≡◌, refl, false, ◌-◌, ◌≤◌, arith}
use mark_sdk.Types.Enums.{promoted, state_eq}
use mark_sdk.Types.Fragment.{Fragment}
use mark_sdk.Maintenance.Plasticity.{
  ExponentialDecay, reference_time, apply_decay, decay_metadata, decayed_copy,
}

module _ (d : ExponentialDecay) (floor_le : d.floor ≤ 1000000) where
  pub apply_decay-bounds :
      (now : ℕ) (f : Fragment)
      → state_eq f.state promoted ≡ false
      → (d.floor ≤ apply_decay d now f) × (apply_decay d now f ≤ 1000000)
  unfolding apply_decay
  apply_decay-bounds now f h = rw h (omega (arith, floor_le), omega (arith, floor_le))

  no_time :
      d.decay_factor 0 ≡ 1000000
      → (now : ℕ) (g : Fragment) (x : ℕ) → state_eq g.state promoted ≡ false
      → g.importance ≡ x
      → now - reference_time g ≡ 0
      → d.floor ≤ x
      → x ≤ 1000000
      → apply_decay d now g ≡ x
  unfolding apply_decay
  no_time one now g x st imp time low high =
      rw st (rw time (rw one (rw imp (omega (arith, low, high)))))

  -- With a floor of at most 1 and a factor of 1 for no elapsed time, decaying a fragment that is
  -- not promoted again at the same instant changes nothing.
  pub apply_decay-again :
      d.decay_factor 0 ≡ 1000000
      → (now : ℕ) (f : Fragment) → state_eq f.state promoted ≡ false
      → apply_decay d now (decayed_copy (apply_decay d now f) now f) ≡ apply_decay d now f
  unfolding decayed_copy decay_metadata reference_time
  apply_decay-again one now f h =
      let (low, high) = apply_decay-bounds now f h in
      no_time one now (decayed_copy (apply_decay d now f) now f) (apply_decay d now f) h refl
        (omega arith) low high
