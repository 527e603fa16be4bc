-- ===== src/Learning/Buffer.antt =====
-- `ReplayBuffer` (src/mark/rl/buffer.py), of any type of experiences.
use mark_sdk.Prelude.{
  ℕ, Option, none, some, List, [], ◌∷◌, ◌++◌, ◌+◌, ◌%◌, suc, zero, ltb, if◌then◌else◌, length,
}

module _ {ℓ} (A : Type ℓ) where
  pub record ReplayBuffer : Type ℓ where
    pub capacity : ℕ
    pub buffer : List A
    pub pos : ℕ

module _ {ℓ} {A : Type ℓ} where
  -- self._buffer[i] = x
  abbrev pub set_at : ℕ → A → List A → List A
  set_at i x [] = []
  set_at zero x (y ∷ ys) = x ∷ ys
  set_at (suc i) x (y ∷ ys) = y ∷ set_at i x ys

  -- __init__, which raises for a capacity below 1
  unfoldable pub new_buffer : ℕ → Option (ReplayBuffer A)
  new_buffer capacity =
      if ltb capacity 1 then none else some (record { capacity = capacity; buffer = []; pos = 0 })

  unfoldable pub push : A → ReplayBuffer A → ReplayBuffer A
  push x b = record b {
    buffer =
        if ltb (length b.buffer) b.capacity then b.buffer ++ x ∷ [] else set_at b.pos x b.buffer;
    pos = (b.pos + 1) % b.capacity;
  }

  unfoldable pub push_all : List A → ReplayBuffer A → ReplayBuffer A
  push_all [] b = b
  push_all (x ∷ xs) b = push_all xs (push x b)
