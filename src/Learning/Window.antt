-- ===== src/Learning/Window.antt =====
-- What the replay buffer holds (src/mark/rl/buffer.py): a circular list against the log of all pushes.
use mathlib.Core.Option.{none-ne-some, some-injective}
use native.Mathlib.Nat.{mod-eq_of_lt, mod_self}
use mark_sdk.Prelude.{
  ℕ, ◌≡◌, refl, sym, ap, ◌∙◌, some, List, [], ◌∷◌, ◌++◌, ◌+◌, ◌-◌, ◌%◌, ◌<◌, ◌≤◌, suc, ltb, length,
  drop, drop-append, length-append, append_assoc, append-nil, ◌⊎◌, inl, inr, Bool-cases, arith,
  subst,
}
use mark_sdk.Learning.Buffer.{ReplayBuffer, set_at, new_buffer, push, push_all}

lt_or_ge : (m n : ℕ) → (m < n) ⊎ (n ≤ m)
lt_or_ge m n = elim (Bool-cases (ltb m n)) [
  | inl y ↦ inl (ground arith)
  | inr k ↦ inr (ground arith)
]

module _ {ℓ} {A : Type ℓ} where
  -- How the buffer lies to the log of all pushes: it is the log until it is full, and then the newest
  -- pushes stand before the older ones that they have not yet overwritten.
  pub data Holds (b : ReplayBuffer A) (log : List A) : Type ℓ where
    filling : b.buffer ≡ log → b.pos ≡ length log → length log < b.capacity → Holds b log
    full :
        (gone older newer : List A)
        → log ≡ gone ++ (older ++ newer)
        → b.buffer ≡ newer ++ older
        → b.pos ≡ length newer
        → length older + length newer ≡ b.capacity
        → length newer < b.capacity
        → Holds b log

  nil_of_length : (xs : List A) → length xs ≡ 0 → xs ≡ []
  nil_of_length [] h = refl
  nil_of_length (x ∷ xs) h = absurd (omega (arith, h))

  set_at-length : (x y : A) (xs ys : List A) → set_at (length xs) x (xs ++ y ∷ ys) ≡ xs ++ x ∷ ys
  set_at-length x y [] ys = refl
  set_at-length x y (z ∷ xs) ys = ap (λ zs. z ∷ zs) (set_at-length x y xs ys)

  buffer-push-filling :
      (x : A) (b : ReplayBuffer A)
      → length b.buffer < b.capacity
      → (push x b).buffer ≡ b.buffer ++ x ∷ []
  unfolding push
  buffer-push-filling x b h = ground arith

  buffer-push-full :
      (x : A) (b : ReplayBuffer A)
      → b.capacity ≤ length b.buffer
      → (push x b).buffer ≡ set_at b.pos x b.buffer
  unfolding push
  buffer-push-full x b h = ground arith

  pos-push : (x : A) (b : ReplayBuffer A) → (push x b).pos ≡ (b.pos + 1) % b.capacity
  unfolding push
  pos-push x b = refl

  capacity-push : (x : A) (b : ReplayBuffer A) → (push x b).capacity ≡ b.capacity
  unfolding push
  capacity-push x b = refl

  -- The push that makes the buffer full, or full again.
  wrapped :
      (b : ReplayBuffer A) (log gone newest : List A)
      → log ≡ gone ++ newest
      → b.buffer ≡ newest
      → b.pos ≡ length newest % b.capacity
      → length newest ≡ b.capacity
      → 0 < b.capacity
      → Holds b log
  wrapped b log gone newest e f g h k =
      full gone newest [] (rw (append-nil newest) e) f (g ∙ (rw h (mod_self b.capacity)))
        (omega (arith, h)) k

  push-filling :
      (x : A) (b : ReplayBuffer A) (log : List A)
      → b.buffer ≡ log
      → b.pos ≡ length log
      → length log < b.capacity
      → Holds (push x b) (log ++ x ∷ [])
  unfolding push
  push-filling x b log e f h =
      let held : (push x b).buffer ≡ log ++ x ∷ [] =
        buffer-push-filling x b (rw (ap length e) h) ∙ ap (λ ys. ys ++ x ∷ []) e in
      let many : length (log ++ x ∷ []) ≡ length log + 1 = length-append log (x ∷ []) in
      let pos : (push x b).pos ≡ length (log ++ x ∷ []) % b.capacity =
        pos-push x b ∙ rw (f, many) refl in
      elim (lt_or_ge (length (log ++ x ∷ [])) b.capacity) [
        | inl y ↦ filling held (pos ∙ mod-eq_of_lt y) y
        | inr n ↦
            wrapped (push x b) (log ++ x ∷ []) [] (log ++ x ∷ []) refl held pos (omega arith)
              (omega arith)
      ]

  regroup :
      (gone : List A) (y : A) (older newer : List A) (x : A)
      → (gone ++ y ∷ (older ++ newer)) ++ x ∷ [] ≡ (gone ++ y ∷ []) ++ (older ++ (newer ++ x ∷ []))
  regroup [] y older newer x = ap (λ zs. y ∷ zs) (append_assoc older newer (x ∷ []))
  regroup (z ∷ gone) y older newer x = ap (λ zs. z ∷ zs) (regroup gone y older newer x)

  push-full :
      (x : A) (b : ReplayBuffer A) (gone : List A) (y : A) (older newer : List A)
      → b.buffer ≡ newer ++ y ∷ older
      → b.pos ≡ length newer
      → suc (length older) + length newer ≡ b.capacity
      → Holds (push x b) ((gone ++ y ∷ (older ++ newer)) ++ x ∷ [])
  unfolding push
  push-full x b gone y older newer e f h =
      let size : length b.buffer ≡ length newer + suc (length older) =
        ap length e ∙ length-append newer (y ∷ older) in
      let held : (push x b).buffer ≡ newer ++ x ∷ older =
        buffer-push-full x b (omega (arith, size, h)) ∙ rw (f, e) (set_at-length x y newer older) in
      let many : length (newer ++ x ∷ []) ≡ length newer + 1 = length-append newer (x ∷ []) in
      let pos : (push x b).pos ≡ length (newer ++ x ∷ []) % b.capacity =
        pos-push x b ∙ rw (f, many) refl in
      elim (lt_or_ge (length (newer ++ x ∷ [])) b.capacity) [
        | inl l ↦
            full (gone ++ y ∷ []) older (newer ++ x ∷ []) (regroup gone y older newer x)
              (held ∙ sym (append_assoc newer (x ∷ []) older)) (pos ∙ mod-eq_of_lt l) (omega arith)
              l
        | inr n ↦
            let none_left : older ≡ [] = nil_of_length older (omega arith) in
            wrapped (push x b) ((gone ++ y ∷ (older ++ newer)) ++ x ∷ []) (gone ++ y ∷ [])
              (newer ++ x ∷ [])
              (regroup gone y older newer x
                ∙ ap (λ zs. (gone ++ y ∷ []) ++ (zs ++ (newer ++ x ∷ []))) none_left)
              (held ∙ ap (λ zs. newer ++ x ∷ zs) none_left) pos (omega arith) (omega arith)
      ]

  push-Holds :
      (x : A) (b : ReplayBuffer A) (log : List A) → Holds b log → Holds (push x b) (log ++ x ∷ [])
  push-Holds x b log (filling e f h) = push-filling x b log e f h
  push-Holds x b log (full gone [] newer l e f g h) = absurd (omega (arith, g, h))
  push-Holds x b log (full gone (y ∷ older) newer l e f g h) =
      rw l (push-full x b gone y older newer e f g)

  push_all-Holds :
      (xs : List A) (b : ReplayBuffer A) (log : List A)
      → Holds b log
      → Holds (push_all xs b) (log ++ xs)
  unfolding push_all
  push_all-Holds [] b log h = rw (append-nil log) h
  push_all-Holds (x ∷ xs) b log h =
      subst (λ l. Holds (push_all xs (push x b)) l) (append_assoc log (x ∷ []) xs)
        (push_all-Holds xs (push x b) (log ++ x ∷ []) (push-Holds x b log h))

  push_all-capacity : (xs : List A) (b : ReplayBuffer A) → (push_all xs b).capacity ≡ b.capacity
  unfolding push_all
  push_all-capacity [] b = refl
  push_all-capacity (x ∷ xs) b = push_all-capacity xs (push x b) ∙ capacity-push x b

  -- The newest n of a list are two parts, which the buffer has in the other order.
  unfoldable pub IsRotation : List A → List A → Type ℓ
  IsRotation xs ys =
      (older : List A) × ((newer : List A) × ((xs ≡ newer ++ older) × (ys ≡ older ++ newer)))

  newest_of_Holds :
      (b : ReplayBuffer A) (log : List A)
      → Holds b log
      → IsRotation b.buffer (drop (length log - b.capacity) log)
  unfolding IsRotation
  newest_of_Holds b log (filling e f h) =
      let all : length log - b.capacity ≡ 0 = omega (arith, h) in
      (log, ([], (e, rw (all, append-nil log) refl)))
  newest_of_Holds b log (full gone older newer l e f g h) =
      let size : length log ≡ length gone + (length older + length newer) =
        ap length l
        ∙ (length-append gone (older ++ newer)
            ∙ ap (λ n. length gone + n) (length-append older newer)) in
      let dropped : length log - b.capacity ≡ length gone = omega (arith, size, g) in
      (older, (newer, (e, rw (dropped, l) (drop-append gone (older ++ newer)))))

  new_buffer-Holds :
      (capacity : ℕ) (b : ReplayBuffer A)
      → new_buffer capacity ≡ some b
      → Holds b [] × (b.capacity ≡ capacity)
  unfolding new_buffer
  new_buffer-Holds capacity b h = elim (Bool-cases (ltb capacity 1)) [
    | inl y ↦ absurd (none-ne-some b (rw y at h))
    | inr n ↦
        subst (λ b'. Holds b' [] × (b'.capacity ≡ capacity)) (some-injective _ _ (rw n at h))
          (filling refl refl (ground arith), refl)
  ]

  -- After any pushes into a new replay buffer of any capacity that its constructor accepts, the
  -- buffer holds exactly the newest pushes, as many as the capacity allows, in their order but for
  -- a rotation.
  pub push_all-IsRotation :
      (capacity : ℕ) (b : ReplayBuffer A) (xs : List A)
      → new_buffer capacity ≡ some b
      → IsRotation (push_all xs b).buffer (drop (length xs - capacity) xs)
  push_all-IsRotation capacity b xs h =
      let fresh = new_buffer-Holds capacity b h in
      let same : (push_all xs b).capacity ≡ capacity = push_all-capacity xs b ∙ fresh.1 in
      subst (λ c. IsRotation (push_all xs b).buffer (drop (length xs - c) xs)) same
        (newest_of_Holds (push_all xs b) xs (push_all-Holds xs b [] fresh.0))
