-- ===== src/Base/Iff.antt =====
-- Equivalences of products and sums.
use go_nat.Base.{◌↔◌, ◌⊎◌, inl, inr}

pub both_iff {ℓ} : {A B C D : Type ℓ} → A ↔ C → B ↔ D → (A × B) ↔ (C × D)
both_iff (f, g) (h, k) = (λ (a, b). (f a, h b), λ (c, d). (g c, k d))

pub either_iff {ℓ} : {A B C D : Type ℓ} → A ↔ C → B ↔ D → (A ⊎ B) ↔ (C ⊎ D)
either_iff (f, g) (h, k) = (
  λ p. elim p [ inl a ↦ inl (f a) | inr b ↦ inr (h b) ],
  λ p. elim p [ inl c ↦ inl (g c) | inr d ↦ inr (k d) ],
)

pub iff_trans {ℓ} : {A B C : Type ℓ} → A ↔ B → B ↔ C → A ↔ C
iff_trans (f, g) (h, k) = (λ a. h (f a), λ c. g (k c))
