-- ===== src/Prelude/Relations.antt =====
-- What a step relation reaches, with the two inductions that the components share.
module _ {ℓ κ} {A : Type ℓ} (Step : A → A → Type κ) where
  pub data Reach (a : A) : A → Type (ℓ ⊔ κ) where
    here : Reach a a
    next : {b c : A} → Reach a b → Step b c → Reach a c

module _ {ℓ κ} {A : Type ℓ} {Step : A → A → Type κ} where
  pub Reach-trans : {a b c : A} → Reach Step a b → Reach Step b c → Reach Step a c
  Reach-trans r here = r
  Reach-trans r (next q s) = next (Reach-trans r q) s

  pub Reach-before : {a b c : A} → Step a b → Reach Step b c → Reach Step a c
  Reach-before s r = Reach-trans (next here s) r

  -- What every step keeps holds wherever the steps lead.
  pub Reach-preserves {μ} :
      {P : A → Type μ} {a b : A} → ((c d : A) → Step c d → P c → P d) → Reach Step a b → P a → P b
  Reach-preserves keeps here p = p
  Reach-preserves keeps (next r s) p = keeps _ _ s (Reach-preserves keeps r p)
