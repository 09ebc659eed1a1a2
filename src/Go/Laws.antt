-- ===== src/Go/Laws.antt =====
-- The laws of sequencing, and a case split on how a call ended.
use filestore_hsz.Prelude.{Text, ◌≡◌, refl, ◌⊎◌, inl, inr}
use filestore_hsz.Go.{Result, ok, err, Exit, ret, panic, Go, pure, continue, ◌>>=◌}

pub Exit-cases {ℓ} : {A : Type ℓ} (e : Exit A) → (e ≡ panic) ⊎ ((a : A) × (e ≡ ret a))
Exit-cases (ret a) = inr (a, refl)
Exit-cases panic = inl refl

module _ {W A : Type 0} where
  continue-pure : (x : Exit A × W) → continue x.0 pure x.1 ≡ x
  continue-pure (ret a, w) = refl
  continue-pure (panic, w) = refl

  pub bind-pure : (m : Go W A) (w : W) → (m >>= pure) w ≡ m w
  bind-pure m w = continue-pure (m w)

module _ {W A B C : Type 0} where
  continue_assoc :
      (x : Exit A × W) (f : A → Go W B) (g : B → Go W C)
      → ((λ (v : W). continue x.0 f x.1) >>= g) x.1 ≡ continue x.0 (λ a. f a >>= g) x.1
  continue_assoc (ret a, w) f g = refl
  continue_assoc (panic, w) f g = refl

  pub bind_assoc :
      (m : Go W A) (f : A → Go W B) (g : B → Go W C) (w : W)
      → (m >>= f >>= g) w ≡ (m >>= λ a. f a >>= g) w
  bind_assoc m f g w = continue_assoc (m w) f g

-- To split on what a call of a service gives.
pub Result-cases :
    {W A : Type 0} (x : Result A × W)
    → ((a : A) × (w : W) × (x ≡ (ok a, w))) ⊎ ((e : Text) × (w : W) × (x ≡ (err e, w)))
Result-cases (ok a, w) = inl (a, w, refl)
Result-cases (err e, w) = inr (e, w, refl)

pub end-cases :
    {A W : Type 0} (x : Exit A × W)
    → ((a : A) × (w : W) × (x ≡ (ret a, w))) ⊎ ((w : W) × (x ≡ (panic, w)))
end-cases (ret a, w) = inl (a, w, refl)
end-cases (panic, w) = inr (w, refl)
