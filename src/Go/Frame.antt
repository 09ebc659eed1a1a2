-- ===== src/Go/Frame.antt =====
-- What a computation keeps of its world, whether it returns or panics.
use filestore_hsz.Go.{Exit, ret, panic, Go, continue, ◌>>=◌}

abbrev pub Keeps : {W A : Type 0} → (W → Type 0) → Go W A → Type 0
Keeps {W} I m = (w : W) → I w → I (m w).1

module _ {W : Type 0} (I : W → Type 0) where
  continue-Keeps :
      {A B : Type 0} (f : A → Go W B)
      → ((a : A) → Keeps I (f a))
      → (r : Exit A) (w : W) → I w
      → I (continue r f w).1
  continue-Keeps f kept (ret a) w h = kept a w h
  continue-Keeps f kept panic w h = h

  pub bind-Keeps :
      {A B : Type 0} (m : Go W A) (f : A → Go W B)
      → Keeps I m
      → ((a : A) → Keeps I (f a))
      → Keeps I (m >>= f)
  bind-Keeps m f first kept w h = continue-Keeps f kept (m w).0 (m w).1 (first w h)
