-- ===== src/Prelude/Bytes.antt =====
-- Bytes, the big-endian reading of a byte list, and writes at the front of a buffer.
use Prim.Native.Nat.{ℕ, suc, ◌≤◌, ◌<◌}
use mathlib.Core.Path.{◌≡◌, refl, ap}
use mathlib.Core.List.{List, [], ◌∷◌, ◌++◌}
use native.Mathlib.Omega.{arith}
use libsqli.Prelude.Lists.{length, drop}

abbrev pub All {ℓ κ} : {A : Type ℓ} → (A → Type κ) → List A → Type κ
All P [] = Unit
All P (x ∷ xs) = P x × All P xs

abbrev pub IsByte : ℕ → Type 0
IsByte b = b < 256

-- memcpy of the bytes to the front of the buffer; a write past its end does not happen.
abbrev pub overwrite : List ℕ → List ℕ → List ℕ
overwrite [] buf = buf
overwrite (b ∷ bs) [] = []
overwrite (b ∷ bs) (x ∷ xs) = b ∷ overwrite bs xs

pub length-overwrite : (bs buf : List ℕ) → length (overwrite bs buf) ≡ length buf
length-overwrite [] buf = refl
length-overwrite (b ∷ bs) [] = refl
length-overwrite (b ∷ bs) (x ∷ xs) = ap suc (length-overwrite bs xs)

-- Where the bytes fit, the buffer then holds them, followed by what it held behind them.
pub overwrite-append :
    (bs buf : List ℕ) → length bs ≤ length buf → overwrite bs buf ≡ bs ++ drop (length bs) buf
overwrite-append [] buf h = refl
overwrite-append (b ∷ bs) [] h = absurd (omega arith)
overwrite-append (b ∷ bs) (x ∷ xs) h = ap (◌∷◌ b) (overwrite-append bs xs (omega arith))

pub All-append {ℓ κ} :
    {A : Type ℓ} (P : A → Type κ) (xs ys : List A) → All P xs → All P ys → All P (xs ++ ys)
All-append P [] ys h k = k
All-append P (x ∷ xs) ys (h, hs) k = (h, All-append P xs ys hs k)
