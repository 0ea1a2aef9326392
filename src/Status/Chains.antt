-- ===== src/Status/Chains.antt =====
-- Fallible calls in a chain: what follows from the success of the whole.
use libsqli.Prelude.{Bool, true, false, ◌≡◌, refl}
use libsqli.Status.{Status, Result, done, fail, ◌>>=◌, ◌>>◌, reject_if}

-- Both parts of a chain that ends with SQLI_OK do so.
pub >>-done :
    {B : Type 0} (m : Result (Unit {0})) (k : Result B) (b : B)
    → (m >> k) ≡ done b
    → (m ≡ done tt) × (k ≡ done b)
>>-done (done tt) k b h = (refl, h)
>>-done (fail s) k b h = cc

pub >>=-done :
    {A B : Type 0} (m : Result A) (k : A → Result B) (b : B)
    → (m >>= k) ≡ done b
    → (a : A) × (m ≡ done a) × (k a ≡ done b)
>>=-done (done a) k b h = (a, refl, h)
>>=-done (fail s) k b h = cc

-- What is not refused.
pub reject_if-false : (b : Bool) (s : Status) → reject_if b s ≡ done tt → b ≡ false
reject_if-false true s h = cc
reject_if-false false s h = refl

pub done_same : {A : Type 0} (a b : A) → done a ≡ done b → a ≡ b
done_same a b h = cc
