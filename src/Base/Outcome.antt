-- ===== src/Base/Outcome.antt =====
-- A computation that returns a value or throws one of the model's own errors.
use solnado_cash.Base.{◌≡◌, refl, ap, ◌≢◌, ◌⊎◌, inl, inr, Option, none, some, List, [], ◌∷◌}

pub data Outcome {ℓ κ} (E : Type ℓ) (A : Type κ) : Type (ℓ ⊔ κ) where
  ok : A → Outcome E A
  err : E → Outcome E A

infixl 5 ◌>>=◌
abbrev pub ◌>>=◌ {ℓ κ μ} :
    {E : Type ℓ} {A : Type κ} {B : Type μ} → Outcome E A → (A → Outcome E B) → Outcome E B
ok a >>= f = f a
err e >>= f = err e

-- The error of a library call, as the caller sees it.
abbrev pub from_option {ℓ κ} : {E : Type ℓ} {A : Type κ} → E → Option A → Outcome E A
from_option e none = err e
from_option e (some a) = ok a

-- The results of a call on each item, in order; the first error ends it.
unfoldable pub traverse {ℓ κ μ} :
    {E : Type ℓ} {A : Type κ} {B : Type μ} → (A → Outcome E B) → List A → Outcome E (List B)
traverse f [] = ok []
traverse f (x ∷ xs) = do y ← f x; ys ← traverse f xs; ok (y ∷ ys)

pub Outcome-cases {ℓ κ} :
    {E : Type ℓ} {A : Type κ} (r : Outcome E A) → ((a : A) × (r ≡ ok a)) ⊎ ((e : E) × (r ≡ err e))
Outcome-cases (ok a) = inl (a, refl)
Outcome-cases (err e) = inr (e, refl)

-- A step that succeeded: the first part did, and the rest did on its value.
pub bind_inv {ℓ κ μ} :
    {E : Type ℓ} {A : Type κ} {B : Type μ} (m : Outcome E A) (f : A → Outcome E B) (b : B)
    → (m >>= f) ≡ ok b
    → (a : A) × (m ≡ ok a) × (f a ≡ ok b)
bind_inv (ok a) f b h = (a, refl, h)
bind_inv (err e) f b h = cc

pub from_option_inv {ℓ κ} :
    {E : Type ℓ} {A : Type κ} (e : E) (o : Option A) (a : A) → from_option e o ≡ ok a → o ≡ some a
from_option_inv e none a h = cc
from_option_inv e (some b) a h = cc

pub ok-injective {ℓ κ} :
    {E : Type ℓ} {A : Type κ} {a b : A} → ◌≡◌ {A = Outcome E A} (ok a) (ok b) → a ≡ b
ok-injective h = cc

-- An error is no result.
pub err-ok {ℓ κ μ} :
    {E : Type ℓ} {A : Type κ} {C : Type μ} {e : E} {a : A}
    → ◌≡◌ {A = Outcome E A} (err e) (ok a)
    → C
err-ok h = cc

pub err-injective {ℓ κ} :
    {E : Type ℓ} {A : Type κ} {d e : E} → ◌≡◌ {A = Outcome E A} (err d) (err e) → d ≡ e
err-injective h = cc

-- An error that neither part throws is not thrown.
pub bind-ne {ℓ κ μ} :
    {E : Type ℓ} {A : Type κ} {B : Type μ} (m : Outcome E A) (f : A → Outcome E B) (e : E)
    → m ≢ err e
    → ((a : A) → f a ≢ err e)
    → (m >>= f) ≢ err e
bind-ne (ok a) f e h k p = k a p
bind-ne (err d) f e h k p = h (ap err (err-injective p))
