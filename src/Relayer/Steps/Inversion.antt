-- ===== src/Relayer/Steps/Inversion.antt =====
-- What a step that went on tells of its parts.
use solnado_cash.Base.{ℕ, ◌≤◌, ◌≡◌, refl, ap, Bool, true, false, Option, none, some, arith, ltb}
use solnado_cash.Base.Chain.{Reply, reply, throw}
use solnado_cash.Relayer.Response.{Refusal}
use solnado_cash.Relayer.Steps.{Step, go, answer, raise, ◌>>=◌, unless, awaited, ok_or}

pub not_less : (a b : ℕ) → ltb a b ≡ false → b ≤ a
not_less a b h = ground arith

pub go-injective {ℓ} : {A : Type ℓ} (a b : A) → go a ≡ go b → a ≡ b
go-injective a b h = cc h

pub bind_inv {ℓ κ} :
    {A : Type ℓ} {B : Type κ} (m : Step A) (f : A → Step B) (b : B)
    → (m >>= f) ≡ go b
    → (a : A) × (m ≡ go a) × (f a ≡ go b)
bind_inv (go a) f b h = (a, refl, h)
bind_inv (answer r) f b h = absurd (cc h)
bind_inv (raise e) f b h = absurd (cc h)

pub unless_inv : (b : Bool) (r : Refusal) (u : Unit) → unless b r ≡ go u → b ≡ false
unless_inv true r u h = absurd (cc h)
unless_inv false r u h = refl

pub awaited_inv {ℓ} : {A : Type ℓ} (m : Reply A) (a : A) → awaited m ≡ go a → m ≡ reply a
awaited_inv (reply x) a h = ap reply (go-injective x a h)
awaited_inv (throw e) a h = absurd (cc h)

pub ok_or_inv {ℓ} :
    {A : Type ℓ} (m : Option A) (r : Refusal) (a : A) → ok_or m r ≡ go a → m ≡ some a
ok_or_inv none r a h = absurd (cc h)
ok_or_inv (some x) r a h = ap some (go-injective x a h)
