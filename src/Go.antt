-- ===== src/Go.antt =====
-- What a call in Go may do: return a value, panic, or go on for ever, as on a mutex that is held.
use yapr.Prelude.{String, ◌≡◌, refl, Option, none, some}
use yapr.Errcode.{Error}

pub data Panic : Type 0 where
  nil_dereference : Panic
  index_out_of_range : Panic
  bad_regexp : String → Panic
  store_not_registered store_already_registered not_initialized : Panic
  nil_map length_out_of_range : Panic
  raised : Error → Panic

pub data Go {ℓ} (A : Type ℓ) : Type ℓ where
  deadlock : Go A
  panic : Panic → Go A
  ok : A → Go A

-- A value that may be missing, where Go panics.
abbrev pub or_panic {ℓ} : {A : Type ℓ} → Option A → Panic → Go A
or_panic none p = panic p
or_panic (some a) p = ok a

-- One call after the other.
module _ {ℓ κ} {A : Type ℓ} {B : Type κ} where
  infixl 5 ◌>>=◌
  abbrev pub ◌>>=◌ : Go A → (A → Go B) → Go B
  deadlock >>= next = deadlock
  panic p >>= next = panic p
  ok a >>= next = next a

pub ok_injective {ℓ} : {A : Type ℓ} {a b : A} → ok a ≡ ok b → a ≡ b
ok_injective h = cc

pub >>=_assoc {ℓ κ μ} :
    {A : Type ℓ} {B : Type κ} {C : Type μ} (m : Go A) (f : A → Go B) (g : B → Go C)
    → ((m >>= f) >>= g) ≡ (m >>= λ a. f a >>= g)
>>=_assoc (ok a) f g = refl
>>=_assoc (panic p) f g = refl
>>=_assoc deadlock f g = refl

-- Inversion of a chain that returned.
pub >>=-eq-ok {ℓ κ} :
    {A : Type ℓ} {B : Type κ} (call : Go A) (next : A → Go B) {result : B}
    → (call >>= next) ≡ ok result
    → (value : A) × (call ≡ ok value) × (next value ≡ ok result)
>>=-eq-ok deadlock next returned = cc
>>=-eq-ok (panic p) next returned = cc
>>=-eq-ok (ok value) next returned = (value, refl, returned)

pub or_panic-eq-ok {ℓ} :
    {A : Type ℓ} (o : Option A) (p : Panic) {a : A} → or_panic o p ≡ ok a → o ≡ some a
or_panic-eq-ok none p h = cc
or_panic-eq-ok (some b) p h = cc
