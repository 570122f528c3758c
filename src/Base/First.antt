-- ===== src/Base/First.antt =====
-- What is found first: in what stands before, or else in what stands after.
use verifierloop.Base.{◌≡◌, Option, none, some, refl}

abbrev pub or_first {ℓ} : {A : Type ℓ} → Option A → Option A → Option A
or_first none b = b
or_first (some x) b = some x

pub or_first-none {ℓ} : {A : Type ℓ} (a : Option A) → or_first a none ≡ a
or_first-none none = refl
or_first-none (some x) = refl

pub or_first_assoc {ℓ} :
    {A : Type ℓ} (a b c : Option A) → or_first (or_first a b) c ≡ or_first a (or_first b c)
or_first_assoc none b c = refl
or_first_assoc (some x) b c = refl
