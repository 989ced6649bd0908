-- ===== src/CcAlg/Round/Whenever.antt =====
-- Steps that may have no result, and what their results satisfy.
use graph_zeppelin.Base.{◌≡◌, refl, Option, none, some}
use graph_zeppelin.Dsu.{◌>>=◌}

-- The result, if there is one, satisfies the predicate.
abbrev pub Whenever {ℓ ℓ'} : {A : Type ℓ} → (A → Type ℓ') → Option A → Type ℓ'
Whenever P none = Unit
Whenever P (some x) = P x

pub Whenever-bind {ℓ} :
    {A B : Type 0} (P : A → Type ℓ) (Q : B → Type ℓ) (o : Option A) (f : A → Option B)
    → Whenever P o
    → ((x : A) → P x → Whenever Q (f x))
    → Whenever Q (o >>= f)
Whenever-bind P Q none f w k = tt
Whenever-bind P Q (some x) f w k = k x w

pub bind_some :
    {A B : Type 0} (o : Option A) (f : A → Option B) (y : B)
    → (o >>= f) ≡ some y
    → (x : A) × (o ≡ some x) × (f x ≡ some y)
bind_some none f y e = absurd cc
bind_some (some x) f y e = (x, refl, e)

pub Whenever-map {ℓ} :
    {A : Type 0} (P Q : A → Type ℓ) (o : Option A)
    → ((x : A) → P x → Q x)
    → Whenever P o
    → Whenever Q o
Whenever-map P Q none k w = tt
Whenever-map P Q (some x) k w = k x w

-- A step of which no more is known than its result.
pub Whenever-eq {ℓ} :
    {A B : Type 0} (Q : B → Type ℓ) (o : Option A) (f : A → Option B)
    → ((x : A) → o ≡ some x → Whenever Q (f x))
    → Whenever Q (o >>= f)
Whenever-eq Q none f k = tt
Whenever-eq Q (some x) f k = k x refl
