-- ===== src/Base/Results.antt =====
-- What holds of every result of a step that may abort.
use mathlib.Core.Option.{Option, none, some}
use tpe_protos_g.Base.Tests.{◌>>=◌}

-- Where there is a result, it has the property.
abbrev pub Every : {A : Type 0} → (A → Type 0) → Option A → Type 0
Every P none = Unit {0}
Every P (some a) = P a

pub bind-Every :
    {A B : Type 0} (P : A → Type 0) (Q : B → Type 0) (m : Option A) (f : A → Option B)
    → Every P m
    → ((a : A) → P a → Every Q (f a))
    → Every Q (m >>= f)
bind-Every P Q none f h g = tt
bind-Every P Q (some a) f h g = g a h

-- a step of which nothing is used
pub any-Every :
    {A B : Type 0} (Q : B → Type 0) (m : Option A) (f : A → Option B)
    → ((a : A) → Every Q (f a))
    → Every Q (m >>= f)
any-Every Q none f g = tt
any-Every Q (some a) f g = g a

pub imp-Every :
    {A : Type 0} (P Q : A → Type 0) (m : Option A) → Every P m → ((a : A) → P a → Q a) → Every Q m
imp-Every P Q none h g = tt
imp-Every P Q (some a) h g = g a h
