-- ===== src/Pipeline/Triggering.antt =====
-- What the actions of the pipeline do to the table of runs: triggers.
use brigadir.Prelude.{List, if-elim, Bool, if◌then◌else◌}
use brigadir.Domain.{World, Run, Io, ◌>>=◌, bind-keeps, for_each, for_each-keeps, non_fatal}
use brigadir.Runs.Trigger.{TriggerInput, trigger}

-- An action that does to the table of runs only what triggers do.
abbrev pub OnlyTriggers : {A : Type 0} → Io A → Type 1
OnlyTriggers m =
    (P : List Run → Type 0)
    → ((input : TriggerInput) (v : World) → P v.runs → P (trigger input v).1.runs)
    → (v : World) → P v.runs
    → P (m v).1.runs

-- The property is closed under sequences, loops and branches.
pub bind-OnlyTriggers :
    {A B : Type 0} (m : Io A) (k : A → Io B)
    → OnlyTriggers m
    → ((a : A) → OnlyTriggers (k a))
    → OnlyTriggers (m >>= k)
bind-OnlyTriggers m k a b P triggered v p =
    bind-keeps (λ u. P u.runs) m k v (a P triggered v p) (λ x u q. b x P triggered u q)

pub for_each-OnlyTriggers :
    {A : Type 0} (f : A → Io Unit)
    → ((a : A) → OnlyTriggers (f a))
    → (xs : List A) → OnlyTriggers (for_each (λ a. non_fatal (f a)) xs)
for_each-OnlyTriggers f h xs P triggered v p =
    for_each-keeps (λ u. P u.runs) f (λ a u q. h a P triggered u q) xs v p

pub if-OnlyTriggers :
    {A : Type 0} (b : Bool) (m n : Io A)
    → OnlyTriggers m
    → OnlyTriggers n
    → OnlyTriggers (if b then m else n)
if-OnlyTriggers {A} b m n x y P triggered v p =
    if-elim {A = Io A} (λ k. P (k v).1.runs) b (λ _. x P triggered v p) (λ _. y P triggered v p)
