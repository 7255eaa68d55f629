-- ===== src/CoroHttp/Task/Leaves.antt =====
-- What holds of the state that a coroutine leaves, however it ends.
use ccnet_utilities.Common.{Bool, true, false, if◌then◌else◌}
use ccnet_utilities.CoroHttp.Task.{Outcome, returned, thrown, fault, starved, co_await, followed_by}

-- The state that an outcome leaves satisfies `p`.
abbrev pub Leaves {ℓ κ} : {S : Type ℓ} {A : Type κ} → (S → Type 0) → Outcome S A → Type 0
Leaves p (returned a s) = p s
Leaves p (thrown e s) = p s
Leaves p fault = Unit {0}
Leaves p starved = Unit {0}

pub co_await-Leaves {ℓ κ μ ν} :
    {S : Type ℓ} {A : Type κ} {T : Type μ} {B : Type ν} (p : S → Type 0) (q : T → Type 0) (a : A)
    (o : Outcome S A) (k : A → S → Outcome T B)
    → Leaves p o
    → ((a : A) (s : S) → p s → Leaves q (k a s))
    → Leaves q (co_await a o k)
co_await-Leaves p q a (returned b s) k h next = next b s h
co_await-Leaves p q a (thrown e s) k h next = next a s h
co_await-Leaves p q a fault k h next = tt
co_await-Leaves p q a starved k h next = tt

pub followed_by-Leaves {ℓ κ μ ν} :
    {S : Type ℓ} {A : Type κ} {T : Type μ} {B : Type ν} (p : S → Type 0) (q : T → Type 0)
    (f : S → T) (o : Outcome S A) (k : A → S → Outcome T B)
    → Leaves p o
    → ((s : S) → p s → q (f s))
    → ((a : A) (s : S) → p s → Leaves q (k a s))
    → Leaves q (followed_by f o k)
followed_by-Leaves p q f (returned b s) k h out next = next b s h
followed_by-Leaves p q f (thrown e s) k h out next = out s h
followed_by-Leaves p q f fault k h out next = tt
followed_by-Leaves p q f starved k h out next = tt

pub if-Leaves {ℓ κ} :
    {S : Type ℓ} {A : Type κ} (p : S → Type 0) (b : Bool) (x y : Outcome S A)
    → Leaves p x
    → Leaves p y
    → Leaves p (if b then x else y)
if-Leaves p true x y hx hy = hx
if-Leaves p false x y hx hy = hy
