-- ===== src/CoroHttp/Task.antt =====
-- How a coroutine of platform/coro_platform/Task.hpp ends, and what `co_await` gives its caller.
-- The state is what outlives the coroutine: the socket, and what it was given by reference.
pub mod Leaves
use ccnet_utilities.Http.Exceptions.{HttpException}

pub data Outcome {ℓ κ} (S : Type ℓ) (A : Type κ) : Type (ℓ ⊔ κ) where
  -- `co_return a`
  returned : A → S → Outcome S A
  -- an exception that the body does not catch
  thrown : HttpException → S → Outcome S A
  -- a write behind the end of an array
  fault : Outcome S A
  -- the fuel of the model ran out
  starved : Outcome S A

-- `co_await task`: `unhandled_exception` does nothing and `final_suspend` resumes the caller, so
-- that `await_resume` gives `cached_value`, which still is what the promise began with.
abbrev pub await {ℓ κ λ'} :
    {S : Type ℓ} {A : Type κ} {R : Type λ'} → A → Outcome S A → (A → S → R) → R → R → R
await initial (returned a s) k f v = k a s
await initial (thrown e s) k f v = k initial s
await initial fault k f v = f
await initial starved k f v = v

-- The common use: what follows is a coroutine too.
abbrev pub co_await {ℓ κ μ ν} :
    {S : Type ℓ} {A : Type κ} {T : Type μ} {B : Type ν}
    → A
    → Outcome S A
    → (A → S → Outcome T B)
    → Outcome T B
co_await initial o k = await initial o k fault starved

-- A loop's outcome within one coroutine: an exception ends the coroutine, whose state is `f s`.
abbrev pub followed_by {ℓ κ μ ν} :
    {S : Type ℓ} {A : Type κ} {T : Type μ} {B : Type ν}
    → (S → T)
    → Outcome S A
    → (A → S → Outcome T B)
    → Outcome T B
followed_by f (returned a s) k = k a s
followed_by f (thrown e s) k = thrown e (f s)
followed_by f fault k = fault
followed_by f starved k = starved
