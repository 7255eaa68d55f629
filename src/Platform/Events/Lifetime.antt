-- ===== src/Platform/Events/Lifetime.antt =====
-- The constructor and the destructor of `IOEventManager`, with the descriptor of its epoll instance.
use ccnet_utilities.Common.{ℕ, ◌≡◌, refl, ◌⊎◌, inl, inr, [], text}
use ccnet_utilities.Common.{ℤ, pos, negsuc}
use ccnet_utilities.Platform.Events.{Epoll, Manager}
use ccnet_utilities.Platform.Exceptions.{IoManagerException, epoll_create_error}

-- The calls on the instance itself: `epoll_create1(EPOLL_CLOEXEC)`, which is negative where it fails,
-- `errno` behind it, and `close`.
pub record Instances (os : Epoll) : Type 0 where
  pub epoll_create1 : os.World → ℤ × os.World
  pub last_errno : os.World → ℕ
  pub close : os.World → ℕ → os.World

pub record IoEventManager (os : Epoll) : Type 0 where
  pub epoll_fd : ℤ
  pub manager : Manager os

module _ (os : Epoll) (calls : Instances os) where
  abbrev create_error : os.World → IoManagerException
  create_error w = record {
    kind = epoll_create_error;
    message = text "epoll_create1 failed";
    native_error_code = pos (calls.last_errno w);
  }

  abbrev pub opened : ℤ → os.World → (IoManagerException × os.World) ⊎ IoEventManager os
  opened (pos n) w = inr (record { epoll_fd = pos n; manager = record { world = w; table = [] } })
  opened (negsuc n) w = inl (create_error w, w)

  -- `IOEventManager()`: what it throws, or the manager.
  unfoldable pub construct : os.World → (IoManagerException × os.World) ⊎ IoEventManager os
  construct w = opened (calls.epoll_create1 w).0 (calls.epoll_create1 w).1

  abbrev pub close_valid : ℤ → os.World → os.World
  close_valid (pos n) w = calls.close w n
  close_valid (negsuc n) w = w

  -- `~IOEventManager()`.
  unfoldable pub destroy : IoEventManager os → os.World
  destroy m = close_valid m.epoll_fd m.manager.world

  -- A manager that could be constructed watches nothing, and its destructor closes what the
  -- constructor has opened.
  destroy-construct :
      (w : os.World) (m : IoEventManager os)
      → construct w ≡ inr m
      → (n : ℕ) × ((calls.epoll_create1 w).0 ≡ pos n)
        × (m.manager.table ≡ [])
        × (destroy m ≡ calls.close (calls.epoll_create1 w).1 n)
  unfolding construct destroy
  destroy-construct w m e = go (calls.epoll_create1 w).0 refl e
    where
      go :
          (fd : ℤ)
          → (calls.epoll_create1 w).0 ≡ fd
          → opened fd (calls.epoll_create1 w).1 ≡ inr m
          → (n : ℕ) × ((calls.epoll_create1 w).0 ≡ pos n)
            × (m.manager.table ≡ [])
            × (destroy m ≡ calls.close (calls.epoll_create1 w).1 n)
      go (pos n) f e = (n, f, cc, cc)
      go (negsuc n) f e = absurd cc
