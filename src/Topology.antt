-- ===== src/Topology.antt =====
-- The present paths of a topology, in gpu-wddm/src/vidpn.rs: each path that the operating system
-- hands out is acquired and has to be released. `VidPnPathInfoIter` and `VidPnPathInfoGuard` release
-- theirs when they are dropped. The calls of the operating system are parameters.
pub mod Released
mod Tests
use virtio_drivers_windows.Base.{
  ℕ, zero, suc, Bool, true, false, Option, none, some, List, ◌∷◌, ◌⊎◌, inl, inr, Status,
  graphics_no_more_elements_in_dataset, graphics_invalid_vidpn_topology,
}
use virtio_drivers_windows.Requests.Monad.{
  Run, returned, failed, panicked, Action, pure, fail, ◌>>=◌, ◌>>◌, attempt, or_drop, modify,
}

-- `DXGK_VIDPNTOPOLOGY_INTERFACE`: the status of a call, or the pointer that it leaves, which can be
-- null. A path is the number that stands for its pointer.
pub record Interface : Type 1 where
  pub World : Type 0
  pub acquire_path : World → ℕ → ℕ → (Status ⊎ Option ℕ) × World
  pub acquire_first : World → (Status ⊎ Option ℕ) × World
  pub acquire_next : World → ℕ → (Status ⊎ Option ℕ) × World
  pub release : World → ℕ → (Status ⊎ Unit {0}) × World

pub data Event : Type 0 where
  acquired : ℕ → Event
  released : ℕ → Event

module _ (o : Interface) where
  -- `current` is that of the iterator; the events are the newest first.
  pub record Session : Type 0 where
    pub world : o.World
    pub events : List Event
    pub current : Option ℕ

  abbrev pub note_acquired : (Status ⊎ Option ℕ) × o.World → Action Session (Option ℕ)
  note_acquired (inl e, w) s = failed e (record s { world = w })
  note_acquired (inr none, w) s = returned none (record s { world = w })
  note_acquired (inr (some path), w) s =
      returned (some path) (record s { world = w; events = acquired path ∷ s.events })

  unfoldable pub acquire_path_info : ℕ → ℕ → Action Session (Option ℕ)
  acquire_path_info source target s = note_acquired (o.acquire_path s.world source target) s

  -- `unwrap` of the pointer.
  abbrev pub unwrapped : Option ℕ → Action Session ℕ
  unwrapped (some path) s = returned path s
  unwrapped none s = panicked

  unfoldable pub acquire_first_path_info : Action Session ℕ
  acquire_first_path_info = (λ s. note_acquired (o.acquire_first s.world) s) >>= unwrapped

  abbrev pub unless_no_more : Run Session (Option ℕ) → Run Session (Option ℕ)
  unless_no_more (failed graphics_no_more_elements_in_dataset s) = returned none s
  unless_no_more r = r

  unfoldable pub acquire_next_path_info : ℕ → Action Session (Option ℕ)
  acquire_next_path_info previous s =
      unless_no_more (note_acquired (o.acquire_next s.world previous) s)

  -- The status of the call only goes to the log.
  unfoldable pub release_path_info : ℕ → Action Session (Unit {0})
  release_path_info path =
      modify
        (λ s. record s { world = (o.release s.world path).1; events = released path ∷ s.events })

  abbrev pub set_current : Option ℕ → Action Session (Unit {0})
  set_current path = modify (λ s. record s { current = path })

  -- `VidPnPathInfoIter::new`.
  unfoldable pub iter_new : Action Session (Unit {0})
  unfolding acquire_first_path_info
  iter_new = acquire_first_path_info >>= λ first. set_current (some first)

  abbrev pub next_found : ℕ → Status ⊎ Option ℕ → Action Session (Option ℕ)
  next_found current (inr (some next)) = set_current (some next) >> pure (some current)
  next_found current (inr none) = pure (some current)
  next_found current (inl e) = release_path_info current >> fail e

  abbrev pub next_after : Option ℕ → Action Session (Option ℕ)
  next_after none = pure none
  next_after (some current) =
      set_current none >> (attempt (acquire_next_path_info current) >>= next_found current)

  -- `VidPnPathInfoIter::try_next`: the path of the guard.
  unfoldable pub try_next : Action Session (Option ℕ)
  unfolding acquire_next_path_info release_path_info
  try_next s = next_after s.current s

  abbrev pub release_taken : Option ℕ → Action Session (Unit {0})
  release_taken none = pure tt
  release_taken (some path) = release_path_info path

  -- `VidPnPathInfoIter::drop` and `VidPnPathInfoGuard::drop`.
  unfoldable pub drop_iter : Action Session (Unit {0})
  unfolding release_path_info
  drop_iter s = (set_current none >> release_taken s.current) s

  unfoldable pub drop_guard : Option ℕ → Action Session (Unit {0})
  unfolding release_path_info
  drop_guard = release_taken

  -- `VidPnPathInfoGuard::acquire`, `acquire_first` and `acquire_next`: the path of the guard.
  abbrev pub some_path : Option ℕ → Action Session (Option ℕ)
  some_path (some path) = pure (some path)
  some_path none = fail graphics_invalid_vidpn_topology

  unfoldable pub guard_acquire : ℕ → ℕ → Action Session (Option ℕ)
  unfolding acquire_path_info
  guard_acquire source target = acquire_path_info source target >>= some_path

  unfoldable pub guard_acquire_first : Action Session (Option ℕ)
  unfolding acquire_first_path_info
  guard_acquire_first = acquire_first_path_info >>= λ first. pure (some first)

  unfoldable pub guard_acquire_next : ℕ → Action Session (Option ℕ)
  unfolding acquire_next_path_info
  guard_acquire_next current = acquire_next_path_info current

  -- The loop over the paths, as in `Adapter::enum_cofunc_modality`, for at most so many turns. `body`
  -- is what a turn does with its path; where it fails, the guard and the iterator are dropped.
  module _ (body : o.World → ℕ → (Status ⊎ Unit {0}) × o.World) where
    abbrev pub body_done : (Status ⊎ Unit {0}) × o.World → Action Session (Unit {0})
    body_done (inl e, w) s = failed e (record s { world = w })
    body_done (inr u, w) s = returned u (record s { world = w })

    abbrev pub turn : ℕ → Action Session (Unit {0})
    turn path s = body_done (body s.world path) s

    -- A turn with the path that was found, and the turns after it.
    abbrev pub turn_with : Action Session Bool → Option ℕ → Action Session Bool
    turn_with rest none = pure true
    turn_with rest (some path) =
        or_drop (turn path) (drop_guard (some path)) >> (drop_guard (some path) >> rest)

    -- Whether the loop has ended.
    unfoldable pub walk : ℕ → Action Session Bool
    unfolding try_next drop_guard
    walk zero = pure false
    walk (suc n) = try_next >>= turn_with (walk n)

    unfoldable pub each_path : ℕ → Action Session Bool
    unfolding iter_new walk drop_iter
    each_path n = iter_new >> (or_drop (walk n) drop_iter >>= λ ended. drop_iter >> pure ended)
