-- ===== src/Topology/Tests.antt =====
-- The loop over the paths at a concrete topology.
use virtio_drivers_windows.Base.{
  ℕ, ◌+◌, refl, none, some, [], ◌⊎◌, inl, inr, Status, unsuccessful, ltb, ◌==◌, if◌then◌else◌,
}
use virtio_drivers_windows.Topology.{Interface, Session, each_path}
use virtio_drivers_windows.Topology.Released.{Ends, Settled, each_path-Settled}

-- The paths 1, 2 and 3.
abbrev three_paths : Interface
three_paths = record {
  World = ℕ;
  acquire_path = λ w source target. (inr none, w);
  acquire_first = λ w. (inr (some 1), w);
  acquire_next = λ w p. (inr (if ltb p 3 then some (p + 1) else none), w);
  release = λ w p. (inr tt, w);
}

-- The second path makes the body fail.
abbrev fails_at_two : ℕ → ℕ → (Status ⊎ Unit {0}) × ℕ
fails_at_two w p = (if p == 2 then inl unsuccessful else inr tt, w)

abbrev fresh_session : Session three_paths
fresh_session = record { world = 0; events = []; current = none }

each_path-Settled_example :
    Ends
      (λ ended t. Settled three_paths t)
      (λ t. Settled three_paths t)
      (each_path three_paths fails_at_two 5 fresh_session)
each_path-Settled_example =
    each_path-Settled three_paths fails_at_two 5 fresh_session refl (λ p. refl)
