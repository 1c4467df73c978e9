-- ===== src/Devices/Blits.antt =====
-- The context of a device that blits go to.
use virtio_drivers_windows.Base.{
  ℕ, ◌/◌, ◌%◌, Bool, true, false, Bool-cases, Option, none, some, List, ◌≡◌, refl, ◌==◌, inl, inr,
  if◌then◌else◌,
}
use virtio_drivers_windows.Requests.{State, Host}
use virtio_drivers_windows.Requests.Monad.{Run, returned, failed, panicked, Action, pure}
use virtio_drivers_windows.Requests.Leaving.{
  Each, Leaves, Leaves-map, after, after-Each, Returns, Returns-then,
}
use virtio_drivers_windows.Requests.Contexts.{
  context_create, CapsetId, virgl, virgl2, gfxstream, venus, cross_domain, drm,
}
use virtio_drivers_windows.Requests.Capsets.{capset_mask}
use virtio_drivers_windows.Devices.{
  Context3d, Device, Opened, is_virgl, has_shadow, context_internal, context_virgl, init_context,
  init_with, put_blit, try_new_context, virgl_beside,
}

-- The capset and the two names of a context that is asked for.
abbrev pub Init : Type 0
Init = CapsetId × List ℕ × List ℕ

abbrev pub new_device : Device
new_device = record { main_context = none; virgl_blit_context = none; query_buffer = none }

abbrev pub Speaks : (CapsetId → Bool) → Option Context3d → Type 0
Speaks f none = Unit {0}
Speaks f (some c) = f c.capset ≡ true

abbrev pub is_supported : ℕ → CapsetId → Bool
is_supported supported c = supported / capset_mask c % 2 == 1

-- The capsets of the contexts of a device.
pub record IsValid (supported : ℕ) (d : Device) : Type 0 where
  pub main : Speaks (is_supported supported) d.main_context
  pub blit : Speaks is_virgl d.virgl_blit_context

-- Where blits go, if there is a context for them.
abbrev pub Virgl : Option (ℕ × CapsetId) → Type 0
Virgl none = Unit {0}
Virgl (some c) = is_virgl (c.1) ≡ true

-- Where blits go after a main context of such a capset was made.
abbrev pub Blitted : CapsetId → ℕ → Option (ℕ × CapsetId) → Type 0
Blitted virgl i to = to ≡ some (i, virgl)
Blitted virgl2 i to = to ≡ some (i, virgl2)
Blitted gfxstream i to = Unit {0}
Blitted venus i to = (j : ℕ) × (k : CapsetId) × (to ≡ some (j, k))
Blitted cross_domain i to = Unit {0}
Blitted drm i to = (j : ℕ) × (k : CapsetId) × (to ≡ some (j, k))

abbrev pub Made : CapsetId → Device → Type 0
Made c d = (i : ℕ) × (context_internal d false ≡ some (i, c)) × Blitted c i (context_virgl d)

beside-Virgl : (m b : Option Context3d) → Speaks is_virgl b → Virgl (virgl_beside b m)
beside-Virgl none b q = tt
beside-Virgl (some m) none q = elim (Bool-cases (is_virgl m.capset)) [
  | inl e ↦ rw e e
  | inr e ↦ rw e tt
]
beside-Virgl (some m) (some b) q = elim (Bool-cases (is_virgl m.capset)) [
  | inl e ↦ rw e e
  | inr e ↦ rw e q
]

blit_to-Virgl : (supported : ℕ) (d : Device) → IsValid supported d → Virgl (context_virgl d)
unfolding context_virgl
blit_to-Virgl supported d v = beside-Virgl d.main_context d.virgl_blit_context v.blit

module _ (h : Host) (supported : ℕ) where
  abbrev pub Valid : Opened h → Type 0
  Valid t = IsValid supported t.device

  abbrev HasCapset : CapsetId → Context3d → Type 0
  HasCapset c x = x.capset ≡ c

  try_new_context-HasCapset :
      (c : CapsetId) (name : List ℕ) (s : State h.env)
      → Returns (HasCapset c) (try_new_context h c name s)
  try_new_context-HasCapset c name s =
      Returns-then (HasCapset c) (context_create h c name s)
        (λ id. pure (record { id = id; capset = c })) λ id t. refl

  abbrev pub Inited : CapsetId → Run (Opened h) (Unit {0}) → Type 0
  Inited c r = Leaves (λ u t. Valid t × Made c t.device) Valid r

  -- A main context of a capset that has another one beside it for blits.
  put_blit-Inited :
      (c k : CapsetId) (r : Run (State h.env) Context3d) (x : Context3d) (d : Device)
      → Returns (HasCapset k) r
      → is_virgl k ≡ true
      → x.capset ≡ c
      → has_shadow c ≡ true
      → IsValid supported (record d { main_context = some x })
      → Inited c (put_blit h r (record d { main_context = some x }))
  unfolding context_internal context_virgl
  put_blit-Inited virgl k r x d q a e w v = absurd (cc)
  put_blit-Inited virgl2 k r x d q a e w v = absurd (cc)
  put_blit-Inited gfxstream k r x d q a e w v = absurd (cc)
  put_blit-Inited cross_domain k r x d q a e w v = absurd (cc)
  put_blit-Inited venus k (returned y s) x d q a e w v =
      (record { main = v.main; blit = rw q a }, (x.id, rw e refl, (y.id, y.capset, rw e refl)))
  put_blit-Inited venus k (failed z s) x d q a e w v = v
  put_blit-Inited venus k panicked x d q a e w v = tt
  put_blit-Inited drm k (returned y s) x d q a e w v =
      (record { main = v.main; blit = rw q a }, (x.id, rw e refl, (y.id, y.capset, rw e refl)))
  put_blit-Inited drm k (failed z s) x d q a e w v = v
  put_blit-Inited drm k panicked x d q a e w v = tt

  -- The capset of a context for blits.
  shadow_capset-is_virgl : (b : Bool) → is_virgl (if b then virgl2 else virgl) ≡ true
  shadow_capset-is_virgl true = refl
  shadow_capset-is_virgl false = refl

  init_with-Inited :
      (c : CapsetId) (shadow_name : List ℕ) (d : Device) (r : Run (State h.env) Context3d)
      → Returns (HasCapset c) r
      → is_supported supported c ≡ true
      → IsValid supported d
      → Inited c (init_with h supported c shadow_name d r)
  unfolding context_internal context_virgl
  init_with-Inited c shadow_name d (failed e s) q a v = v
  init_with-Inited c shadow_name d panicked q a v = tt
  init_with-Inited virgl shadow_name d (returned x s) q a v =
      (record { main = rw q a; blit = v.blit }, (x.id, rw q refl, rw q refl))
  init_with-Inited virgl2 shadow_name d (returned x s) q a v =
      (record { main = rw q a; blit = v.blit }, (x.id, rw q refl, rw q refl))
  init_with-Inited gfxstream shadow_name d (returned x s) q a v =
      (record { main = rw q a; blit = v.blit }, (x.id, rw q refl, tt))
  init_with-Inited cross_domain shadow_name d (returned x s) q a v =
      (record { main = rw q a; blit = v.blit }, (x.id, rw q refl, tt))
  init_with-Inited venus shadow_name d (returned x s) q a v =
      let k = if is_supported supported virgl2 then virgl2 else virgl in
      put_blit-Inited venus k (try_new_context h k shadow_name s) x d
        (try_new_context-HasCapset k shadow_name s)
        (shadow_capset-is_virgl (is_supported supported virgl2)) q refl
        (record { main = rw q a; blit = v.blit })
  init_with-Inited drm shadow_name d (returned x s) q a v =
      let k = if is_supported supported virgl2 then virgl2 else virgl in
      put_blit-Inited drm k (try_new_context h k shadow_name s) x d
        (try_new_context-HasCapset k shadow_name s)
        (shadow_capset-is_virgl (is_supported supported virgl2)) q refl
        (record { main = rw q a; blit = v.blit })

  unfoldable pub run_init : Init → Action (Opened h) (Unit {0})
  unfolding init_context
  run_init (c, name, shadow_name) = init_context h supported c name shadow_name

  run_init-Inited : (i : Init) (s : Opened h) → Valid s → Inited (i.0) (run_init i s)
  unfolding run_init init_context
  run_init-Inited (c, name, shadow_name) s v = elim (Bool-cases (is_supported supported c)) [
    | inl e ↦ rw e (
        init_with-Inited c shadow_name s.device (try_new_context h c name s.chan)
          (try_new_context-HasCapset c name s.chan) e v)
    | inr e ↦ rw e v
  ]

-- A new device makes contexts, whatever capsets are asked for, whatever the device answers and
-- whichever calls fail. After them its main context is of a supported capset, and the context that
-- blits go to, if there is one, is of a virgl capset. A further call that returns leaves it so, with a
-- main context of the capset that was asked for: blits go to that context if it is of a virgl capset,
-- and to some context if it is of the capset venus or drm. One that fails leaves it so too.
pub run_init-Virgl :
    (h : Host) (supported : ℕ) (chan : State h.env) (inits : List Init) (i : Init)
    → Each
        (λ t.
          IsValid supported t.device
          × Virgl (context_virgl t.device)
          × Inited h supported (i.0) (run_init h supported i t))
        (after (run_init h supported) inits (record { chan = chan; device = new_device }))
run_init-Virgl h supported chan inits i =
    after-Each (Valid h supported)
      (λ t.
        IsValid supported t.device
        × Virgl (context_virgl t.device)
        × Inited h supported (i.0) (run_init h supported i t))
      (run_init h supported)
      (λ j s v.
        Leaves-map (λ u t. Valid h supported t × Made (j.0) t.device) (λ u t. Valid h supported t)
          (Valid h supported) (Valid h supported) (run_init h supported j s)
          (run_init-Inited h supported j s v) (λ u t p. p.0) (λ t p. p))
      (λ t v. (v, blit_to-Virgl supported t.device v, run_init-Inited h supported i t v)) inits
      (record { chan = chan; device = new_device }) (record { main = tt; blit = tt })
