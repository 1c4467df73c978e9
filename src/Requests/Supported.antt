-- ===== src/Requests/Supported.antt =====
-- What the driver knows of the capsets that the device reports.
use virtio_drivers_windows.Base.{
  ◌%◌, ℕ, ◌<◌, ◌≡◌, ◌≢◌, refl, none, some, get_elem?, arith, Bool-cases, inl, inr, ◌⊎◌, length,
  replicate, if◌then◌else◌, Status, unsuccessful, length-set, get_elem?-set_ne, ◌==◌, suc, zero,
  set, ◌∙◌, sym, ap,
}
use virtio_drivers_windows.Requests.Capsets.{
  CapsetInfo, capset_mask, union, Table, try_from_u32, enter, enter_all, get_capset_info,
  get_capset_infos,
}
use virtio_drivers_windows.Requests.Monad.{
  Run, returned, failed, panicked, caught, continue_with, ◌>>=◌, fail, pure,
}
use virtio_drivers_windows.Requests.Masks.{bit, union_lt, union_even, bit-union_self, bit-union_ne}
use virtio_drivers_windows.Requests.{State, Host}
use virtio_drivers_windows.Requests.Contexts.{
  CapsetId, capset_number, virgl, virgl2, gfxstream, venus, cross_domain, drm,
}

abbrev pub blank : CapsetInfo
blank = record { version = 0; size = 0 }

-- The mask has bits of the six capsets only; the table has 64 entries, and all but those of the capsets in the mask are blank.
pub record IsKnown (t : Table) : Type 0 where
  pub entries : length t.1 ≡ 64
  pub mask_lt : t.0 < 128
  pub mask_even : t.0 % 2 ≡ 0
  pub missing :
      (i : ℕ)
      → i < 64
      → ((c : CapsetId) → i ≡ capset_number c → bit t.0 c ≡ 0)
      → get_elem? t.1 i ≡ some blank

get_elem?-replicate : (n i : ℕ) → i < n → get_elem? (replicate n blank) i ≡ some blank
get_elem?-replicate zero i l = elim l [ ]
get_elem?-replicate (suc n) zero l = refl
get_elem?-replicate (suc n) (suc i) l = get_elem?-replicate n i (omega arith)

nothing-IsKnown : IsKnown (0, replicate 64 blank)
nothing-IsKnown = record {
  entries = refl;
  mask_lt = omega arith;
  mask_even = refl;
  missing = λ i l u. get_elem?-replicate 64 i l;
}

zero_or_one : (b : ℕ) → b ≡ 0 → b ≢ 1
zero_or_one b z = omega arith

set-IsKnown :
    (c : CapsetId) (info : CapsetInfo) (t : Table)
    → IsKnown t
    → IsKnown (union t.0 (capset_mask c), set t.1 (capset_number c) info)
set-IsKnown c info t k = record {
  entries = length-set t.1 (capset_number c) info ∙ k.entries;
  mask_lt = union_lt t.0 c k.mask_lt;
  mask_even = union_even t.0 c k.mask_even;
  missing = λ i l u.
      let ne : i ≢ capset_number c = λ e. zero_or_one _ (u c e) (bit-union_self t.0 c) in
      get_elem?-set_ne t.1 (capset_number c) i info (λ e. ne (sym e))
      ∙ k.missing i l
          (λ d e. sym (bit-union_ne t.0 c d (λ f. ne (e ∙ sym (ap capset_number f)))) ∙ u d e);
}

try_from_u32-cases : (v : ℕ) → (try_from_u32 v ≡ none) ⊎ ((c : CapsetId) × (v ≡ capset_number c))
try_from_u32-cases zero = inl refl
try_from_u32-cases (suc zero) = inr (virgl, refl)
try_from_u32-cases (suc (suc zero)) = inr (virgl2, refl)
try_from_u32-cases (suc (suc (suc zero))) = inr (gfxstream, refl)
try_from_u32-cases (suc (suc (suc (suc zero)))) = inr (venus, refl)
try_from_u32-cases (suc (suc (suc (suc (suc zero))))) = inr (cross_domain, refl)
try_from_u32-cases (suc (suc (suc (suc (suc (suc zero)))))) = inr (drm, refl)
try_from_u32-cases (suc (suc (suc (suc (suc (suc (suc v))))))) = inl (ground arith)

module _ (h : Host) where
  enter_found :
      (c : CapsetId) (info : CapsetInfo) (t : Table) (s : State h.env)
      → length t.1 ≡ 64
      → enter h (inr (capset_number c, info)) t s
        ≡ returned (union t.0 (capset_mask c), set t.1 (capset_number c) info) s
  unfolding enter
  enter_found virgl info t s l = rw l refl
  enter_found virgl2 info t s l = rw l refl
  enter_found gfxstream info t s l = rw l refl
  enter_found venus info t s l = rw l refl
  enter_found cross_domain info t s l = rw l refl
  enter_found drm info t s l = rw l refl

  enter-IsKnown :
      (x : Status ⊎ (ℕ × CapsetInfo)) (t : Table) (s : State h.env)
      → IsKnown t
      → (t' : Table) × (enter h x t s ≡ returned t' s) × IsKnown t'
  unfolding enter
  enter-IsKnown (inl e) t s k = (t, refl, k)
  enter-IsKnown (inr (id, info)) t s k = elim (try_from_u32-cases id) [
    | inl n ↦ (t, rw (n, enter) refl, k)
    | inr (c, e) ↦ (_, rw e (enter_found c info t s k.entries), set-IsKnown c info t k)
  ]

  abbrev pub Ends : {A : Type 0} → Run (State h.env) A → Type 0
  Ends (returned a s) = Unit {0}
  Ends (failed e s) = Unit {0}
  Ends panicked = ⊥

  -- The loop ends with a table, and neither fails nor panics.
  abbrev pub Listed : Run (State h.env) Table → Type 0
  Listed r = (t : Table) × (s : State h.env) × (r ≡ returned t s) × IsKnown t

  enter_all-step :
      (k i : ℕ) (t : Table) (r : Run (State h.env) (ℕ × CapsetInfo))
      → ((t' : Table) (s : State h.env) → IsKnown t' → Listed (enter_all h k (suc i) t' s))
      → Ends r
      → IsKnown t
      → Listed (continue_with (caught r) (λ x. enter h x t >>= enter_all h k (suc i)))
  enter_all-step k i t (returned a s) rest n v =
      let (t', e, v') = enter-IsKnown (inr a) t s v in rw e (rest t' s v')
  enter_all-step k i t (failed a s) rest n v =
      let (t', e, v') = enter-IsKnown (inl a) t s v in rw e (rest t' s v')
  enter_all-step k i t panicked rest n v = absurd n

  enter_all-Listed :
      (k i : ℕ) (t : Table) (s : State h.env)
      → ((j : ℕ) (s' : State h.env) → Ends (get_capset_info h j s'))
      → IsKnown t
      → Listed (enter_all h k i t s)
  unfolding enter_all
  enter_all-Listed zero i t s n v = (t, s, refl, v)
  enter_all-Listed (suc k) i t s n v =
      enter_all-step k i t (get_capset_info h i s)
        (λ t' s' v'. enter_all-Listed k (suc i) t' s' n v') (n i s) v

  -- What comes back: a table of the capsets in a mask with one at least, or the one status.
  abbrev pub Supported : Run (State h.env) Table → Type 0
  Supported (returned t s) = IsKnown t × (t.0 ≢ 0)
  Supported (failed e s) = e ≡ unsuccessful
  Supported panicked = ⊥

  supported :
      (t : Table) (s : State h.env)
      → IsKnown t
      → Supported ((if t.0 == 0 then fail unsuccessful else pure t) s)
  supported t s v = elim (Bool-cases (t.0 == 0)) [
    | inl z ↦ rw z refl
    | inr z ↦ rw z (v, ground arith)
  ]

  -- Where no request for a capset panics, the driver ends with a mask and a table of 64 entries, or
  -- fails with `unsuccessful`, whatever number of requests failed and whatever the device reported.
  -- The mask that it returns is not empty and has only bits of capsets that the driver knows, and
  -- every entry of the table that is not of a capset in the mask is blank.
  pub get_capset_infos-Supported :
      (n : ℕ) (s : State h.env)
      → ((j : ℕ) (s' : State h.env) → Ends (get_capset_info h j s'))
      → Supported (get_capset_infos h n s)
  unfolding get_capset_infos
  get_capset_infos-Supported n s q =
      let (t, s', e, v) = enter_all-Listed n 0 (0, replicate 64 blank) s q nothing-IsKnown in
      rw e (supported t s' v)
