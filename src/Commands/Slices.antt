-- ===== src/Commands/Slices.antt =====
-- What `command_slice` makes of a header from user space.
use virtio_drivers_windows.Base.{
  drop-drop, ℕ, zero, suc, ◌+◌, ◌*◌, ◌/◌, ◌%◌, ◌≤◌, ◌<◌, ◌≡◌, refl, sym, ap, true, false,
  Bool-cases, some, List, [], ◌∷◌, ◌⊎◌, inl, inr, length, take, drop, map, get_elem?, subst, ◌≢◌,
  ℕ_discrete, ◌==◌, arith,
}
use virtio_drivers_windows.Commands.{CommandId, CommandBody, CommandTransfer, body_id}
use virtio_drivers_windows.Commands.Parser.{
  ParseError, CommandHeader, chunks, try_commands_from_body, first_byte, size_command_transfer,
  command_slice, CommandFlag, ◌>>=◌, one_element,
}

map-chunks_byte : (n : ℕ) (l : List ℕ) → n ≤ length l → map first_byte (chunks 1 n l) ≡ take n l
unfolding chunks
map-chunks_byte zero l h = refl
map-chunks_byte (suc n) [] h = absurd (omega arith)
map-chunks_byte (suc n) (x ∷ xs) h = ap (λ l. x ∷ l) (map-chunks_byte n xs (omega arith))

length-map-chunks :
    {A : Type 0} (read : List ℕ → A) (size n : ℕ) (l : List ℕ)
    → length (map read (chunks size n l)) ≡ n
unfolding chunks
length-map-chunks read size zero l = refl
length-map-chunks read size (suc n) l = ap suc (length-map-chunks read size n (drop size l))

get_elem?-map-chunks :
    {A : Type 0} (read : List ℕ → A) (size n i : ℕ) (l : List ℕ)
    → i < n
    → get_elem? (map read (chunks size n l)) i ≡ some (read (take size (drop (i * size) l)))
unfolding chunks
get_elem?-map-chunks read size zero i l h = absurd (omega arith)
get_elem?-map-chunks read size (suc n) zero l h = let e : 0 * size ≡ 0 = omega arith in rw e refl
get_elem?-map-chunks read size (suc n) (suc i) l h =
    let e : suc i * size ≡ size + i * size = omega arith in
    rw (e, sym (drop-drop (i * size) size l))
      (get_elem?-map-chunks read size n i (drop size l) (omega arith))

abbrev pub header : CommandId → CommandFlag → ℕ → ℕ → ℕ → List ℕ → CommandHeader
header id flags ring size addr body = record {
  id = id;
  flags = flags;
  ring = ring;
  size = size;
  body_addr = addr;
  body = body;
}

module _ (read_transfer : List ℕ → CommandTransfer) (read_u64 : List ℕ → ℕ) where
  -- The sizes and the addresses that a kind of command allows.
  abbrev pub Allowed : CommandHeader → Type 0
  Allowed h = elim h.id [
    | CommandId.nop ↦ Unit {0}
    | CommandId.submit ↦ Unit {0}
    | CommandId.fence ↦ (h.body_addr % 8 ≡ 0) × (h.size ≡ 8)
    | CommandId.transfer_to_host ↦ h.size % size_command_transfer ≡ 0
    | CommandId.transfer_from_host ↦ h.size % size_command_transfer ≡ 0
    | _ ↦ ⊥
  ]

  -- The elements fill the size of the header, each read from its place.
  abbrev pub Elements : CommandHeader → List CommandTransfer → Type 0
  Elements h ts =
      (length ts * size_command_transfer ≡ h.size)
      × ((i : ℕ)
          → i * size_command_transfer < h.size
          → get_elem? ts i
            ≡ some (
                read_transfer
                  (take size_command_transfer (drop (i * size_command_transfer) h.body))))

  -- A body holds the bytes behind the header, as many as the header says.
  abbrev pub Holds : CommandHeader → CommandBody → Type 0
  Holds h CommandBody.nop = Unit {0}
  Holds h (CommandBody.submit bytes) = bytes ≡ take h.size h.body
  Holds h (CommandBody.fence f) = f ≡ read_u64 (take 8 h.body)
  Holds h (CommandBody.transfer_to_host ts) = Elements h ts
  Holds h (CommandBody.transfer_from_host ts) = Elements h ts

  abbrev pub Parsed : CommandHeader → ParseError ⊎ CommandBody → Type 0
  Parsed h (inr b) = Allowed h × (body_id b ≡ h.id) × Holds h b
  Parsed h (inl e) = ¬ Allowed h

  transfers :
      (h : CommandHeader)
      → ((h.size % size_command_transfer ≡ 0)
          × (ts : List CommandTransfer) × (try_commands_from_body 1 size_command_transfer
                read_transfer h
              ≡ inr ts)
          × Elements h ts)
        ⊎ (¬ (h.size % size_command_transfer ≡ 0)
            × (try_commands_from_body 1 size_command_transfer read_transfer h
                ≡ inl ParseError.not_multiple))
  unfolding try_commands_from_body
  transfers h =
      let aligned : (h.body_addr % 1 == 0) ≡ true = ground arith in
      elim (Bool-cases (h.size % size_command_transfer == 0)) [
        | inl y ↦
            let e : h.size % size_command_transfer ≡ 0 = ground arith in
            inl (
              e,
              _,
              rw (aligned, y) refl,
              (
                rw
                    (length-map-chunks read_transfer size_command_transfer
                      (h.size / size_command_transfer) h.body)
                    (omega arith),
                λ i l.
                    get_elem?-map-chunks read_transfer size_command_transfer
                      (h.size / size_command_transfer) i h.body (omega arith),
              ),
            )
        | inr n ↦ inr (λ e. ground arith, rw (aligned, n) refl)
      ]

  -- The result of a slice of transfers, for either direction.
  transfers-Parsed :
      (h : CommandHeader) (to_body : List CommandTransfer → CommandBody)
      → Allowed h ≡ (h.size % size_command_transfer ≡ 0)
      → ((ts : List CommandTransfer) → body_id (to_body ts) ≡ h.id)
      → ((ts : List CommandTransfer) → Holds h (to_body ts) ≡ Elements h ts)
      → Parsed h (
          try_commands_from_body 1 size_command_transfer read_transfer h >>= λ slice.
          inr (to_body slice))
  transfers-Parsed h to_body a i e = elim (transfers h) [
    | inl (m, ts, p, q) ↦ rw p (subst (λ X. X) (sym a) m, i ts, subst (λ X. X) (sym (e ts)) q)
    | inr (n, p) ↦ rw p (λ x. n (subst (λ X. X) a x))
  ]

  bytes-Parsed :
      (flags : CommandFlag) (ring size addr : ℕ) (body : List ℕ)
      → size ≤ length body
      → let h = header CommandId.submit flags ring size addr body in
        Parsed h (command_slice read_transfer read_u64 h)
  unfolding command_slice try_commands_from_body
  bytes-Parsed flags ring size addr body l =
      let aligned : (addr % 1 == 0) ≡ true = ground arith in
      let whole : (size % 1 == 0) ≡ true = ground arith in
      let e : size / 1 ≡ size = omega arith in
      rw (aligned, whole, e) (tt, refl, map-chunks_byte size body l)

  one_element-several :
      (k : ℕ) (l : List ℕ)
      → k ≢ 1
      → one_element (map read_u64 (chunks 8 k l)) ≡ inl ParseError.one_fence
  unfolding chunks
  one_element-several zero l h = refl
  one_element-several (suc zero) l h = absurd (h refl)
  one_element-several (suc (suc k)) l h = refl

  fence-Parsed :
      (flags : CommandFlag) (ring size addr : ℕ) (body : List ℕ)
      → let h = header CommandId.fence flags ring size addr body in
        Parsed h (command_slice read_transfer read_u64 h)
  unfolding command_slice try_commands_from_body chunks
  fence-Parsed flags ring size addr body = elim (Bool-cases (addr % 8 == 0)) [
    | inr n ↦ rw n (λ x. ground arith)
    | inl y ↦ elim (ℕ_discrete (size % 8) 0) [
      | no n ↦ let z : (size % 8 == 0) ≡ false = ground arith in rw (y, z) (λ x. ground arith)
      | yes m ↦
          let z : (size % 8 == 0) ≡ true = ground arith in
          rw (y, z)
            (elim (ℕ_discrete size 8) [
              | yes s ↦ rw s (ground arith, refl, refl)
              | no s ↦ rw (one_element-several (size / 8) body (λ x. s (omega arith))) (λ x. s x.1)
            ])
    ]
  ]

  by_id :
      (id : CommandId) (flags : CommandFlag) (ring size addr : ℕ) (body : List ℕ)
      → size ≤ length body
      → let h = header id flags ring size addr body in
        Parsed h (command_slice read_transfer read_u64 h)
  unfolding command_slice
  by_id CommandId.nop flags ring size addr body l = (tt, refl, tt)
  by_id CommandId.submit flags ring size addr body l = bytes-Parsed flags ring size addr body l
  by_id CommandId.fence flags ring size addr body l = fence-Parsed flags ring size addr body
  by_id CommandId.transfer_to_host flags ring size addr body l =
      transfers-Parsed (header CommandId.transfer_to_host flags ring size addr body)
        CommandBody.transfer_to_host refl (λ ts. refl) (λ ts. refl)
  by_id CommandId.transfer_from_host flags ring size addr body l =
      transfers-Parsed (header CommandId.transfer_from_host flags ring size addr body)
        CommandBody.transfer_from_host refl (λ ts. refl) (λ ts. refl)
  by_id CommandId.map_aperture flags ring size addr body l = λ x. x
  by_id CommandId.unmap_aperture flags ring size addr body l = λ x. x

  -- A header with as much memory behind it as it says is parsed exactly if its size and the address
  -- of its body are allowed for its kind: then the body is of that kind, and holds the bytes behind
  -- the header, as many as the header says, in their order. Otherwise it is refused.
  pub command_slice_lem :
      (h : CommandHeader)
      → h.size ≤ length h.body
      → Parsed h (command_slice read_transfer read_u64 h)
  command_slice_lem h l = by_id h.id h.flags h.ring h.size h.body_addr h.body l
