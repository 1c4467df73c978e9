-- ===== src/Cursors/Images.antt =====
-- What the cursor should show: each pixel from the shape that it is given, with nothing mutated.
use Prim.Native.Nat.{bit_and}
use virtio_drivers_windows.Base.{
  ℕ, ◌+◌, ◌*◌, ◌-◌, ◌/◌, ◌%◌, ◌^◌, Bool, not, List, length, get_elem?, take, drop, some, none, ◌==◌,
  ltb, if◌then◌else◌, ◌&&◌, ◌||◌,
}
use virtio_drivers_windows.Cursors.Pixels.{transparent, opaque, background, foreground}

-- The value of each pixel, by column and row.
abbrev pub Image : Type 0
Image = ℕ → ℕ → ℕ

abbrev pub in_grid : ℕ → ℕ → ℕ → ℕ → Bool
in_grid w h x y = ltb x w && ltb y h

-- A Boolean test at one of the four neighbours inside the grid.
unfoldable pub beside : ℕ → ℕ → (ℕ → ℕ → Bool) → ℕ → ℕ → Bool
beside w h test x y =
    (ltb 0 x && test (x - 1) y)
    || ((ltb (x + 1) w && test (x + 1) y)
        || ((ltb 0 y && test x (y - 1)) || (ltb (y + 1) h && test x (y + 1))))

-- An element of a list, 0 outside.
unfoldable pub byte_at : List ℕ → ℕ → ℕ
byte_at xs i = elim (get_elem? xs i) [ none ↦ 0 | some v ↦ v ]

-- The bit of a pixel in a mask with `stride` bytes a row, the leftmost pixel the highest bit.
unfoldable pub bit_at : ℕ → List ℕ → ℕ → ℕ → Bool
unfolding byte_at
bit_at stride mask x y = not (bit_and (byte_at mask (y * stride + x / 8)) (2 ^ (7 - x % 8)) == 0)

-- Both masks set ask for an inverted screen. It is shown white, with a black outline of the
-- transparent pixels beside it.
unfoldable pub mono_image : ℕ → List ℕ → Image
unfolding bit_at beside
mono_image stride mask x y =
    let w = stride * 8 in
    let h = length mask / (stride * 2) in
    let and_bit = bit_at stride (take (length mask / 2) mask) in
    let xor_bit = bit_at stride (drop (length mask / 2) mask) in
    if not (in_grid w h x y)
    then transparent
    else if xor_bit x y
    then opaque + foreground
    else if not (and_bit x y)
    then opaque + background
    else if beside w h (λ i j. and_bit i j && xor_bit i j) x y
    then opaque + background
    else transparent

-- The colour where the mask is 0, and nothing where it is not.
unfoldable pub masked_image : ℕ → List ℕ → Image
unfolding byte_at
masked_image stride colours x y =
    let start = y * stride + x * 4 in
    if not (in_grid (stride / 4) (length colours / stride) x y)
    then transparent
    else if byte_at colours (start + 3) == 0
    then opaque
      + (byte_at colours (start + 2) * 2 ^ 16
          + byte_at colours (start + 1) * 2 ^ 8
          + byte_at colours start)
    else transparent
