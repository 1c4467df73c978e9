-- ===== src/Cursors/Tests.antt =====
-- Shapes at concrete inputs.
use virtio_drivers_windows.Base.{ℕ, List, [], ◌∷◌, ◌≡◌, refl, replicate, Yields, arith}
use virtio_drivers_windows.Cursors.Images.{mono_image, byte_at}
use virtio_drivers_windows.Cursors.Mono.{write_mono}
use virtio_drivers_windows.Cursors.Masked.{write_masked_color}
use virtio_drivers_windows.Cursors.Drawn.{Shows}
use virtio_drivers_windows.Cursors.MonoDrawn.{write_mono-Shows}
use virtio_drivers_windows.Cursors.MaskedBytes.{Painted, masked_bytes, write_masked_color-Painted}

-- Two rows of eight pixels: the AND masks of the rows, and then the XOR masks.
abbrev two_rows : List ℕ
two_rows = 0xF0 ∷ 0xFF ∷ 0x90 ∷ 0x01 ∷ []

write_mono-Shows_example :
    Yields (Shows 8 16 (mono_image 1 two_rows)) (write_mono 8 two_rows 1 (replicate 64 7))
write_mono-Shows_example =
    write_mono-Shows 8 16 1 two_rows (replicate 64 7) (omega arith) (omega arith) (omega arith) refl

-- A row of the image: inverted pixels, black ones beside them, white and black ones.
mono_row :
    (mono_image 1 two_rows 0 0 ≡ 0xFFFFFFFF)
    × (mono_image 1 two_rows 1 0 ≡ 0xFF000000)
    × (mono_image 1 two_rows 4 0 ≡ 0xFF000000)
    × (mono_image 1 two_rows 1 1 ≡ 0)
unfolding mono_image
mono_row = (refl, refl, refl, refl)

abbrev two_pixels : List ℕ
two_pixels = 1 ∷ 2 ∷ 3 ∷ 0 ∷ 9 ∷ 9 ∷ 9 ∷ 255 ∷ []

write_masked_color-Painted_example :
    Yields (Painted 4 4 8 two_pixels) (write_masked_color 4 two_pixels 8 (replicate 16 7))
write_masked_color-Painted_example =
    write_masked_color-Painted 4 4 8 two_pixels (replicate 16 7) (omega arith) (omega arith)
      (omega arith) (omega arith) (omega arith) refl

masked_row :
    (masked_bytes 8 two_pixels 0 0 ≡ 1 ∷ 3 ∷ 2 ∷ 255 ∷ [])
    × (masked_bytes 8 two_pixels 1 0 ≡ 0 ∷ 0 ∷ 0 ∷ 0 ∷ [])
unfolding byte_at
masked_row = (refl, refl)
