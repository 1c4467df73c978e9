-- ===== src/Commands/Items.antt =====
-- The items of a body: what its iterator yields, and the sum of their lengths in DMA memory.
use virtio_drivers_windows.Base.{
  ℕ, ◌+◌, ◌*◌, suc, zero, ◌≡◌, refl, ap, Option, none, some, List, [], ◌∷◌, length, Outcome, ok,
  ◌>>=◌, arith,
}
use virtio_drivers_windows.Wire.{size_cmd_transfer_host_3d}
use virtio_drivers_windows.Commands.{
  CommandBody, CommandBodyItem, CommandBodyIterState, CommandTransfer, into_iter, next_item,
  item_dma_len, item_size, body_dma_len, body_len, body_id, item_id,
}

-- A loop over the items: its bound on the number of turns is fuel, and `none` that there was too
-- little of it.
unfoldable pub items : ℕ → CommandBodyIterState → Option (List CommandBodyItem)
unfolding next_item
items zero s = none
items (suc fuel) s = elim (next_item s) [
  | none ↦ some []
  | some (item, s') ↦ elim (items fuel s') [ some rest ↦ some (item ∷ rest) | none ↦ none ]
]

unfoldable pub total_dma_len : List CommandBodyItem → Outcome ℕ
unfolding item_dma_len
total_dma_len [] = ok 0
total_dma_len (item ∷ rest) =
    let rest_len = total_dma_len rest in item_dma_len item >>= λ n. rest_len >>= λ m. ok (n + m)

-- What iterating over a body yields: the items, each with the identifier of the body.
abbrev pub AllOf : CommandBody → List CommandBodyItem → Type 0
AllOf body [] = Unit {0}
AllOf body (item ∷ rest) = (item_id item ≡ body_id body) × AllOf body rest

abbrev pub Yields : CommandBody → CommandBodyIterState → ℕ → Outcome ℕ → Type 0
Yields body s n total =
    (l : List CommandBodyItem) × (items (suc n) s ≡ some l)
    × (length l ≡ n)
    × AllOf body l
    × (total_dma_len l ≡ total)

to_host-Yields :
    (all ts : List CommandTransfer)
    → Yields
        (CommandBody.transfer_to_host all)
        (CommandBodyIterState.transfer_to_host ts)
        (length ts)
        (ok (size_cmd_transfer_host_3d * length ts))
unfolding items next_item total_dma_len item_dma_len
to_host-Yields all [] = ([], refl, refl, tt, refl)
to_host-Yields all (t ∷ ts) =
    let (l, e, n, a, d) = to_host-Yields all ts in
    (
      CommandBodyItem.transfer_to_host t ∷ l,
      rw (e, items) refl,
      ap suc n,
      (refl, a),
      rw d (ap ok (omega arith)),
    )

from_host-Yields :
    (all ts : List CommandTransfer)
    → Yields
        (CommandBody.transfer_from_host all)
        (CommandBodyIterState.transfer_from_host ts)
        (length ts)
        (ok (size_cmd_transfer_host_3d * length ts))
unfolding items next_item total_dma_len item_dma_len
from_host-Yields all [] = ([], refl, refl, tt, refl)
from_host-Yields all (t ∷ ts) =
    let (l, e, n, a, d) = from_host-Yields all ts in
    (
      CommandBodyItem.transfer_from_host t ∷ l,
      rw (e, items) refl,
      ap suc n,
      (refl, a),
      rw d (ap ok (omega arith)),
    )

-- Iterating over a body ends after as many items as the length of the body says, each of them with
-- the identifier of the body, and the lengths of the items in DMA memory add up to that of the body,
-- with a panic for a fence on both sides.
pub body_dma_len-items :
    (body : CommandBody) → Yields body (into_iter body) (body_len body) (body_dma_len body)
unfolding into_iter items next_item total_dma_len item_dma_len item_size body_dma_len
body_dma_len-items CommandBody.nop = ([], refl, refl, tt, refl)
body_dma_len-items (CommandBody.submit bytes) =
    (CommandBodyItem.submit bytes ∷ [], refl, refl, (refl, tt), ap ok (omega arith))
body_dma_len-items (CommandBody.fence f) =
    (CommandBodyItem.fence f ∷ [], refl, refl, (refl, tt), refl)
body_dma_len-items (CommandBody.transfer_to_host ts) = to_host-Yields ts ts
body_dma_len-items (CommandBody.transfer_from_host ts) = from_host-Yields ts ts
