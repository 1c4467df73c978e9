-- ===== src/Handler/Model.antt =====
-- A device for the tests of the queue handler, in place of the virtqueue of virtio-drivers.
use virtio_drivers_windows.Base.{
  ℕ, zero, suc, ◌<◌, ◌≡◌, refl, ◌⊎◌, inl, inr, true, false, ◌&&◌, Option, none, some, List, [], ◌∷◌,
  arith, length, ltb, if◌then◌else◌,
}
use virtio_drivers_windows.Channel.Model.{list_array_queue, list_seg_queue}
use virtio_drivers_windows.Handler.Errors.{VirtioError, queue_full}
use virtio_drivers_windows.Handler.Interface.{Platform, UsedRing}

-- A device with two descriptors that uses them in the order of their tokens: how many were added,
-- and how many popped.
abbrev pub add_two : ℕ × ℕ → (VirtioError ⊎ ℕ) × (ℕ × ℕ)
add_two (zero, used) = (inr 0, (1, used))
add_two (suc zero, used) = (inr 1, (2, used))
add_two (suc (suc n), used) = (inl queue_full, (suc (suc n), used))

pub add_two-lt : (q : ℕ × ℕ) (t : ℕ) → (add_two q).0 ≡ inr t → t < 2
add_two-lt (zero, used) t e = ground arith
add_two-lt (suc zero, used) t e = ground arith
add_two-lt (suc (suc n), used) t e = cc

abbrev pub next_used : ℕ × ℕ → Option ℕ
next_used (n, used) = if ltb used n && ltb used 2 then some used else none

pub next_used-lt : (q : ℕ × ℕ) (t : ℕ) → next_used q ≡ some t → t < 2
next_used-lt (n, used) t e = ground arith

abbrev pub platform : Platform
platform = record {
  size = 2;
  page_size = 4096;
  VirtQueue = ℕ × ℕ;
  add = λ q i o. add_two q;
  peek_used = next_used;
  pop_used = λ q t i o. (inr (length o, o), (q.0, suc q.1));
  should_notify = λ q. true;
  add_token = λ q i o. add_two-lt q;
  peek_token = next_used-lt;
  CtrlHeader = List ℕ;
  read_from_prefix = some;
  is_error = λ h. false;
  is_response = λ h. true;
  is_cursor = λ h. false;
  is_resource_unref = λ h. false;
  has_fence = λ h. false;
  fence_id = λ h. 0;
  ResourceUnref = List ℕ;
  read_resource_unref = some;
  free_queue = list_array_queue;
  fast_queue = list_array_queue;
  slow_queue = list_seg_queue;
  input_addr = λ i b. 0;
  output_addr = λ i b. 64;
  counter = λ n. n;
}

-- The tokens that it has used.
abbrev used_tokens : ℕ × ℕ → List ℕ
used_tokens (zero, used) = []
used_tokens (suc zero, zero) = 0 ∷ []
used_tokens (suc zero, suc used) = []
used_tokens (suc (suc n), zero) = 0 ∷ 1 ∷ []
used_tokens (suc (suc n), suc zero) = 1 ∷ []
used_tokens (suc (suc n), suc (suc used)) = []

pub tokens_none : (q : ℕ × ℕ) → used_tokens q ≡ [] → next_used q ≡ none
tokens_none (zero, used) e = ground arith
tokens_none (suc zero, zero) e = cc
tokens_none (suc zero, suc used) e = ground arith
tokens_none (suc (suc n), zero) e = cc
tokens_none (suc (suc n), suc zero) e = cc
tokens_none (suc (suc n), suc (suc used)) e = ground arith

pub tokens_first :
    (q : ℕ × ℕ) (t : ℕ) (ts : List ℕ)
    → used_tokens q ≡ t ∷ ts
    → (next_used q ≡ some t) × (used_tokens (q.0, suc q.1) ≡ ts)
tokens_first (zero, used) t ts e = cc
tokens_first (suc zero, zero) t ts e = ground arith
tokens_first (suc zero, suc used) t ts e = cc
tokens_first (suc (suc n), zero) t ts e = ground arith
tokens_first (suc (suc n), suc zero) t ts e = ground arith
tokens_first (suc (suc n), suc (suc used)) t ts e = cc

abbrev pub ring : UsedRing platform
ring = record {
  tokens = used_tokens;
  peek_none = tokens_none;
  peek_first = λ q t ts e. (tokens_first q t ts e).0;
  pop_first = λ q t ts sent received e. (_, _, refl, (tokens_first q t ts e).1);
}
