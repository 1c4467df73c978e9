-- ===== src/Commands/Writes.antt =====
-- Slices, copies and headers in DMA memory.
use virtio_drivers_windows.Base.{
  ◌>>=◌, ℕ, zero, suc, ◌+◌, ◌*◌, ◌≤◌, ◌<◌, ◌≡◌, refl, sym, ap, ◌∙◌, true, false, List, [], ◌∷◌,
  ◌++◌, append-nil, append_assoc, length, take, drop, length-append, take-append, drop-append,
  length-take, length-drop, Outcome, ok, panic, leb, arith,
}
use virtio_drivers_windows.Commands.Dma.{
  flatten, split_at, write_to_prefix, write_elements, with_header,
}

-- Every element of a size.
abbrev pub AllSized : ℕ → List (List ℕ) → Type 0
AllSized n [] = Unit {0}
AllSized n (x ∷ xs) = (length x ≡ n) × AllSized n xs

pub drop_all : (l : List ℕ) (n : ℕ) → length l ≤ n → drop n l ≡ []
drop_all [] zero h = refl
drop_all [] (suc n) h = refl
drop_all (x ∷ xs) zero h = absurd (omega arith)
drop_all (x ∷ xs) (suc n) h = drop_all xs n (omega arith)

pub split_at-fits : (n : ℕ) (l : List ℕ) → n ≤ length l → split_at n l ≡ ok (take n l, drop n l)
unfolding split_at
split_at-fits n l h = let e : leb n (length l) ≡ true = ground arith in rw e refl

pub split_at-short : (n : ℕ) (l : List ℕ) → length l < n → split_at n l ≡ panic
unfolding split_at
split_at-short n l h = let e : leb n (length l) ≡ false = ground arith in rw e refl

pub write_to_prefix-fits :
    (value dst : List ℕ)
    → length value ≤ length dst
    → write_to_prefix value dst ≡ ok (value ++ drop (length value) dst)
unfolding write_to_prefix
write_to_prefix-fits value dst h =
    let e : leb (length value) (length dst) ≡ true = ground arith in rw e refl

pub write_to_prefix-exact :
    (value dst : List ℕ) → length value ≡ length dst → write_to_prefix value dst ≡ ok value
write_to_prefix-exact value dst h =
    write_to_prefix-fits value dst (omega arith)
    ∙ rw (drop_all dst (length value) (omega arith)) (ap ok (append-nil value))

pub length-take_le : (n : ℕ) (l : List ℕ) → n ≤ length l → length (take n l) ≡ n
length-take_le n l h = omega (arith, length-take n l)

-- With enough memory, the header is written at its start, and what lies behind header and body is
-- left as it was; the body is written as `fill` writes it.
pub with_header_enough :
    (header_size body_len : ℕ) (hdr : List ℕ) (fill : List ℕ → Outcome (List ℕ)) (dma : List ℕ)
    → length hdr ≡ header_size
    → header_size + body_len ≤ length dma
    → with_header header_size body_len hdr fill dma ≡ (
        fill (drop header_size (take (header_size + body_len) dma)) >>= λ body'.
        ok (hdr ++ body', (hdr ++ body') ++ drop (header_size + body_len) dma))
unfolding with_header
with_header_enough header_size body_len hdr fill dma e fits =
    let slice = take (header_size + body_len) dma in
    let l : length slice ≡ header_size + body_len = length-take_le _ dma fits in
    let lh : length (take header_size slice) ≡ header_size =
      length-take_le header_size slice (omega arith) in
    rw
      (
        split_at-fits (header_size + body_len) dma fits,
        split_at-fits header_size slice (omega arith),
        write_to_prefix-exact hdr (take header_size slice) (omega arith),
      )
      refl

pub with_header-fits :
    (header_size body_len : ℕ) (hdr body' : List ℕ) (fill : List ℕ → Outcome (List ℕ))
    (dma : List ℕ)
    → length hdr ≡ header_size
    → header_size + body_len ≤ length dma
    → ((body : List ℕ) → length body ≡ body_len → fill body ≡ ok body')
    → with_header header_size body_len hdr fill dma
      ≡ ok (hdr ++ body', (hdr ++ body') ++ drop (header_size + body_len) dma)
with_header-fits header_size body_len hdr body' fill dma e fits f =
    let slice = take (header_size + body_len) dma in
    let l : length slice ≡ header_size + body_len = length-take_le _ dma fits in
    with_header_enough header_size body_len hdr fill dma e fits
    ∙ rw (f (drop header_size slice) (omega (arith, length-drop header_size slice))) refl

pub with_header-short :
    (header_size body_len : ℕ) (hdr : List ℕ) (fill : List ℕ → Outcome (List ℕ)) (dma : List ℕ)
    → length dma < header_size + body_len
    → with_header header_size body_len hdr fill dma ≡ panic
unfolding with_header
with_header-short header_size body_len hdr fill dma h =
    rw (split_at-short (header_size + body_len) dma h) refl

pub take_at : {n : ℕ} (xs ys : List ℕ) → length xs ≡ n → take n (xs ++ ys) ≡ xs
take_at xs ys e = rw (sym e) (take-append xs ys)

pub drop_at : {n : ℕ} (xs ys : List ℕ) → length xs ≡ n → drop n (xs ++ ys) ≡ ys
drop_at xs ys e = rw (sym e) (drop-append xs ys)

-- Elements written from index `i` on, behind those already written, into memory of their size.
pub write_elements-fits :
    (size i : ℕ) (values : List (List ℕ)) (before rest : List ℕ)
    → AllSized size values
    → length before ≡ i * size
    → length rest ≡ length values * size
    → write_elements size i values (before ++ rest) ≡ ok (before ++ flatten values)
unfolding write_elements
write_elements-fits size i [] before [] s b r = refl
write_elements-fits size i [] before (x ∷ xs) s b r = absurd (omega arith)
write_elements-fits size i (v ∷ vs) before rest s b r =
    let more : length rest ≡ size + length vs * size = omega (arith, r) in
    rw
      (
        split_at-fits (i * size) (before ++ rest) (omega (arith, length-append before rest)),
        take_at before rest b,
        drop_at before rest b,
        write_to_prefix-fits v rest (omega arith),
        sym (append_assoc before v (drop (length v) rest)),
        sym (append_assoc before v (flatten vs)),
      )
      (write_elements-fits size (suc i) vs (before ++ v) (drop (length v) rest) s.1
        (omega (arith, length-append before v)) (omega (arith, length-drop (length v) rest)))

pub length-flatten : (n : ℕ) (l : List (List ℕ)) → AllSized n l → length (flatten l) ≡ length l * n
length-flatten n [] s = omega arith
length-flatten n (x ∷ xs) s =
    omega (arith, length-append x (flatten xs), length-flatten n xs s.1, s.0)
