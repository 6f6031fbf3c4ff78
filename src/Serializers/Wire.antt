-- ===== src/Serializers/Wire.antt =====
-- Numbers and byte strings in a buffer: `struct.pack_into` and `struct.unpack_from` with the formats
-- "<H", "<L" and "<Q", and slices, as Python has them. A writer takes a buffer and an offset and gives
-- the changed buffer and the next offset; a reader gives a value and the next offset.
use bxcommon.Prelude.Bytes.{
  Bytes, slice, assign_slice, take-append_self, drop-append_self, drop-append-ge, drop-drop,
  drop-all,
}
use bxcommon.Prelude.Result.{Result, ok, err, struct_error, ◌>>=◌}
use bxcommon.Prelude.{
  ℕ, zero, suc, ◌+◌, ◌-◌, ◌*◌, ◌/◌, ◌%◌, ◌≤◌, ◌<◌, ◌≡◌, refl, sym, ap, ◌∙◌, true, [], ◌∷◌, ◌++◌,
  ltb, leb, length, take, drop, if◌then◌else◌, arith, append_assoc, append-nil, length-append,
  length-drop, lt→ltb, replicate, length-replicate,
}

-- The bytes of a number, the lowest first, and the number of the bytes.
abbrev pub to_bytes : ℕ → ℕ → Bytes
to_bytes zero value = []
to_bytes (suc size) value = (value % 256) ∷ to_bytes size (value / 256)

abbrev pub from_bytes : Bytes → ℕ
from_bytes [] = 0
from_bytes (b ∷ bs) = b + 256 * from_bytes bs

-- How many numbers have so many bytes.
abbrev pub bound : ℕ → ℕ
bound zero = 1
bound (suc size) = 256 * bound size

unfoldable pub pack_into : ℕ → ℕ → Bytes → ℕ → Result (Bytes × ℕ)
pack_into size value buffer offset =
    if ltb value (bound size)
    then (if leb (offset + size) (length buffer)
        then ok (assign_slice offset (offset + size) (to_bytes size value) buffer, offset + size)
        else err struct_error)
    else err struct_error

unfoldable pub unpack_from : ℕ → Bytes → ℕ → Result (ℕ × ℕ)
unpack_from size buffer offset =
    if leb (offset + size) (length buffer)
    then ok (from_bytes (slice offset (offset + size) buffer), offset + size)
    else err struct_error

-- `buffer[offset:offset + len(xs)] = xs`
unfoldable pub put_slice : Bytes → Bytes → ℕ → Result (Bytes × ℕ)
put_slice xs buffer offset =
    ok (assign_slice offset (offset + length xs) xs buffer, offset + length xs)

-- `struct.pack_into` and `struct.unpack_from` with a format as "<16s", for bytes of that number
unfoldable pub pack_bytes : Bytes → Bytes → ℕ → Result (Bytes × ℕ)
pack_bytes xs buffer offset =
    if leb (offset + length xs) (length buffer)
    then ok (assign_slice offset (offset + length xs) xs buffer, offset + length xs)
    else err struct_error

unfoldable pub unpack_bytes : ℕ → Bytes → ℕ → Result (Bytes × ℕ)
unpack_bytes size buffer offset =
    if leb (offset + size) (length buffer)
    then ok (slice offset (offset + size) buffer, offset + size)
    else err struct_error

-- `buffer[offset:offset + size]`
unfoldable pub get_slice : ℕ → Bytes → ℕ → Result (Bytes × ℕ)
get_slice size buffer offset = ok (slice offset (offset + size) buffer, offset + size)

pub from_bytes-to_bytes :
    (size value : ℕ) → value < bound size → from_bytes (to_bytes size value) ≡ value
from_bytes-to_bytes zero value h = omega arith
from_bytes-to_bytes (suc size) value h =
    omega (arith, from_bytes-to_bytes size (value / 256) (omega arith))

pub length-to_bytes : (size value : ℕ) → length (to_bytes size value) ≡ size
length-to_bytes zero value = refl
length-to_bytes (suc size) value = ap suc (length-to_bytes size (value / 256))

-- `offset += size`, and how far that is
unfoldable pub skip : ℕ → Bytes → ℕ → Result (ℕ × ℕ)
skip size buffer offset = ok (size, offset + size)

-- A writer writes `out`: wherever it starts, with room for it behind, it puts those bytes there and
-- changes no others, and moves the offset past them.
abbrev pub Writes : (Bytes → ℕ → Result (Bytes × ℕ)) → Bytes → Type 0
Writes writer out =
    (done rest : Bytes)
    → length out ≤ length rest
    → writer (done ++ rest) (length done)
      ≡ ok ((done ++ out) ++ drop (length out) rest, length (done ++ out))

-- A reader reads `value` from `bytes`: wherever they stand, it gives the value, and the offset behind
-- them.
abbrev pub Reads {ℓ} : {A : Type ℓ} → (Bytes → ℕ → Result (A × ℕ)) → Bytes → A → Type ℓ
Reads reader bytes value =
    (before after : Bytes)
    → reader (before ++ (bytes ++ after)) (length before) ≡ ok (value, length (before ++ bytes))

assign_slice-append :
    (done xs rest : Bytes)
    → assign_slice (length done) (length done + length xs) xs (done ++ rest)
      ≡ (done ++ xs) ++ drop (length xs) rest
assign_slice-append done xs rest =
    let skip : length done + length xs - length done ≡ length xs = omega arith in
    let front = take-append_self done rest in
    let back : drop (length done + length xs) (done ++ rest) ≡ drop (length xs) rest =
      drop-append-ge (length done + length xs) done rest (omega arith)
      ∙ ap (λ k. drop k rest) skip in
    ap (λ f. f ++ (xs ++ drop (length done + length xs) (done ++ rest))) front
    ∙ ap (λ b. done ++ (xs ++ b)) back
    ∙ sym (append_assoc done xs (drop (length xs) rest))

pub slice-append :
    (before xs after : Bytes)
    → slice (length before) (length before + length xs) (before ++ (xs ++ after)) ≡ xs
slice-append before xs after =
    let whole = length-append before xs in
    ap (λ ys. drop (length before) (take (length before + length xs) ys))
      (sym (append_assoc before xs after))
    ∙ ap (λ n. drop (length before) (take n ((before ++ xs) ++ after))) (sym whole)
    ∙ ap (drop (length before)) (take-append_self (before ++ xs) after)
    ∙ drop-append_self before xs

pub put_slice-Writes : (xs : Bytes) → Writes (put_slice xs) xs
unfolding put_slice
put_slice-Writes xs done rest h =
    ap (λ b. ok (b, length done + length xs)) (assign_slice-append done xs rest)
    ∙ ap (λ n. ok ((done ++ xs) ++ drop (length xs) rest, n)) (sym (length-append done xs))

pub get_slice-Reads : (xs : Bytes) → Reads (get_slice (length xs)) xs xs
unfolding get_slice
get_slice-Reads xs before after =
    ap (λ b. ok (b, length before + length xs)) (slice-append before xs after)
    ∙ ap (λ n. ok (xs, n)) (sym (length-append before xs))

pub pack_bytes-Writes : (xs : Bytes) → Writes (pack_bytes xs) xs
unfolding pack_bytes put_slice
pack_bytes-Writes xs done rest room =
    let inside : leb (length done + length xs) (length (done ++ rest)) ≡ true =
      ground (arith, room, length-append done rest) in
    rw inside (put_slice-Writes xs done rest room)

pub unpack_bytes-Reads : (xs : Bytes) → Reads (unpack_bytes (length xs)) xs xs
unfolding unpack_bytes get_slice
unpack_bytes-Reads xs before after =
    let inside : leb (length before + length xs) (length (before ++ (xs ++ after))) ≡ true =
      ground (arith, length-append before (xs ++ after), length-append xs after) in
    rw inside (get_slice-Reads xs before after)

pub pack_into-Writes :
    (size value : ℕ) → value < bound size → Writes (pack_into size value) (to_bytes size value)
unfolding pack_into put_slice
pack_into-Writes size value fits done rest room =
    let bs = to_bytes size value in
    let n = length-to_bytes size value in
    let small : ltb value (bound size) ≡ true = lt→ltb value (bound size) fits in
    let inside : leb (length done + size) (length (done ++ rest)) ≡ true =
      ground (arith, n, room, length-append done rest) in
    rw (small, inside)
      (ap
          (λ m.
            ok (assign_slice (length done) (length done + m) bs (done ++ rest), length done + m))
          (sym n)
        ∙ put_slice-Writes bs done rest room)

pub unpack_from-Reads :
    (size value : ℕ) → value < bound size → Reads (unpack_from size) (to_bytes size value) value
unfolding unpack_from get_slice
unpack_from-Reads size value fits before after =
    let bs = to_bytes size value in
    let n = length-to_bytes size value in
    let inside : leb (length before + size) (length (before ++ (bs ++ after))) ≡ true =
      ground (arith, n, length-append before (bs ++ after), length-append bs after) in
    let piece : slice (length before) (length before + size) (before ++ (bs ++ after)) ≡ bs =
      ap (λ m. slice (length before) (length before + m) (before ++ (bs ++ after))) (sym n)
      ∙ slice-append before bs after in
    let end : length before + size ≡ length (before ++ bs) =
      omega (arith, n, length-append before bs) in
    rw (inside, piece, from_bytes-to_bytes size value fits, end) refl

-- Nothing is written.
pub done-Writes : Writes (λ buffer offset. ok (buffer, offset)) []
done-Writes done rest room = let e = append-nil done in ap (λ d. ok (d ++ rest, length d)) (sym e)

pub done-Reads {ℓ} : {A : Type ℓ} (a : A) → Reads (λ buffer offset. ok (a, offset)) [] a
done-Reads a before after = ap (λ b. ok (a, length b)) (sym (append-nil before))

pub skip-Reads : (xs : Bytes) → Reads (skip (length xs)) xs (length xs)
unfolding skip
skip-Reads xs before after = ap (λ n. ok (length xs, n)) (sym (length-append before xs))

-- One writer after another.
pub then-Writes :
    (w v : Bytes → ℕ → Result (Bytes × ℕ)) (xs ys : Bytes)
    → Writes w xs
    → Writes v ys
    → Writes (λ buffer offset. w buffer offset >>= λ r. v r.0 r.1) (xs ++ ys)
then-Writes w v xs ys h k done rest room =
    let total = length-append xs ys in
    let first = h done rest (omega (arith, total)) in
    let second =
      k (done ++ xs) (drop (length xs) rest) (omega (arith, total, length-drop (length xs) rest)) in
    let left : drop (length ys) (drop (length xs) rest) ≡ drop (length (xs ++ ys)) rest =
      drop-drop (length xs) (length ys) rest ∙ ap (λ n. drop n rest) (sym total) in
    ap (λ r. r >>= λ r. v r.0 r.1) first
    ∙ second
    ∙ ap (λ b. ok (b ++ drop (length ys) (drop (length xs) rest), length b))
        (append_assoc done xs ys)
    ∙ ap (λ b. ok ((done ++ (xs ++ ys)) ++ b, length (done ++ (xs ++ ys)))) left

-- One reader after another.
pub then-Reads {ℓ κ} :
    {A : Type ℓ} {B : Type κ} (r : Bytes → ℕ → Result (A × ℕ)) (q : A → Bytes → ℕ → Result (B × ℕ))
    (xs ys : Bytes) {a : A} {b : B}
    → Reads r xs a
    → Reads (q a) ys b
    → Reads (λ buffer offset. r buffer offset >>= λ s. q s.0 buffer s.1) (xs ++ ys) b
then-Reads r q xs ys {a} {b} h k before after =
    let whole : before ++ ((xs ++ ys) ++ after) ≡ before ++ (xs ++ (ys ++ after)) =
      ap (◌++◌ before) (append_assoc xs ys after) in
    let again : before ++ (xs ++ (ys ++ after)) ≡ (before ++ xs) ++ (ys ++ after) =
      sym (append_assoc before xs (ys ++ after)) in
    ap (λ u. r u (length before) >>= λ s. q s.0 u s.1) whole
    ∙ ap (λ t. t >>= λ s. q s.0 (before ++ (xs ++ (ys ++ after))) s.1) (h before (ys ++ after))
    ∙ ap (λ u. q a u (length (before ++ xs))) again
    ∙ k (before ++ xs) after
    ∙ ap (λ u. ok (b, length u)) (append_assoc before xs ys)

-- The value read is passed through a function.
pub map-Reads {ℓ κ} :
    {A : Type ℓ} {B : Type κ} (r : Bytes → ℕ → Result (A × ℕ)) (f : A → B) (xs : Bytes) {a : A}
    → Reads r xs a
    → Reads (λ buffer offset. r buffer offset >>= λ s. ok (f s.0, s.1)) xs (f a)
map-Reads r f xs h before after = ap (λ t. t >>= λ s. ok (f s.0, s.1)) (h before after)

-- A buffer of just the size of what is written, and zeros in it, ends as what is written.
pub written_whole :
    (w : Bytes → ℕ → Result (Bytes × ℕ)) (out : Bytes) (size : ℕ)
    → Writes w out
    → length out ≡ size
    → w (replicate size 0) 0 ≡ ok (out, size)
written_whole w out size h e =
    let blank : Bytes = replicate size 0 in
    let zeros : length blank ≡ size = length-replicate size 0 in
    h [] blank (omega (arith, e, zeros))
    ∙ ap (λ b. ok (out ++ b, length out)) (drop-all (length out) blank (omega (arith, e, zeros)))
    ∙ ap (λ b. ok (b, length out)) (append-nil out)
    ∙ ap (λ n. ok (out, n)) e
