-- ===== src/Rlp/Items/Ends.antt =====
-- The loop of `get_list_items_bytes` ends, whatever bytes it reads.
use bxcommon.Rlp.{
  Kind, str, list, consume_length_prefix, consume_long, consume_short_string, item_of, removes_from,
  items_loop, get_list_items_bytes,
}
use bxcommon.Prelude.Bytes.{Bytes, slice}
use bxcommon.Prelude.Result.{Result, ok, err, assertion_error}
use bxcommon.Prelude.{
  ℕ, zero, suc, ◌+◌, ◌-◌, ◌<◌, ◌≡◌, refl, Bool, true, some, List, [], ◌∷◌, ◌++◌, ltb, ◌==◌, length,
  get_elem?, arith, Bool-cases, Option-cases, inl, inr,
}

consume_long-forward :
    (kind : Kind) (n : ℕ) (rlp : Bytes) (start : ℕ) (k : Kind) (len end : ℕ)
    → consume_long kind n rlp start ≡ ok (k, len, end)
    → start < end + len
unfolding consume_long
consume_long-forward kind n rlp start k len end h = ground (arith, h)

consume_short_string-forward :
    (b : ℕ) (rlp : Bytes) (start : ℕ) (k : Kind) (len end : ℕ)
    → consume_short_string b rlp start ≡ ok (k, len, end)
    → start < end + len
unfolding consume_short_string
consume_short_string-forward b rlp start k len end h = ground (arith, h)

consume_length_prefix-forward :
    (rlp : Bytes) (start : ℕ) (k : Kind) (len end : ℕ)
    → consume_length_prefix rlp start ≡ ok (k, len, end)
    → start < end + len
unfolding consume_length_prefix
consume_length_prefix-forward rlp start k len end h = elim (Option-cases (get_elem? rlp start)) [
  | inl outside ↦ absurd (ground (arith, outside, h))
  | inr (b, inside) ↦ ground (
    arith,
    inside,
    h,
    consume_long-forward str (b - 128 - 56 + 1) rlp start k len end,
    consume_long-forward list (b - 192 - 56 + 1) rlp start k len end,
    consume_short_string-forward b rlp start k len end,
  )
]

items_loop-ends :
    (fuel : ℕ) (list_bytes : Bytes) (offset : ℕ) (remove : Bool) (result : List Bytes)
    → 0 < fuel
    → length list_bytes < offset + fuel
    → (end : Result (List Bytes × ℕ)) × (items_loop fuel list_bytes offset remove result ≡ some end)
unfolding items_loop
items_loop-ends zero list_bytes offset remove result p h = absurd (omega arith)
items_loop-ends (suc fuel) list_bytes offset remove result p h =
    elim (Bool-cases (ltb offset (length list_bytes))) [
      | inr outside ↦ (ok (result, offset), rw outside refl)
      | inl inside ↦
          by_prefix (λ next again items. items_loop-ends fuel list_bytes next again items) inside
            (consume_length_prefix list_bytes offset) refl
    ]
  where
    Continues : Type 0
    Continues =
        (next : ℕ) (again : Bool) (items : List Bytes)
        → 0 < fuel
        → length list_bytes < next + fuel
        → (end : Result (List Bytes × ℕ)) × (items_loop fuel list_bytes next again items ≡ some end)

    by_item :
        Continues
        → (kind : Kind) (len start : ℕ) → ltb offset (length list_bytes) ≡ true
        → consume_length_prefix list_bytes offset ≡ ok (kind, len, start)
        → (item : Result Bytes)
        → item_of (removes_from kind remove) (slice offset (start + len) list_bytes) ≡ item
        → (end : Result (List Bytes × ℕ)) × (items_loop (suc fuel) list_bytes offset remove result
            ≡ some end)
    by_item loop kind len start inside e (err raised) f = (err raised, rw (inside, e, f) refl)
    by_item loop kind len start inside e (ok item) f =
        let forward = consume_length_prefix-forward list_bytes offset kind len start e in
        let within : offset < length list_bytes = ground arith in
        let (end, run) =
          loop (start + len) (removes_from kind remove) (result ++ (item ∷ [])) (omega arith)
            (omega arith) in
        (end, rw (inside, e, f) run)

    by_prefix :
        Continues
        → ltb offset (length list_bytes) ≡ true
        → (prefix : Result (Kind × ℕ × ℕ)) → consume_length_prefix list_bytes offset ≡ prefix
        → (end : Result (List Bytes × ℕ)) × (items_loop (suc fuel) list_bytes offset remove result
            ≡ some end)
    by_prefix loop inside (err raised) e = (err raised, rw (inside, e) refl)
    by_prefix loop inside (ok (kind, len, start)) e = by_item loop kind len start inside e _ refl

-- Reading the items of a list ends, with items or with an exception, whatever the bytes are.
pub get_list_items_bytes_ends :
    (list_bytes : Bytes) (remove : Bool)
    → (result : Result (List Bytes)) × (get_list_items_bytes list_bytes remove ≡ some result)
unfolding get_list_items_bytes
get_list_items_bytes_ends list_bytes remove =
    let (end, run) =
      items_loop-ends (suc (length list_bytes)) list_bytes 0 remove [] (omega arith)
        (omega arith) in
    by_end end run
  where
    by_end :
        (end : Result (List Bytes × ℕ))
        → items_loop (suc (length list_bytes)) list_bytes 0 remove [] ≡ some end
        → (result : Result (List Bytes)) × (get_list_items_bytes list_bytes remove ≡ some result)
    by_end (err raised) run = (err raised, ground (arith, run))
    by_end (ok (items, offset)) run = elim (Bool-cases (offset == length list_bytes)) [
      | inl all ↦ (ok items, ground (arith, run, all))
      | inr over ↦ (err assertion_error, ground (arith, run, over))
    ]
