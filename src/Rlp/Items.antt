-- ===== src/Rlp/Items.antt =====
-- `get_list_items_bytes` of rlp_utils.py on lists of encoded items.
pub mod Ends
use mathlib.Core.Path.{subst}
use bxcommon.Rlp.Prefix.{
  NotSingle, IsPrefix, prefix_of, offset_of, moved, slice-behind, consume_length_prefix-moved,
}
use bxcommon.Rlp.{
  Kind, str, list, get_length_prefix, is_single, consume_length_prefix, remove_length_prefix,
  removes_from, item_of, items_loop, get_list_items_bytes,
}
use bxcommon.Serializers.Wire.{bound}
use bxcommon.Prelude.Bytes.{Bytes, joined, slice, take-append_self, drop-append_self, take-all}
use bxcommon.Prelude.Result.{Result, ok, err, ◌>>=◌}
use bxcommon.Prelude.{
  ℕ, zero, suc, ◌+◌, ◌<◌, ◌≤◌, ◌≡◌, refl, sym, ap, ◌∙◌, Bool, true, false, Option, none, some, List,
  [], ◌∷◌, ◌++◌, ltb, ◌==◌, length, take, drop, if◌then◌else◌, arith, append_assoc, append-nil,
  Bool-cases, inl, inr, length-append,
}

-- A string or the payload of a list, encoded: a single byte below 128 stands for itself.
unfoldable pub encode_item : Kind → Bytes → Result Bytes
encode_item list payload =
    get_length_prefix (length payload) (offset_of list) >>= λ prefix. ok (prefix ++ payload)
encode_item str payload =
    if is_single payload
    then ok payload
    else (get_length_prefix (length payload) (offset_of str) >>= λ prefix. ok (prefix ++ payload))

-- What is to be known of the code of an item.
record IsItem (kind : Kind) (payload code : Bytes) : Type 0 where
  len : ℕ
  end : ℕ
  consumed : (after : Bytes) → consume_length_prefix (code ++ after) 0 ≡ ok (kind, len, end)
  whole : end + len ≡ length code
  dropped : drop end code ≡ payload
  positive : 0 < length code

prefixed-IsItem :
    (kind : Kind) (payload prefix : Bytes)
    → IsPrefix kind (length payload) prefix
    → ((after : Bytes) → NotSingle kind (length payload) (payload ++ after))
    → IsItem kind payload (prefix ++ payload)
prefixed-IsItem kind payload prefix p single = record {
  len = length payload;
  end = length prefix;
  consumed = λ after.
      rw (append_assoc prefix payload after) (p.consumed (payload ++ after) (single after));
  whole = sym (length-append prefix payload);
  dropped = drop-append_self prefix payload;
  positive = omega (arith, length-append prefix payload, p.not_empty);
}

single-IsItem : (b : ℕ) → b < 128 → IsItem str (b ∷ []) (b ∷ [])
unfolding consume_length_prefix
single-IsItem b h = record {
  len = 1;
  end = 0;
  consumed = λ after. ground (arith, h);
  whole = refl;
  dropped = refl;
  positive = omega arith;
}

Made : Kind → Bytes → Type 0
Made kind payload = (code : Bytes) × (encode_item kind payload ≡ ok code) × IsItem kind payload code

prefixed-Made :
    (payload : Bytes)
    → length payload < bound 8
    → is_single payload ≡ false
    → ((after : Bytes) → NotSingle str (length payload) (payload ++ after))
    → Made str payload
unfolding encode_item Made
prefixed-Made payload h several single =
    let (prefix, p) = prefix_of str (length payload) h in
    (prefix ++ payload, rw (several, p.made) refl, prefixed-IsItem str payload prefix p single)

encode_item-Made : (kind : Kind) (payload : Bytes) → length payload < bound 8 → Made kind payload
unfolding encode_item Made
encode_item-Made list payload h =
    let (prefix, p) = prefix_of list (length payload) h in
    (prefix ++ payload, rw p.made refl, prefixed-IsItem list payload prefix p (λ after. tt))
encode_item-Made str [] h = prefixed-Made [] h refl (λ after. inl refl)
encode_item-Made str (b ∷ c ∷ bs) h =
    prefixed-Made (b ∷ c ∷ bs) h refl (λ after. inl (ground arith))
encode_item-Made str (b ∷ []) h = elim (Bool-cases (ltb b 128)) [
  | inl low ↦ (b ∷ [], rw low refl, single-IsItem b (ground arith))
  | inr high ↦ prefixed-Made (b ∷ []) h high (λ after. inr (b, after, refl, ground arith))
]

-- Each item of a list, encoded.
abbrev pub encode_items : List (Kind × Bytes) → Result (List Bytes)
encode_items [] = ok []
encode_items ((kind, payload) ∷ items) =
    encode_item kind payload >>= λ code. encode_items items >>= λ codes. ok (code ∷ codes)

-- What is read of the items. With the prefixes to be removed, the payloads; otherwise the items as they
-- are encoded up to the first string, and the payloads from it on.
abbrev pub expected : Bool → List (Kind × Bytes) → List Bytes → List Bytes
expected true ((kind, payload) ∷ items) (code ∷ codes) = payload ∷ expected true items codes
expected false ((list, payload) ∷ items) (code ∷ codes) = code ∷ expected false items codes
expected false ((str, payload) ∷ items) (code ∷ codes) = payload ∷ expected true items codes
expected remove [] codes = []
expected remove (item ∷ items) [] = []

expected-removes_from :
    (remove : Bool) (kind : Kind) (payload code : Bytes) (items : List (Kind × Bytes))
    (codes : List Bytes)
    → expected remove ((kind, payload) ∷ items) (code ∷ codes)
      ≡ (if removes_from kind remove then payload else code)
        ∷ expected (removes_from kind remove) items codes
expected-removes_from true list payload code items codes = refl
expected-removes_from true str payload code items codes = refl
expected-removes_from false list payload code items codes = refl
expected-removes_from false str payload code items codes = refl

abbrev pub AllShort : List (Kind × Bytes) → Type 0
AllShort [] = Unit {0}
AllShort ((kind, payload) ∷ items) = (length payload < bound 8) × AllShort items

abbrev AreItems : List (Kind × Bytes) → List Bytes → Type 0
AreItems [] [] = Unit {0}
AreItems ((kind, payload) ∷ items) (code ∷ codes) = IsItem kind payload code × AreItems items codes
AreItems [] (code ∷ codes) = ⊥
AreItems (item ∷ items) [] = ⊥

encode_items-AreItems :
    (items : List (Kind × Bytes))
    → AllShort items
    → (codes : List Bytes) × (encode_items items ≡ ok codes) × AreItems items codes
unfolding Made
encode_items-AreItems [] h = ([], refl, tt)
encode_items-AreItems ((kind, payload) ∷ items) h =
    let (code, made, item) = encode_item-Made kind payload h.0 in
    let (codes, all, rest) = encode_items-AreItems items h.1 in
    (code ∷ codes, rw (made, all) refl, (item, rest))

item_of-IsItem :
    (remove : Bool) (kind : Kind) (payload code : Bytes)
    → IsItem kind payload code
    → item_of remove code ≡ ok (if remove then payload else code)
unfolding item_of remove_length_prefix
item_of-IsItem false kind payload code i = refl
item_of-IsItem true kind payload code i =
    let consumed : consume_length_prefix code 0 ≡ ok (kind, i.len, i.end) =
      rw⁻¹ (append-nil code) (i.consumed []) in
    rw consumed (ap ok i.dropped)

items_loop-AreItems :
    (fuel : ℕ) (before : Bytes) (items : List (Kind × Bytes)) (codes : List Bytes) (remove : Bool)
    (result : List Bytes)
    → AreItems items codes
    → length codes < fuel
    → items_loop fuel (before ++ joined codes) (length before) remove result
      ≡ some (ok (result ++ expected remove items codes, length (before ++ joined codes)))
unfolding items_loop
items_loop-AreItems zero before items codes remove result a h = absurd (omega arith)
items_loop-AreItems (suc fuel) before [] [] remove result a h =
    ground (arith, append-nil before, append-nil result)
items_loop-AreItems (suc fuel) before (item ∷ items) [] remove result a h = absurd a
items_loop-AreItems (suc fuel) before [] (code ∷ codes) remove result a h = absurd a
items_loop-AreItems (suc fuel) before ((kind, payload) ∷ items) (code ∷ codes) remove result a h =
    let i = a.0 in
    let again = removes_from kind remove in
    let item = if again then payload else code in
    let rest = joined codes in
    let consumed : consume_length_prefix (before ++ (code ++ rest)) (length before)
        ≡ ok (kind, i.len, length before + i.end) =
      consume_length_prefix-moved before (code ++ rest)
      ∙ ap (moved (length before)) (i.consumed rest) in
    let inside : ltb (length before) (length (before ++ (code ++ rest))) ≡ true =
      ground (arith, length-append before (code ++ rest), length-append code rest, i.positive) in
    let end : length before + i.end + i.len ≡ length (before ++ code) =
      omega (arith, length-append before code, i.whole) in
    let sliced : slice (length before) (length (before ++ code)) (before ++ (code ++ rest)) ≡ code =
      slice_code before code rest in
    rw
      (
        inside,
        consumed,
        end,
        sliced,
        item_of-IsItem again kind payload code i,
        end,
        expected-removes_from remove kind payload code items codes,
      )
      (subst
        (λ xs.
          items_loop fuel xs (length (before ++ code)) again (result ++ (item ∷ []))
          ≡ some (ok (result ++ (item ∷ expected again items codes), length xs)))
        (append_assoc before code rest)
        (subst
          (λ ys.
            items_loop fuel ((before ++ code) ++ rest) (length (before ++ code)) again
              (result ++ (item ∷ []))
            ≡ some (ok (ys, length ((before ++ code) ++ rest))))
          (append_assoc result (item ∷ []) (expected again items codes))
          (items_loop-AreItems fuel (before ++ code) items codes again (result ++ (item ∷ [])) a.1
            (omega arith))))
  where
    slice_code :
        (before code rest : Bytes)
        → slice (length before) (length (before ++ code)) (before ++ (code ++ rest)) ≡ code
    slice_code before code rest =
        let e : length before + 0 ≡ length before = omega arith in
        let f : length before + length code ≡ length (before ++ code) =
          omega (arith, length-append before code) in
        rw (← f) (
          ap (λ k. slice k (length before + length code) (before ++ (code ++ rest))) (sym e)
          ∙ (slice-behind before (code ++ rest) 0 (length code) ∙ take-append_self code rest))

length-joined :
    (items : List (Kind × Bytes)) (codes : List Bytes)
    → AreItems items codes
    → length codes ≤ length (joined codes)
length-joined [] [] a = omega arith
length-joined (item ∷ items) [] a = absurd a
length-joined [] (code ∷ codes) a = absurd a
length-joined ((kind, payload) ∷ items) (code ∷ codes) a =
    let i = a.0 in
    omega (arith, length-append code (joined codes), i.positive, length-joined items codes a.1)

get_list_items_bytes-items_loop :
    (list_bytes : Bytes) (remove : Bool) (result : List Bytes)
    → items_loop (suc (length list_bytes)) list_bytes 0 remove []
      ≡ some (ok (result, length list_bytes))
    → get_list_items_bytes list_bytes remove ≡ some (ok result)
unfolding get_list_items_bytes
get_list_items_bytes-items_loop list_bytes remove result run = ground (arith, run)

-- A list of items that are each shorter than 256 ** 8 bytes can be encoded, and what is read from it is, in
-- order, the payload of each item where the prefixes are to be removed; where they are not, the encoded
-- items up to the first string, and the payloads from it on.
pub get_list_items_bytes-encode_items :
    (remove : Bool) (items : List (Kind × Bytes))
    → AllShort items
    → (codes : List Bytes) × (encode_items items ≡ ok codes)
      × (get_list_items_bytes (joined codes) remove ≡ some (ok (expected remove items codes)))
get_list_items_bytes-encode_items remove items h =
    let (codes, made, a) = encode_items-AreItems items h in
    (
      codes,
      made,
      get_list_items_bytes-items_loop (joined codes) remove (expected remove items codes) (
          items_loop-AreItems (suc (length (joined codes))) [] items codes remove [] a
            (omega (arith, length-joined items codes a))),
    )
