-- ===== src/Buffers/Tracker/Pending.antt =====
-- The bytes that a `MessageTracker` still waits for, and the methods that change them.
use mathlib.Core.Path.{subst}
use bxcommon.Prelude.Int.{pos, ◌-ℤ◌}
use bxcommon.Prelude.{
  ℕ, ◌+◌, ◌-◌, ◌≤◌, ◌<◌, ◌≡◌, refl, sym, ap, ◌∙◌, true, Option, none, some, List, [], ◌∷◌, ◌++◌,
  leb, ◌==◌, arith, Bool-cases, inl, inr,
}
use bxcommon.Buffers.Tracker.{
  MessageKind, MessageTrackerEntry, MessageTracker, new_entry, send_bytes, send_count,
  advance_bytes, append_message, place_before, prepend_message,
}

-- The bytes of the entries that are not sent.
abbrev pub pending : List MessageTrackerEntry → ℕ
pending [] = 0
pending (entry ∷ entries) = (entry.length - entry.sent_bytes) + pending entries

-- No entry has sent more than its length.
abbrev pub AreWithin : List MessageTrackerEntry → Type 0
AreWithin [] = Unit
AreWithin (entry ∷ entries) = (entry.sent_bytes ≤ entry.length) × AreWithin entries

-- And the bytes remaining are those pending.
pub record IsValid (t : MessageTracker) : Type 0 where
  pub within : AreWithin t.messages
  pub counted : t.bytes_remaining ≡ pos (pending t.messages)

-- Enough entries for the bytes: they are taken off the front.
send_bytes-pending :
    (now n : ℕ) (entries : List MessageTrackerEntry)
    → AreWithin entries
    → n ≤ pending entries
    → (left : List MessageTrackerEntry) × (send_bytes now n entries ≡ some left)
      × AreWithin left
      × (pending left ≡ pending entries - n)
unfolding send_bytes
send_bytes-pending now n [] w h = ([], ground arith, tt, omega arith)
send_bytes-pending now n (e ∷ es) w h = elim (Bool-cases (n == 0)) [
  | inl done ↦ (e ∷ es, ground arith, w, ground arith)
  | inr more ↦ elim (Bool-cases (leb e.length (n + e.sent_bytes))) [
    | inl whole ↦
        let (left, run, w', p) =
          send_bytes-pending now (n + e.sent_bytes - e.length) es w.1 (ground arith) in
        (left, ground (arith, run), w', ground (arith, p))
    | inr part ↦ (
      record e { sent_bytes = e.sent_bytes + n; last_operation_time = now } ∷ es,
      ground arith,
      (ground arith, w.1),
      ground arith,
    )
  ]
]

-- Too few.
send_bytes_short :
    (now n : ℕ) (entries : List MessageTrackerEntry)
    → AreWithin entries
    → pending entries < n
    → send_bytes now n entries ≡ none
unfolding send_bytes
send_bytes_short now n [] w h = ground arith
send_bytes_short now n (e ∷ es) w h =
    ground (arith, send_bytes_short now (n + e.sent_bytes - e.length) es w.1)

-- Sent bytes are taken off a tracker that works, as far as it has any pending; where more are sent
-- than it has, it starts anew, with nothing pending. It stays valid.
pub advance_bytes-IsValid :
    (now n : ℕ) (t : MessageTracker)
    → IsValid t
    → t.is_working ≡ true
    → IsValid (advance_bytes now (pos n) t)
      × (pending (advance_bytes now (pos n) t).messages ≡ pending t.messages - n)
unfolding advance_bytes send_count
advance_bytes-IsValid now n t v works = elim (Bool-cases (leb n (pending t.messages))) [
  | inl enough ↦
      let (left, run, w, p) = send_bytes-pending now n t.messages v.within (ground arith) in
      let t' : MessageTracker = record t {
        messages = left;
        bytes_remaining = t.bytes_remaining -ℤ pos n;
      } in
      let same : advance_bytes now (pos n) t ≡ t' = ground (arith, run, works) in
      (
        subst IsValid (sym same) (record { within = w; counted = ground (arith, v.counted, p) }),
        ap (λ s. pending s.messages) same ∙ p,
      )
  | inr short ↦
      let run = send_bytes_short now n t.messages v.within (ground arith) in
      let t' : MessageTracker = record t { messages = []; bytes_remaining = pos 0 } in
      let same : advance_bytes now (pos n) t ≡ t' = ground (arith, run, works) in
      (
        subst IsValid (sym same) (record { within = tt; counted = refl }),
        ap (λ s. pending s.messages) same ∙ ground arith,
      )
]

pub pending-append :
    (xs ys : List MessageTrackerEntry) → pending (xs ++ ys) ≡ pending xs + pending ys
pending-append [] ys = omega arith
pending-append (x ∷ xs) ys = omega (arith, pending-append xs ys)

within-append :
    (xs ys : List MessageTrackerEntry) → AreWithin xs → AreWithin ys → AreWithin (xs ++ ys)
within-append [] ys h k = k
within-append (x ∷ xs) ys h k = (h.0, within-append xs ys h.1 k)

-- A message of `n` bytes makes `n` more bytes pending, in a tracker that works, wherever it goes.
pub append_message-IsValid :
    (now n : ℕ) (message : Option MessageKind) (label : Option ℕ) (t : MessageTracker)
    → IsValid t
    → t.is_working ≡ true
    → IsValid (append_message now n message label t)
      × (pending (append_message now n message label t).messages ≡ pending t.messages + n)
unfolding append_message new_entry
append_message-IsValid now n message label t v works =
    let more = pending-append t.messages (new_entry now n message label ∷ []) in
    rw works (
      record {
        within =
            within-append t.messages (new_entry now n message label ∷ []) v.within
              (omega arith, tt);
        counted = ground (arith, v.counted, more);
      },
      ground (arith, more),
    )

place_before-pending :
    (new : MessageTrackerEntry) (entries : List MessageTrackerEntry)
    → AreWithin entries
    → new.sent_bytes ≤ new.length
    → AreWithin (place_before new entries)
      × (pending (place_before new entries) ≡ pending entries + (new.length - new.sent_bytes))
unfolding place_before
place_before-pending new [] w h = ((h, tt), omega arith)
place_before-pending new (first ∷ rest) w h = elim (Bool-cases (first.sent_bytes == 0)) [
  | inl fresh ↦ rw fresh (
    within-append (first ∷ rest) (new ∷ []) w (h, tt),
    omega (arith, pending-append (first ∷ rest) (new ∷ [])),
  )
  | inr begun ↦ rw begun ((w.0, (h, w.1)), omega arith)
]

pub prepend_message-IsValid :
    (now n : ℕ) (message : Option MessageKind) (label : Option ℕ) (t : MessageTracker)
    → IsValid t
    → t.is_working ≡ true
    → IsValid (prepend_message now n message label t)
      × (pending (prepend_message now n message label t).messages ≡ pending t.messages + n)
unfolding prepend_message new_entry
prepend_message-IsValid now n message label t v works =
    let (w, more) =
      place_before-pending (new_entry now n message label) t.messages v.within (omega arith) in
    rw works
      (record { within = w; counted = ground (arith, v.counted, more) }, ground (arith, more))

-- In a tracker whose first message is not begun, `prepend_message` does what `append_message` does:
-- the message goes behind all the others.
pub prepend_message_appends :
    (now n : ℕ) (message : Option MessageKind) (label : Option ℕ) (first : MessageTrackerEntry)
    (rest : List MessageTrackerEntry) (t : MessageTracker)
    → t.messages ≡ first ∷ rest
    → first.sent_bytes ≡ 0
    → prepend_message now n message label t ≡ append_message now n message label t
unfolding prepend_message append_message place_before
prepend_message_appends now n message label first rest t e fresh = ground (arith, e, fresh)
