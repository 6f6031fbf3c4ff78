-- ===== src/Buffers/Tracker/Emptied.antt =====
-- Emptying a message tracker behind a number of bytes.
use bxcommon.Prelude.Int.{pos}
use bxcommon.Prelude.Result.{ok, err, index_error}
use bxcommon.Prelude.{
  ℕ, zero, suc, ◌+◌, ◌-◌, ◌≤◌, ◌<◌, ◌≡◌, ◌⊎◌, refl, ap, ◌∙◌, List, [], ◌∷◌, ltb, ◌==◌, take, drop,
  arith, Bool-cases, inl, inr,
}
use bxcommon.Buffers.Tracker.Pending.{pending, AreWithin, IsValid}
use bxcommon.Buffers.Tracker.{
  MessageTrackerEntry, MessageTracker, count_skipped, take_off, remove_from, empty_bytes,
}

-- `take_off` takes what is pending.
take_off-pending :
    (n : ℕ) (entries : List MessageTrackerEntry)
    → pending entries ≤ n
    → take_off (pos n) entries ≡ pos (n - pending entries)
unfolding take_off
take_off-pending n [] h = ap pos (omega arith)
take_off-pending n (e ∷ es) h =
    let later : take_off (pos n) es ≡ pos (n - pending es) = take_off-pending n es (omega arith) in
    rw later (ground arith)

-- How many entries stay: they have at most the bytes to skip, and with one more they had more, or
-- these are all.
count_skipped_lem :
    (skipped skip : ℕ) (entry : MessageTrackerEntry) (entries : List MessageTrackerEntry)
    → skipped ≤ skip
    → skip ≤ skipped + pending (entry ∷ entries)
    → (k : ℕ) × (count_skipped skipped skip (entry ∷ entries) ≡ ok k)
      × (skipped + pending (take k (entry ∷ entries)) ≤ skip)
      × ((skipped + pending (take k (entry ∷ entries)) ≡ skip)
          ⊎ (skip < skipped + pending (take (suc k) (entry ∷ entries))))
unfolding count_skipped
count_skipped_lem skipped skip entry [] h enough =
    elim (Bool-cases (skipped + (entry.length - entry.sent_bytes) == skip)) [
      | inl end ↦ (1, ground arith, ground arith, inl (ground arith))
      | inr past ↦ (0, ground arith, omega arith, inr (ground arith))
    ]
count_skipped_lem skipped skip entry (next ∷ more) h enough =
    let s = skipped + (entry.length - entry.sent_bytes) in
    elim (Bool-cases (s == skip)) [
      | inl end ↦ (1, ground arith, ground arith, inl (ground arith))
      | inr other ↦ elim (Bool-cases (ltb skip s)) [
        | inl past ↦ (0, ground arith, omega arith, inr (ground arith))
        | inr before ↦
            let (k, run, below, end) =
              count_skipped_lem s skip next more (ground arith) (ground arith) in
            (
              suc k,
              rw (other, before, run) refl,
              omega (arith, below),
              elim end [ inl e ↦ inl (omega (arith, e)) | inr l ↦ inr (omega (arith, l)) ],
            )
      ]
    ]

count_skipped_short :
    (skipped skip : ℕ) (entries : List MessageTrackerEntry)
    → skipped + pending entries < skip
    → count_skipped skipped skip entries ≡ err index_error
unfolding count_skipped
count_skipped_short skipped skip [] h = refl
count_skipped_short skipped skip (e ∷ es) h =
    ground (arith, count_skipped_short (skipped + (e.length - e.sent_bytes)) skip es)

take_within :
    (k : ℕ) (entries : List MessageTrackerEntry) → AreWithin entries → AreWithin (take k entries)
take_within zero entries w = tt
take_within (suc k) [] w = tt
take_within (suc k) (e ∷ es) w = (w.0, take_within k es w.1)

pending-take :
    (k : ℕ) (entries : List MessageTrackerEntry)
    → pending (take k entries) + pending (drop k entries) ≡ pending entries
pending-take zero entries = omega arith
pending-take (suc k) [] = omega arith
pending-take (suc k) (e ∷ es) = omega (arith, pending-take k es)

remove_from-IsValid : (k : ℕ) (t : MessageTracker) → IsValid t → IsValid (remove_from k t)
unfolding remove_from
remove_from-IsValid k t v =
    let parts = pending-take k t.messages in
    record {
      within = take_within k t.messages v.within;
      counted =
          ap (λ r. take_off r (drop k t.messages)) v.counted
          ∙ take_off-pending (pending t.messages) (drop k t.messages) (omega (arith, parts))
          ∙ ap pos (omega (arith, parts));
    }

-- Emptying a tracker behind bytes that it has pending raises nothing and keeps it valid: first
-- entries stay, whose pending bytes are all to be skipped, and one entry more would be too many,
-- unless they are exactly the bytes to skip.
pub empty_bytes-IsValid :
    (skip : ℕ) (first : MessageTrackerEntry) (rest : List MessageTrackerEntry) (t : MessageTracker)
    → IsValid t
    → t.messages ≡ first ∷ rest
    → skip ≤ pending t.messages
    → (k : ℕ) × (t' : MessageTracker) × (empty_bytes skip t ≡ ok t')
      × IsValid t'
      × (t'.messages ≡ take k t.messages)
      × (pending t'.messages ≤ skip)
      × ((pending t'.messages ≡ skip) ⊎ (skip < pending (take (suc k) t.messages)))
unfolding empty_bytes remove_from
empty_bytes-IsValid skip first rest t v e h =
    let (k, run, below, end) =
      count_skipped_lem 0 skip first rest (omega arith) (omega (arith, ap pending e, h)) in
    let cut : (j : ℕ) → take j t.messages ≡ take j (first ∷ rest) = λ j. ap (take j) e in
    (
      k,
      remove_from k t,
      ground (arith, e, run),
      remove_from-IsValid k t v,
      refl,
      omega (arith, below, ap pending (cut k)),
      elim end [
        | inl exact ↦ inl (omega (arith, exact, ap pending (cut k)))
        | inr more ↦ inr (omega (arith, more, ap pending (cut (suc k))))
      ],
    )

-- Emptying a tracker behind more bytes than it has pending raises the deque's error, unless it has
-- no entry.
pub empty_bytes_short :
    (skip : ℕ) (first : MessageTrackerEntry) (rest : List MessageTrackerEntry) (t : MessageTracker)
    → t.messages ≡ first ∷ rest
    → pending t.messages < skip
    → empty_bytes skip t ≡ err index_error
unfolding empty_bytes
empty_bytes_short skip first rest t e h =
    ground (arith, e, count_skipped_short 0 skip t.messages (omega arith))
