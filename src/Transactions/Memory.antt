-- ===== src/Transactions/Memory.antt =====
-- The memory limit of `TransactionService`: `_memory_limit_clean_up` and the methods that call it.
use bxcommon.Expiration.Defs.{remove_oldest}
use bxcommon.Prelude.Dict.{Dict}
use bxcommon.Prelude.Result.{ok}
use bxcommon.Prelude.{
  ℕ, zero, suc, ◌≤◌, ◌≡◌, ◌⊎◌, refl, ◌∙◌, ap, true, false, some, [], ◌∷◌, length, arith, inl, inr,
  Bool-cases, List-cases,
}
use bxcommon.Transactions.Assign.{
  is_exceeding_memory_limit, clean_up_loop, clean_up_rest, is_empty_dict, memory_limit_clean_up,
}
use bxcommon.Transactions.Core.{core}
use bxcommon.Transactions.Removal.{clear, remove_transaction_by_short_id}
use bxcommon.Transactions.Safe.{remove_transaction_by_short_id_keeps}
use bxcommon.Transactions.State.{Service, assignments}
use bxcommon.Transactions.Valid.{IsValid, size, requeue-IsValid}

-- The loop ends for one of its two tests.
abbrev Ended : Service → Type 0
Ended s = (is_exceeding_memory_limit s ≡ false) ⊎ (s.tx_assignment_expire_queue.queue ≡ [])

abbrev with_queue : Dict ℕ → Service → Service
with_queue rest s = record s {
  tx_assignment_expire_queue = record (s.tx_assignment_expire_queue) { queue = rest };
}

with_queue-IsValid :
    (rest : Dict ℕ) (s : Service) → IsValid (core s) → IsValid (core (with_queue rest s))
with_queue-IsValid rest s v = requeue-IsValid rest (core s) v

remove_oldest-assignments :
    (now item time : ℕ) (rest : Dict ℕ) (s : Service)
    → s.tx_assignment_expire_queue.queue ≡ (item, time) ∷ rest
    → remove_oldest assignments (some (λ sid. remove_transaction_by_short_id now sid false true)) s
      ≡ remove_transaction_by_short_id now item false true (with_queue rest s)
unfolding remove_oldest
remove_oldest-assignments now item time rest s e = rw (e, remove_oldest)

clean_up_step :
    (now fuel count item time : ℕ) (rest : Dict ℕ) (s s' s'' : Service)
    → s.tx_assignment_expire_queue.queue ≡ (item, time) ∷ rest
    → is_exceeding_memory_limit s ≡ true
    → remove_transaction_by_short_id now item false true (with_queue rest s) ≡ ok s'
    → clean_up_loop now fuel s' ≡ ok (count, s'')
    → clean_up_loop now (suc fuel) s ≡ ok (suc count, s'')
unfolding clean_up_loop
clean_up_step now fuel count item time rest s s' s'' e more run again =
    ground (arith, remove_oldest-assignments now item time rest s e)

clean_up_loop_lem :
    (now fuel : ℕ) (s : Service)
    → IsValid (core s)
    → length s.tx_assignment_expire_queue.queue ≤ fuel
    → (count : ℕ) × (s' : Service) × (clean_up_loop now fuel s ≡ ok (count, s'))
      × IsValid (core s')
      × (s'.opts.tx_content_memory_limit ≡ s.opts.tx_content_memory_limit)
      × Ended s'
unfolding clean_up_loop
clean_up_loop_lem now zero s v enough = elim (List-cases s.tx_assignment_expire_queue.queue) [
  | inl done ↦ (0, s, refl, v, refl, inr done)
  | inr (e, rest, some_left) ↦ absurd (omega (arith, ap length some_left))
]
clean_up_loop_lem now (suc fuel) s v enough = elim (List-cases s.tx_assignment_expire_queue.queue) [
  | inl done ↦ (0, s, ground arith, v, refl, inr done)
  | inr ((item, time), rest, left) ↦ elim (Bool-cases (is_exceeding_memory_limit s)) [
    | inr below ↦ (0, s, ground arith, v, refl, inl below)
    | inl more ↦
        let (s', run, k) =
          remove_transaction_by_short_id_keeps now item false true (with_queue rest s)
            (with_queue-IsValid rest s v) in
        let (count, s'', again, v'', limit, ended) =
          clean_up_loop_lem now fuel s' k.valid (omega (arith, k.shorter, ap length left)) in
        (
          suc count,
          s'',
          clean_up_step now fuel count item time rest s s' s'' left more run again,
          v'',
          limit ∙ k.same_limit,
          ended,
        )
  ]
]

-- What the clean-up leaves: a valid service whose contents fit the limit.
pub record Fits (s s' : Service) : Type 0 where
  pub valid : IsValid (core s')
  pub same_limit : s'.opts.tx_content_memory_limit ≡ s.opts.tx_content_memory_limit
  pub within : size s'.tx_cache_key_to_contents ≤ s.opts.tx_content_memory_limit

within_of_below :
    (s : Service)
    → IsValid (core s)
    → is_exceeding_memory_limit s ≡ false
    → size s.tx_cache_key_to_contents ≤ s.opts.tx_content_memory_limit
unfolding is_exceeding_memory_limit
within_of_below s v below = ground (arith, v.counted)

clear-Fits :
    (n : ℕ) (s : Service) → Fits s (record (clear s) { total_tx_removed_by_memory_limit = n })
unfolding clear
clear-Fits n s = record {
  valid = record {
    linked = λ sid key e. ground arith;
    sets = λ key sids e. ground arith;
    distinct = tt;
    counted = refl;
  };
  same_limit = refl;
  within = omega arith;
}

clean_up_rest-Fits :
    (removed : ℕ) (s : Service) → IsValid (core s) → Ended s → Fits s (clean_up_rest removed s)
unfolding clean_up_rest
clean_up_rest-Fits removed s v ended = elim (Bool-cases (is_exceeding_memory_limit s)) [
  | inr below ↦ rw below (record {
    valid = record { linked = v.linked; sets = v.sets; distinct = v.distinct; counted = v.counted };
    same_limit = refl;
    within = within_of_below s v below;
  })
  | inl more ↦
      let nothing_left : is_empty_dict s.tx_assignment_expire_queue.queue ≡ true = elim ended [
        | inl b ↦ cc
        | inr e ↦ rw e
      ] in
      rw (more, nothing_left) (clear-Fits _ s)
]

-- On a valid service the clean-up ends, raises nothing, and leaves a valid service whose contents
-- take no more bytes than the memory limit.
pub memory_limit_clean_up-Fits :
    (now : ℕ) (s : Service)
    → IsValid (core s)
    → (s' : Service) × (memory_limit_clean_up now s ≡ ok s') × Fits s s'
unfolding memory_limit_clean_up
memory_limit_clean_up-Fits now s v = elim (Bool-cases (is_exceeding_memory_limit s)) [
  | inr below ↦ (
    s,
    rw (below, memory_limit_clean_up),
    record { valid = v; same_limit = refl; within = within_of_below s v below },
  )
  | inl more ↦
      let (count, s', run, v', limit, ended) =
        clean_up_loop_lem now (length s.tx_assignment_expire_queue.queue) s v (omega arith) in
      let f = clean_up_rest-Fits count s' v' ended in
      (
        clean_up_rest count s',
        ground arith,
        record {
          valid = f.valid;
          same_limit = f.same_limit ∙ limit;
          within = omega (arith, f.within, limit);
        },
      )
]
