-- ===== src/Transactions/SafeKey.antt =====
-- `remove_transaction_by_key` of `TransactionService`, on a valid service.
use mathlib.Core.Path.{subst}
use bxcommon.Prelude.Dict.{lookup, erase}
use bxcommon.Prelude.Result.{ok}
use bxcommon.Prelude.{
  ℕ, ◌≡◌, sym, ◌∙◌, ap, Bool, not, ◌&&◌, Option, none, some, List, arith, inl, inr, Option-cases,
  Bool-cases,
}
use bxcommon.Transactions.Core.{
  core, drop_core, unmap, unmap-Unmapped, core-drop_contents, core-forget_short_ids,
}
use bxcommon.Transactions.Safe.{Kept, drop-Kept, reduce_flags_of_good, Kept-refl}
use bxcommon.Transactions.Removal.{
  remove_transaction_by_key, drop_contents, forget_short_ids, is_empty,
}
use bxcommon.Transactions.State.{Service, TransactionKey, is_paid}
use bxcommon.Transactions.Valid.{IsValid, unmap-IsValid}

-- The removal by key, where it goes ahead.
forget_whole :
    (now key : ℕ) (sids : List ℕ) (s : Service)
    → IsValid (core s)
    → lookup key (core s).ids ≡ some sids
    → let s1 : Service = record s {
      tx_cache_key_to_short_ids = erase key s.tx_cache_key_to_short_ids;
    } in
      Kept (core s) (core (drop_contents now key (forget_short_ids now sids s1)))
forget_whole now key sids s v found =
    let s1 : Service = record s {
      tx_cache_key_to_short_ids = erase key s.tx_cache_key_to_short_ids;
    } in
    let u = unmap-Unmapped sids (core s1) in
    let e : core (drop_contents now key (forget_short_ids now sids s1))
        ≡ drop_core key (unmap sids (core s1)) =
      core-drop_contents now key (forget_short_ids now sids s1)
      ∙ ap (drop_core key) (core-forget_short_ids now sids s1) in
    subst (Kept (core s)) (sym e) (
      drop-Kept key (core s) (unmap sids (core s1)) (record {
        valid =
            unmap-IsValid key sids (core s) (unmap sids (core s1)) v found
              (λ j k h. ground (arith, u.mapped j)) u.same_contents u.same_total u.same_ids;
        shorter = u.shorter;
        same_limit = u.same_limit;
      }))

-- On a valid service `remove_transaction_by_key` raises nothing, and the service stays valid; the
-- assignment queue does not grow, and the memory limit stays.
pub remove_transaction_by_key_keeps :
    (now : ℕ) (tx : TransactionKey) (force assume_no_sid : Bool) (s : Service)
    → IsValid (core s)
    → (r : Option (List ℕ)) × (s' : Service) × (remove_transaction_by_key now tx force assume_no_sid
          s
        ≡ ok (r, s'))
      × Kept (core s) (core s')
unfolding remove_transaction_by_key
remove_transaction_by_key_keeps now tx force assume_no_sid s v =
    let key = tx.transaction_cache_key in
    elim (Option-cases (lookup key s.tx_cache_key_to_short_ids)) [
      | inl unknown ↦ (
        none,
        drop_contents now key s,
        ground arith,
        subst (Kept (core s)) (sym (core-drop_contents now key s))
            (drop-Kept key (core s) (core s) (Kept-refl (core s) v)),
      )
      | inr (sids, found) ↦
          let (flag, reduced) = reduce_flags_of_good s sids (v.sets key sids found) in
          let s1 : Service = record s {
            tx_cache_key_to_short_ids = erase key s.tx_cache_key_to_short_ids;
          } in
          elim (Bool-cases (assume_no_sid && not (is_empty sids))) [
            | inl has ↦ (none, s, ground arith, Kept-refl (core s) v)
            | inr goes ↦ elim (Bool-cases (is_paid flag && not force)) [
              | inl paid ↦ (none, s, ground arith, Kept-refl (core s) v)
              | inr free ↦ (
                some sids,
                drop_contents now key (forget_short_ids now sids s1),
                ground arith,
                forget_whole now key sids s v found,
              )
            ]
          ]
    ]
