-- ===== src/Transactions/Safe.antt =====
-- `remove_transaction_by_short_id` of `TransactionService`, on a valid service.
use Prim.Native.Nat.{bit_or}
use mathlib.Core.Path.{subst}
use bxcommon.Prelude.Dict.{lookup, erase, insert, lookup-erase, length-erase-le}
use bxcommon.Prelude.Result.{ok}
use bxcommon.Prelude.Sets.{elem, discard}
use bxcommon.Prelude.{
  ℕ, ◌≤◌, ◌≡◌, ◌≢◌, refl, sym, ◌∙◌, ap, Bool, true, false, not, ◌&&◌, ◌||◌, some, List, [], ◌∷◌,
  map, ◌==◌, length, arith, inl, inr, Option-cases, Bool-cases,
}
use bxcommon.Transactions.Core.{
  Core, core, drop_core, unmap, others, elem-others, unmap-Unmapped, core-drop_contents,
  core-forget_all_related,
}
use bxcommon.Transactions.Removal.{
  remove_transaction_by_short_id, clear_mapping, unmap_short_id, dequeue, drop_contents,
  forget_all_related,
}
use bxcommon.Transactions.State.{Service, is_paid, reduce_flags, flag_at}
use bxcommon.Transactions.Valid.{IsValid, GoodSet, drop-IsValid, unmap-IsValid, discard-IsValid}

-- What every removal gives.
pub record Kept (c c' : Core) : Type 0 where
  pub valid : IsValid c'
  pub shorter : length c'.queue ≤ length c.queue
  pub same_limit : c'.limit ≡ c.limit

abbrev drop_ids : ℕ → Core → Core
drop_ids key c = record c { ids = erase key c.ids }

pub drop_ids-drop_core :
    (key : ℕ) (c : Core) → drop_ids key (drop_core key c) ≡ drop_core key (drop_ids key c)
drop_ids-drop_core key c = ground arith

pub drop-Kept : (key : ℕ) (c c' : Core) → Kept c c' → Kept c (drop_core key c')
drop-Kept key c c' k = elim (Option-cases (lookup key c'.contents)) [
  | inl missing ↦ rw (missing, drop_core) k
  | inr (b, found) ↦
      let v = drop-IsValid key c' k.valid in
      rw (found, drop_core)
        (record {
          valid = rw (found, drop_core) at v;
          shorter = k.shorter;
          same_limit = k.same_limit;
        })
]

reduce_flags_total : (f : ℕ) (fs : List ℕ) → (r : ℕ) × (reduce_flags (f ∷ fs) ≡ ok r)
unfolding reduce_flags
reduce_flags_total f [] = (f, refl)
reduce_flags_total f (g ∷ fs) = reduce_flags_total (bit_or f g) fs

pub reduce_flags_of_good :
    (s : Service) (sids : List ℕ)
    → GoodSet sids
    → (r : ℕ) × (reduce_flags (map (flag_at s) sids) ≡ ok r)
reduce_flags_of_good s [] good = absurd (good.0 refl)
reduce_flags_of_good s (x ∷ xs) good = reduce_flags_total (flag_at s x) (map (flag_at s) xs)

-- The whole of a transaction goes: its set, its contents, and of the mapping at least what is in
-- the set.
pub whole-Kept :
    (key : ℕ) (sids gone : List ℕ) (c c1 : Core)
    → IsValid c
    → lookup key c.ids ≡ some sids
    → ((j k : ℕ)
        → lookup j (unmap gone c1).keys ≡ some k
        → (elem j sids ≡ false) × (lookup j c.keys ≡ some k))
    → (c1.contents ≡ c.contents)
      × (c1.total ≡ c.total)
      × (c1.ids ≡ c.ids)
      × (c1.queue ≡ c.queue)
      × (c1.limit ≡ c.limit)
    → Kept c (drop_core key (drop_ids key (unmap gone c1)))
whole-Kept key sids gone c c1 v found keys (e1, e2, e3, e4, e5) =
    let u = unmap-Unmapped gone c1 in
    drop-Kept key c (drop_ids key (unmap gone c1)) (record {
      valid =
          unmap-IsValid key sids c (drop_ids key (unmap gone c1)) v found keys
            (u.same_contents ∙ e1) (u.same_total ∙ e2) (ap (erase key) (u.same_ids ∙ e3));
      shorter = omega (arith, u.shorter, ap length e4);
      same_limit = u.same_limit ∙ e5;
    })

-- `clear_mapping` on the branch where all of the transaction goes.
clear_whole :
    (now sid key : ℕ) (sids : List ℕ) (s : Service)
    → IsValid (core s)
    → lookup key (core s).ids ≡ some sids
    → let s1 = forget_all_related now sid sids (unmap_short_id now sid s) in
      Kept (core s) (drop_ids key (core (drop_contents now key s1)))
unfolding unmap_short_id
clear_whole now sid key sids s v found =
    let s0 = unmap_short_id now sid s in
    let s1 = forget_all_related now sid sids s0 in
    let gone = others sid sids in
    let u = unmap-Unmapped gone (core s0) in
    let whole : drop_ids key (core (drop_contents now key s1))
        ≡ drop_core key (drop_ids key (unmap gone (core s0))) =
      ap (drop_ids key) (
        core-drop_contents now key s1
        ∙ ap (drop_core key) (core-forget_all_related now sid sids s0))
      ∙ drop_ids-drop_core key (unmap gone (core s0)) in
    subst (Kept (core s)) (sym whole) (
      whole-Kept key sids gone (core s) (core s0) v found
        (λ j k e.
          ground (arith, u.mapped j, lookup-erase sid j (core s).keys, elem-others sid j sids))
        (refl, refl, refl, refl, refl))

-- `clear_mapping` on the branch where one short id of several goes.
clear_one :
    (now sid key : ℕ) (sids : List ℕ) (s : Service)
    → IsValid (core s)
    → lookup sid (core s).keys ≡ some key
    → lookup key (core s).ids ≡ some sids
    → length sids ≢ 1
    → let c = core (unmap_short_id now sid s) in
      Kept (core s) (record c { ids = insert key (discard sid sids) c.ids })
unfolding unmap_short_id
clear_one now sid key sids s v mapped found many = record {
  valid = discard-IsValid key sid sids (core s) v mapped found many;
  shorter = omega arith;
  same_limit = refl;
}

clear_mapping-Kept :
    (now sid key : ℕ) (sids : List ℕ) (related : Bool) (s : Service)
    → IsValid (core s)
    → lookup sid (core s).keys ≡ some key
    → lookup key (core s).ids ≡ some sids
    → (s' : Service) × (clear_mapping now sid key sids related (unmap_short_id now sid s) ≡ ok s')
      × Kept (core s) (core s')
unfolding clear_mapping
clear_mapping-Kept now sid key sids related s v mapped found =
    let s0 = unmap_short_id now sid s in
    let s2 = drop_contents now key (forget_all_related now sid sids s0) in
    elim (Bool-cases ((length sids == 1) || related)) [
      | inl all ↦ (
        record s2 { tx_cache_key_to_short_ids = erase key s2.tx_cache_key_to_short_ids },
        ground arith,
        clear_whole now sid key sids s v found,
      )
      | inr one ↦
          let is_in : elem sid sids ≡ true = ground (arith, v.linked sid key mapped) in
          (
            record s0 {
              tx_cache_key_to_short_ids =
                  insert key (discard sid sids) s0.tx_cache_key_to_short_ids;
            },
            ground arith,
            clear_one now sid key sids s v mapped found (ground arith),
          )
    ]

pub dequeue-Kept :
    (sid : ℕ) (c : Core) (s : Service) → Kept c (core s) → Kept c (core (dequeue sid s))
unfolding dequeue
dequeue-Kept sid c s k = record {
  valid = record {
    linked = k.valid.linked;
    sets = k.valid.sets;
    distinct = k.valid.distinct;
    counted = k.valid.counted;
  };
  shorter = omega (arith, k.shorter, length-erase-le sid s.tx_assignment_expire_queue.queue);
  same_limit = k.same_limit;
}

pub Kept-refl : (c : Core) → IsValid c → Kept c c
Kept-refl c v = record { valid = v; shorter = omega arith; same_limit = refl }

-- On a valid service `remove_transaction_by_short_id` raises nothing, on any of its branches, and
-- the service stays valid; the assignment queue does not grow, and the memory limit stays.
pub remove_transaction_by_short_id_keeps :
    (now sid : ℕ) (related force : Bool) (s : Service)
    → IsValid (core s)
    → (s' : Service) × (remove_transaction_by_short_id now sid related force s ≡ ok s')
      × Kept (core s) (core s')
unfolding remove_transaction_by_short_id
remove_transaction_by_short_id_keeps now sid related force s v =
    elim (Option-cases (lookup sid s.short_id_to_tx_cache_key)) [
      | inl unknown ↦ (
        dequeue sid s,
        rw (unknown, remove_transaction_by_short_id),
        dequeue-Kept sid (core s) s (Kept-refl (core s) v),
      )
      | inr (key, mapped) ↦ elim (Option-cases (lookup key s.tx_cache_key_to_short_ids)) [
        | inl missing ↦ absurd (ground (arith, v.linked sid key mapped))
        | inr (sids, found) ↦
            let (flag, reduced) = reduce_flags_of_good s sids (v.sets key sids found) in
            elim (Bool-cases (is_paid flag && not force)) [
              | inl paid ↦ (s, ground arith, Kept-refl (core s) v)
              | inr free ↦
                  let (s', run, k) = clear_mapping-Kept now sid key sids related s v mapped found in
                  (dequeue sid s', ground arith, dequeue-Kept sid (core s) s' k)
            ]
      ]
    ]
