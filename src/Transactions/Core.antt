-- ===== src/Transactions/Core.antt =====
-- The part of the service that the invariants speak of, and the effect of each method on it.
use bxcommon.Prelude.Dict.{Dict, lookup, erase, lookup-erase, length-erase-le}
use bxcommon.Prelude.Int.{ℤ, pos, ◌-ℤ◌}
use bxcommon.Prelude.Sets.{elem}
use bxcommon.Prelude.{
  ℕ, ◌≤◌, ◌≢◌, ◌≡◌, refl, none, some, List, [], ◌∷◌, ◌==◌, length, if◌then◌else◌, arith,
}
use bxcommon.Transactions.Removal.{
  dequeue, drop_contents, forget_short_id, forget_short_ids, forget_related, forget_all_related,
  unmap_short_id,
}
use bxcommon.Transactions.State.{Service, Bytes}

pub record Core : Type 0 where
  pub ids : Dict (List ℕ)
  pub keys : Dict ℕ
  pub contents : Dict Bytes
  pub total : ℤ
  pub queue : Dict ℕ
  pub limit : ℕ

abbrev pub core : Service → Core
core s = record {
  ids = s.tx_cache_key_to_short_ids;
  keys = s.short_id_to_tx_cache_key;
  contents = s.tx_cache_key_to_contents;
  total = s.total_tx_contents_size;
  queue = s.tx_assignment_expire_queue.queue;
  limit = s.opts.tx_content_memory_limit;
}

abbrev pub drop_core : ℕ → Core → Core
drop_core key c = elim (lookup key c.contents) [
  | none ↦ c
  | some b ↦ record c { total = c.total -ℤ pos (length b); contents = erase key c.contents }
]

abbrev pub unmap_one : ℕ → Core → Core
unmap_one sid c = record c { keys = erase sid c.keys; queue = erase sid c.queue }

abbrev pub unmap : List ℕ → Core → Core
unmap [] c = c
unmap (sid ∷ sids) c = unmap sids (unmap_one sid c)

-- The short ids other than `sid`.
abbrev pub others : ℕ → List ℕ → List ℕ
others sid [] = []
others sid (d ∷ ds) = let rest = others sid ds in if d == sid then rest else d ∷ rest

pub core-drop_contents :
    (now key : ℕ) (s : Service) → core (drop_contents now key s) ≡ drop_core key (core s)
unfolding drop_contents
core-drop_contents now key s = ground arith

pub core-forget_short_ids :
    (now : ℕ) (sids : List ℕ) (s : Service)
    → core (forget_short_ids now sids s) ≡ unmap sids (core s)
unfolding forget_short_ids forget_short_id
core-forget_short_ids now [] s = refl
core-forget_short_ids now (sid ∷ sids) s =
    core-forget_short_ids now sids (forget_short_id now sid s)

pub core-forget_all_related :
    (now sid : ℕ) (sids : List ℕ) (s : Service)
    → core (forget_all_related now sid sids s) ≡ unmap (others sid sids) (core s)
unfolding forget_all_related forget_related
core-forget_all_related now sid [] s = refl
core-forget_all_related now sid (dup ∷ sids) s =
    ground (arith, core-forget_all_related now sid sids (forget_related now sid dup s))

pub core-unmap_short_id :
    (now sid : ℕ) (s : Service)
    → core (unmap_short_id now sid s) ≡ record (core s) { keys = erase sid (core s).keys }
unfolding unmap_short_id
core-unmap_short_id now sid s = refl

pub core-dequeue :
    (sid : ℕ) (s : Service)
    → core (dequeue sid s) ≡ record (core s) { queue = erase sid (core s).queue }
unfolding dequeue
core-dequeue sid s = refl

pub elem-others : (sid j : ℕ) (sids : List ℕ) → j ≢ sid → elem j (others sid sids) ≡ elem j sids
elem-others sid j [] h = refl
elem-others sid j (d ∷ ds) h = ground (arith, elem-others sid j ds h)

-- What `unmap` leaves alone, and the mapping that it leaves.
pub record Unmapped (sids : List ℕ) (c c' : Core) : Type 0 where
  pub same_ids : c'.ids ≡ c.ids
  pub same_contents : c'.contents ≡ c.contents
  pub same_total : c'.total ≡ c.total
  pub same_limit : c'.limit ≡ c.limit
  pub mapped : (j : ℕ) → lookup j c'.keys ≡ (if elem j sids then none else lookup j c.keys)
  pub shorter : length c'.queue ≤ length c.queue

pub unmap-Unmapped : (sids : List ℕ) (c : Core) → Unmapped sids c (unmap sids c)
unmap-Unmapped [] c = record {
  same_ids = refl;
  same_contents = refl;
  same_total = refl;
  same_limit = refl;
  mapped = λ j. refl;
  shorter = omega arith;
}
unmap-Unmapped (sid ∷ sids) c =
    let u = unmap-Unmapped sids (unmap_one sid c) in
    record {
      same_ids = u.same_ids;
      same_contents = u.same_contents;
      same_total = u.same_total;
      same_limit = u.same_limit;
      mapped = λ j. ground (arith, u.mapped j, lookup-erase sid j c.keys);
      shorter = omega (arith, u.shorter, length-erase-le sid c.queue);
    }
