-- ===== src/Operations/Blocks/Order.antt =====
-- The mappings that a chunk adds come after the file's others, and take no slot that is in use.
use django_fsspec.Prelude.{
  ℕ, ◌+◌, ◌≤◌, ◌≡◌, refl, Bool, true, false, List, [], ◌∷◌, ◌++◌, filter, filter-append, any, all,
  all-append, length, sort, sort-append, IsSorted, ltb, ◌==◌, arith,
}
use django_fsspec.Environment.{Environment}
use django_fsspec.Models.{StorageBlock, FileBlock}
use django_fsspec.Models.Query.{before_mapping}
use django_fsspec.Operations.Blocks.{new_mapping, new_mappings, same_slot, has_duplicate_slot}

abbrev pub of_file : ℕ → FileBlock → Bool
of_file pk m = m.file_id == pk

-- Every mapping of the file has a sequence number below `k`.
abbrev pub AreBelow : ℕ → ℕ → List FileBlock → Type 0
AreBelow k pk ms = all (λ m. ltb m.sequence k) (filter (of_file pk) ms) ≡ true

module _ (e : Environment) (pk : ℕ) where
  filter-new_mappings :
      (k : ℕ) (bs : List StorageBlock) (ms : List FileBlock)
      → filter (of_file pk) (new_mappings e pk k bs ms) ≡ new_mappings e pk k bs ms
  unfolding new_mappings
  filter-new_mappings k [] ms = refl
  filter-new_mappings k (b ∷ bs) ms =
      ground (arith, filter-new_mappings (k + 1) bs (ms ++ new_mapping e pk k b ms ∷ []))

  before-new_mappings :
      (m : FileBlock) (k : ℕ) (bs : List StorageBlock) (ms : List FileBlock)
      → m.sequence + 1 ≤ k
      → all (before_mapping m) (new_mappings e pk k bs ms) ≡ true
  unfolding new_mappings
  before-new_mappings m k [] ms h = refl
  before-new_mappings m k (b ∷ bs) ms h =
      ground (arith, before-new_mappings m (k + 1) bs (ms ++ new_mapping e pk k b ms ∷ []))

  new_mappings-IsSorted :
      (k : ℕ) (bs : List StorageBlock) (ms : List FileBlock)
      → IsSorted before_mapping (new_mappings e pk k bs ms)
  unfolding new_mappings
  new_mappings-IsSorted k [] ms = tt
  new_mappings-IsSorted k (b ∷ bs) ms =
      let m = new_mapping e pk k b ms in
      (
        before-new_mappings m (k + 1) bs (ms ++ m ∷ []) (omega arith),
        new_mappings-IsSorted (k + 1) bs (ms ++ m ∷ []),
      )

  all_before :
      (k : ℕ) (bs : List StorageBlock) (ms old : List FileBlock)
      → all (λ m. ltb m.sequence k) old ≡ true
      → all (λ m. all (before_mapping m) (new_mappings e pk k bs ms)) old ≡ true
  all_before k bs ms [] h = refl
  all_before k bs ms (m ∷ old) h =
      ground (arith, all_before k bs ms old, before-new_mappings m k bs ms)

  -- The new mappings follow the old ones.
  pub sort-new_mappings :
      (k : ℕ) (bs : List StorageBlock) (ms old : List FileBlock)
      → AreBelow k pk old
      → sort before_mapping (filter (of_file pk) (old ++ new_mappings e pk k bs ms))
        ≡ sort before_mapping (filter (of_file pk) old) ++ new_mappings e pk k bs ms
  sort-new_mappings k bs ms old h =
      rw (filter-append (of_file pk) old (new_mappings e pk k bs ms), filter-new_mappings k bs ms)
        (sort-append before_mapping (filter (of_file pk) old) (new_mappings e pk k bs ms)
          (all_before k bs ms (filter (of_file pk) old) h) (new_mappings-IsSorted k bs ms))

  no_slot :
      (a : FileBlock) (k : ℕ) (old : List FileBlock)
      → a.file_id ≡ pk
      → k ≤ a.sequence
      → AreBelow k pk old
      → any (same_slot a) old ≡ false
  no_slot a k [] file le h = refl
  no_slot a k (m ∷ old) file le h = ground (arith, no_slot a k old file le)

  -- No new mapping takes a slot that is in use.
  pub has_duplicate_slot-new_mappings :
      (k j : ℕ) (bs : List StorageBlock) (ms old : List FileBlock)
      → k ≤ j
      → AreBelow k pk old
      → has_duplicate_slot old (new_mappings e pk j bs ms) ≡ false
  unfolding new_mappings
  has_duplicate_slot-new_mappings k j [] ms old le h = refl
  has_duplicate_slot-new_mappings k j (b ∷ bs) ms old le h =
      let m = new_mapping e pk j b ms in
      ground (
        arith,
        no_slot m k old refl le h,
        has_duplicate_slot-new_mappings k (j + 1) bs (ms ++ m ∷ []) old,
      )

  all_below_new :
      (k j n : ℕ) (bs : List StorageBlock) (ms : List FileBlock)
      → j + length bs ≤ n
      → all (λ m. ltb m.sequence n) (new_mappings e pk j bs ms) ≡ true
  unfolding new_mappings
  all_below_new k j n [] ms h = refl
  all_below_new k j n (b ∷ bs) ms h =
      ground (arith, all_below_new k (j + 1) n bs (ms ++ new_mapping e pk j b ms ∷ []))

  all_below_weaken :
      (k n : ℕ) (ms : List FileBlock)
      → k ≤ n
      → all (λ m. ltb m.sequence k) ms ≡ true
      → all (λ m. ltb m.sequence n) ms ≡ true
  all_below_weaken k n [] le h = refl
  all_below_weaken k n (m ∷ ms) le h = ground (arith, all_below_weaken k n ms le)

  -- After `n` new mappings from `k` on, all are below `k + n`.
  pub AreBelow-new_mappings :
      (k : ℕ) (bs : List StorageBlock) (ms old : List FileBlock)
      → AreBelow k pk old
      → AreBelow (k + length bs) pk (old ++ new_mappings e pk k bs ms)
  AreBelow-new_mappings k bs ms old h =
      rw (filter-append (of_file pk) old (new_mappings e pk k bs ms), filter-new_mappings k bs ms)
        (all-append (λ m. ltb m.sequence (k + length bs)) (filter (of_file pk) old)
          (new_mappings e pk k bs ms)
          (all_below_weaken k (k + length bs) (filter (of_file pk) old) (omega arith) h)
          (all_below_new k k (k + length bs) bs ms (omega arith)))
