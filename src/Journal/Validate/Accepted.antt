-- ===== src/Journal/Validate/Accepted.antt =====
-- What is true of an extent that is validated, and that its checksums can be noted.
use fxfs_on_linux.Common.{
  ℕ, ◌+◌, ◌-◌, ◌/◌, ◌%◌, ◌≤◌, ◌<◌, ◌≡◌, ◌∙◌, ap, sym, Bool, true, false, Bool-cases, ◌&&◌, inl, inr,
  not, ◌||◌, List, length, All, ltb, leb, ◌==◌, Outcome, ok, rem_u64-eq, div_u64-eq, add_u64-eq,
  u64_max, lt→ltb, le→leb, arith, Returns,
}
use native.Mathlib.Nat.{mod-mod_of_dvd, dvd_of_mod-eq-zero}
use fxfs_on_linux.Util.Range
use fxfs_on_linux.Util.Range.{Range, range, is_aligned}
use fxfs_on_linux.ObjectStore.ExtentValue.{fletcher, ExtentValue}
use fxfs_on_linux.ObjectStore.Record.Data.{AttributeKey, ObjectKeyData}
use fxfs_on_linux.ObjectStore.Record.Value.{ObjectValue, ObjectItem}
use fxfs_on_linux.Transaction.{Operation, object_store}
use fxfs_on_linux.Journal.ChecksumList.{ChecksumList}
use fxfs_on_linux.Journal.ChecksumList.Total.{IsReady, push-IsReady}
use fxfs_on_linux.Journal.Validate.{
  validate_extent, is_empty, validate_item, validate_mutation, note_item, update_checksum_list,
}

-- An extent that is on the device, with checksums for chunks of whole blocks.
abbrev pub IsSound : (bs ds : ℕ) → Range → ℕ → List ℕ → Type 0
IsSound bs ds r offset sums =
    (r.start < r.end)
    × (0 < length sums)
    × ((r.end - r.start) % length sums ≡ 0)
    × ((r.end - r.start) / length sums % bs ≡ 0)
    × (offset % bs ≡ 0)
    × (offset + (r.end - r.start) ≤ ds)

refused : {A : Type 0} → Path (Outcome Bool) (ok false) (ok true) → A
refused e = let wrong : ⊥ = cc in elim wrong [ ]

validate_extent-IsSound :
    (bs ds : ℕ) (r : Range) (offset : ℕ) (sums : List ℕ)
    → 0 < bs
    → validate_extent bs ds r offset sums ≡ ok true
    → IsSound bs ds r offset sums
unfolding validate_extent is_aligned Range.length Range.is_valid
validate_extent-IsSound bs ds r offset sums b e = elim (Bool-cases (is_empty r)) [
  | inl f ↦ refused (rw f at e)
  | inr f ↦
      let order : r.start < r.end = ground arith in
      let e1 = rw (f, lt→ltb 0 bs b) at e in
      elim (Bool-cases ((r.start % bs == 0) && (r.end % bs == 0))) [
        | inr g ↦ refused (rw g at e1)
        | inl g ↦
            let e2 = rw g at e1 in
            elim (Bool-cases (length sums == 0)) [
              | inl h ↦ refused (rw h at e2)
              | inr h ↦
                  let some_sums : 0 < length sums = ground arith in
                  let e3 =
                    rw
                      (
                        h,
                        le→leb r.start r.end (omega arith),
                        rem_u64-eq (r.end - r.start) (length sums) some_sums,
                      )
                      at e2 in
                  elim (Bool-cases ((r.end - r.start) % length sums == 0)) [
                    | inr i ↦ refused (rw i at e3)
                    | inl i ↦
                        let e4 =
                          rw (i, div_u64-eq (r.end - r.start) (length sums) some_sums) at e3 in
                        elim (Bool-cases ((r.end - r.start) / length sums % bs == 0)) [
                          | inr j ↦ refused (rw j at e4)
                          | inl j ↦
                              let e5 = rw j at e4 in
                              elim (Bool-cases (not (offset % bs == 0) || leb ds offset)) [
                                | inl k ↦ refused (rw k at e5)
                                | inr k ↦
                                    let e6 = rw k at e5 in
                                    elim (Bool-cases (ltb (ds - offset) (r.end - r.start))) [
                                      | inl l ↦ refused (rw l at e6)
                                      | inr l ↦ (
                                        order,
                                        some_sums,
                                        ground arith,
                                        ground arith,
                                        ground arith,
                                        ground arith,
                                      )
                                    ]
                              ]
                        ]
                  ]
            ]
      ]
]

whole_words : (x bs : ℕ) → bs % 4 ≡ 0 → x % bs ≡ 0 → x % 4 ≡ 0
whole_words x bs h k =
    sym (mod-mod_of_dvd 4 {b = bs} x (dvd_of_mod-eq-zero 4 h)) ∙ ap (λ n. n % 4) k

note_item-IsReady :
    {W : Type 0} (bs ds journal_offset owner : ℕ) (key : ObjectKeyData) (value : ObjectValue W)
    (l : ChecksumList)
    → 0 < bs
    → bs % 4 ≡ 0
    → ds ≤ u64_max
    → validate_item bs ds key value ≡ ok true
    → All (IsReady l.max_chunk_size) l.checksum_entries
    → Returns
        (note_item journal_offset owner key value l)
        λ l'. All (IsReady l'.max_chunk_size) l'.checksum_entries
unfolding Range.length Range.is_valid note_item validate_item
note_item-IsReady bs ds j owner (ObjectKeyData.attribute id (AttributeKey.extent key))
      (ObjectValue.extent (ExtentValue.some offset (fletcher sums) key_id)) l b w u e ready =
    let (order, some_sums, whole, blocks, aligned, fits) =
      validate_extent-IsSound bs ds key.bytes offset sums b e in
    let words = whole_words ((key.bytes.end - key.bytes.start) / length sums) bs w blocks in
    let back : offset + (key.bytes.end - key.bytes.start) - offset
        ≡ key.bytes.end - key.bytes.start =
      omega arith in
    rw
      (
        le→leb key.bytes.start key.bytes.end (omega arith),
        add_u64-eq offset (key.bytes.end - key.bytes.start) (omega arith),
      )
      (push-IsReady l j owner (range offset (offset + (key.bytes.end - key.bytes.start))) sums
        some_sums (omega arith) (omega arith) (ap (λ n. n / length sums % 4) back ∙ words) ready)
note_item-IsReady bs ds j owner _ _ l b w u e ready = ready

-- Where a mutation of the object store is validated, for blocks of whole words on a device in the
-- range of the offsets, noting it returns; if all entries of the checksum list were ready to be
-- verified, they are after it.
pub update_checksum_list-IsReady :
    {W : Type 0} (bs ds journal_offset owner : ℕ) (item : ObjectItem W) (op : Operation)
    (l : ChecksumList)
    → 0 < bs
    → bs % 4 ≡ 0
    → ds ≤ u64_max
    → validate_mutation (object_store item op) bs ds ≡ ok true
    → All (IsReady l.max_chunk_size) l.checksum_entries
    → Returns
        (update_checksum_list journal_offset owner (object_store item op) l)
        λ l'. All (IsReady l'.max_chunk_size) l'.checksum_entries
unfolding validate_mutation update_checksum_list
update_checksum_list-IsReady bs ds journal_offset owner item op l b w u e ready =
    note_item-IsReady bs ds journal_offset owner item.key.data_of item.value l b w u e ready
