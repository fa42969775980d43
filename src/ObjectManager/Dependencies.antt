-- ===== src/ObjectManager/Dependencies.antt =====
-- The journal records that an object depends on across a flush (`apply_mutation` in
-- src/object_store/object_manager.rs).
use fxfs_on_linux.Common.{
  ℕ, ◌≡◌, ◌≢◌, refl, ap, ◌∙◌, inl, inr, false, Bool-cases, Option, none, some, Option-cases, List,
  [], ◌∷◌, ◌==◌, if◌then◌else◌, Map, get, put, remove, get-put_same, get-put_other, min, ltb, arith,
}
use fxfs_on_linux.Journal.Stream.{JournalCheckpoint}
use fxfs_on_linux.Transaction.{
  Mutation, object_store, encrypted_object_store, allocator, begin_flush, end_flush, delete_volume,
  update_borrowed, update_mutations_key,
}
use fxfs_on_linux.ObjectManager.{
  Checkpoints, current, old, both, begin_entry, end_entry, mutate_entry, put_entry, Manager,
  note_mutation, earliest, earliest_offset, min_with, lower, file_offsets_from,
  journal_file_offsets,
}

module _ {ℓ} {V : Type ℓ} where
  get-remove_same : (k : ℕ) (m : Map V) → get k (remove k m) ≡ none
  get-remove_same k [] = refl
  get-remove_same k ((j, w) ∷ m) = elim (Bool-cases (k == j)) [
    | inl e ↦ rw e (get-remove_same k m)
    | inr e ↦ rw (e, e) (get-remove_same k m)
  ]

  get-remove_other : (i k : ℕ) (m : Map V) → i ≢ k → get i (remove k m) ≡ get i m
  get-remove_other i k [] h = refl
  get-remove_other i k ((j, w) ∷ m) h = elim (Bool-cases (k == j)) [
    | inl e ↦
        let other : (i == j) ≡ false = ground arith in rw (e, other) (get-remove_other i k m h)
    | inr e ↦
        rw e (elim (Bool-cases (i == j)) [
          | inl f ↦ rw f refl
          | inr f ↦ rw f (get-remove_other i k m h)
        ])
  ]

not_root : {i root : ℕ} → i ≢ root → (i == root) ≡ false
not_root n = ground arith

-- The entry after the start of a flush, and after its end.
started : Option Checkpoints → Option Checkpoints
started none = none
started (some e) = some (begin_entry e)

finished : Option Checkpoints → Option Checkpoints
finished none = none
finished (some e) = end_entry e

get-put_entry :
    (j i : ℕ) (e : Option Checkpoints) (m : Map Checkpoints)
    → j ≢ i
    → get j (put_entry i e m) ≡ get j m
get-put_entry j i none m n = get-remove_other j i m n
get-put_entry j i (some e) m n = get-put_other j i e m n

-- The mutation of an object's contents, as it is noted, leaves the other objects as they are.
get-mutated :
    (j i : ℕ) (c : JournalCheckpoint) (m : Manager)
    → j ≢ i
    → get j
        (if i == m.root_parent_store_object_id then m else record m {
          journal_checkpoints =
              put i (mutate_entry c (get i m.journal_checkpoints)) m.journal_checkpoints;
        }).journal_checkpoints
      ≡ get j m.journal_checkpoints
get-mutated j i c m n = elim (Bool-cases (i == m.root_parent_store_object_id)) [
  | inl e ↦ rw e refl
  | inr e ↦
      rw e
        (get-put_other j i (mutate_entry c (get i m.journal_checkpoints)) m.journal_checkpoints n)
]

module _ (W : Type 0) where
  get-begin :
      (i : ℕ) (c : JournalCheckpoint) (m : Manager) (e : Option Checkpoints)
      → get i m.journal_checkpoints ≡ e
      → get i (note_mutation {W = W} i begin_flush c m).journal_checkpoints ≡ started e
  unfolding note_mutation started
  get-begin i c m none p = rw (note_mutation, p) p
  get-begin i c m (some e) p =
      rw (note_mutation, p) (get-put_same i (begin_entry e) m.journal_checkpoints)

  get-end :
      (i : ℕ) (c : JournalCheckpoint) (m : Manager) (e : Option Checkpoints)
      → get i m.journal_checkpoints ≡ e
      → get i (note_mutation {W = W} i end_flush c m).journal_checkpoints ≡ finished e
  unfolding note_mutation finished
  get-end i c m none p = rw (note_mutation, p) p
  get-end i c m (some (old x)) p = rw (note_mutation, p) (get-remove_same i m.journal_checkpoints)
  get-end i c m (some (both x y)) p =
      rw (note_mutation, p) (get-put_same i (current y) m.journal_checkpoints)
  get-end i c m (some (current x)) p =
      rw (note_mutation, p) (get-put_same i (current x) m.journal_checkpoints)

  begin-root :
      (i : ℕ) (c : JournalCheckpoint) (m : Manager)
      → (note_mutation {W = W} i begin_flush c m).root_parent_store_object_id
        ≡ m.root_parent_store_object_id
  unfolding note_mutation
  begin-root i c m = elim (Option-cases (get i m.journal_checkpoints)) [
    | inl p ↦ rw (note_mutation, p) refl
    | inr q ↦ rw (note_mutation, q.1) refl
  ]

module _ {W : Type 0} where
  -- A mutation of the object's contents, not one of its flushes or of the whole volume.
  abbrev pub IsContent : Mutation W → Type 0
  IsContent begin_flush = ⊥
  IsContent end_flush = ⊥
  IsContent delete_volume = ⊥
  IsContent _ = Unit

  -- Mutations of one object, each with the checkpoint of its transaction.
  abbrev pub note_mutations : ℕ → List (Mutation W × JournalCheckpoint) → Manager → Manager
  note_mutations object_id [] m = m
  note_mutations object_id ((x, c) ∷ xs) m =
      note_mutations object_id xs (note_mutation object_id x c m)

  abbrev pub AreContent : List (Mutation W × JournalCheckpoint) → Type 0
  AreContent [] = Unit
  AreContent ((x, c) ∷ xs) = IsContent x × AreContent xs

  -- What the object depends on after the flush: the first mutation that came during it.
  abbrev pub first_entry : List (Mutation W × JournalCheckpoint) → Option Checkpoints
  first_entry [] = none
  first_entry ((x, c) ∷ xs) = some (current c)

  note_content :
      (object_id : ℕ) (x : Mutation W) (c : JournalCheckpoint) (m : Manager)
      → IsContent x
      → object_id ≢ m.root_parent_store_object_id
      → note_mutation object_id x c m ≡ record m {
        journal_checkpoints =
            put object_id
              (mutate_entry c (get object_id m.journal_checkpoints))
              m.journal_checkpoints;
      }
  unfolding note_mutation
  note_content i begin_flush c m h n = elim h [ ]
  note_content i end_flush c m h n = elim h [ ]
  note_content i delete_volume c m h n = elim h [ ]
  note_content i (object_store item op) c m h n = rw (not_root n) refl
  note_content i (encrypted_object_store bytes) c m h n = rw (not_root n) refl
  note_content i (allocator x) c m h n = rw (not_root n) refl
  note_content i (update_borrowed x) c m h n = rw (not_root n) refl
  note_content i (update_mutations_key x) c m h n = rw (not_root n) refl

  -- The entry of the object with each mutation.
  follow : List (Mutation W × JournalCheckpoint) → Option Checkpoints → Option Checkpoints
  follow [] e = e
  follow ((x, c) ∷ xs) e = follow xs (some (mutate_entry c e))

  get-note_mutations :
      (object_id : ℕ) (xs : List (Mutation W × JournalCheckpoint)) (m : Manager)
      → AreContent xs
      → object_id ≢ m.root_parent_store_object_id
      → get object_id (note_mutations object_id xs m).journal_checkpoints
        ≡ follow xs (get object_id m.journal_checkpoints)
  unfolding follow
  get-note_mutations i [] m h n = refl
  get-note_mutations i ((x, c) ∷ xs) m h n =
      let entry = mutate_entry c (get i m.journal_checkpoints) in
      let m' : Manager = record m { journal_checkpoints = put i entry m.journal_checkpoints } in
      ap (λ k. get i (note_mutations i xs k).journal_checkpoints) (note_content i x c m h.0 n)
      ∙ get-note_mutations i xs m' h.1 n
      ∙ ap (follow xs) (get-put_same i entry m.journal_checkpoints)

  follow-current :
      (xs : List (Mutation W × JournalCheckpoint)) (c : JournalCheckpoint)
      → follow xs (some (current c)) ≡ some (current c)
  unfolding follow
  follow-current [] c = refl
  follow-current ((x, d) ∷ xs) c = follow-current xs c

  follow-both :
      (xs : List (Mutation W × JournalCheckpoint)) (b c : JournalCheckpoint)
      → follow xs (some (both b c)) ≡ some (both b c)
  unfolding follow
  follow-both [] b c = refl
  follow-both ((x, d) ∷ xs) b c = follow-both xs b c

  flushed :
      (xs : List (Mutation W × JournalCheckpoint)) (e : Option Checkpoints)
      → finished (follow xs (started e)) ≡ first_entry xs
  unfolding follow started finished
  flushed [] none = refl
  flushed [] (some (old x)) = refl
  flushed [] (some (both x y)) = refl
  flushed [] (some (current x)) = refl
  flushed ((x, c) ∷ xs) none = ap finished (follow-current xs c)
  flushed ((x, c) ∷ xs) (some (old a)) = ap finished (follow-both xs a c)
  flushed ((x, c) ∷ xs) (some (both a b)) = ap finished (follow-both xs a c)
  flushed ((x, c) ∷ xs) (some (current a)) = ap finished (follow-both xs a c)

  note_mutation-other :
      (j i : ℕ) (x : Mutation W) (c : JournalCheckpoint) (m : Manager)
      → j ≢ i
      → get j (note_mutation i x c m).journal_checkpoints ≡ get j m.journal_checkpoints
  unfolding note_mutation
  note_mutation-other j i begin_flush c m n = elim (Option-cases (get i m.journal_checkpoints)) [
    | inl p ↦ rw (note_mutation, p) refl
    | inr q ↦ rw (note_mutation, q.1) (get-put_other j i (begin_entry q.0) m.journal_checkpoints n)
  ]
  note_mutation-other j i end_flush c m n = elim (Option-cases (get i m.journal_checkpoints)) [
    | inl p ↦ rw (note_mutation, p) refl
    | inr q ↦ rw (note_mutation, q.1) (get-put_entry j i (end_entry q.0) m.journal_checkpoints n)
  ]
  note_mutation-other j i delete_volume c m n = get-remove_other j i m.journal_checkpoints n
  note_mutation-other j i (object_store item op) c m n = get-mutated j i c m n
  note_mutation-other j i (encrypted_object_store bytes) c m n = get-mutated j i c m n
  note_mutation-other j i (allocator x) c m n = get-mutated j i c m n
  note_mutation-other j i (update_borrowed x) c m n = get-mutated j i c m n
  note_mutation-other j i (update_mutations_key x) c m n = get-mutated j i c m n

  note_mutations-other :
      (j i : ℕ) (xs : List (Mutation W × JournalCheckpoint)) (m : Manager)
      → j ≢ i
      → get j (note_mutations i xs m).journal_checkpoints ≡ get j m.journal_checkpoints
  note_mutations-other j i [] m n = refl
  note_mutations-other j i ((x, c) ∷ xs) m n =
      note_mutations-other j i xs (note_mutation i x c m) n ∙ note_mutation-other j i x c m n

  -- A flush of an object, with mutations of the object while it runs.
  abbrev pub note_flush :
      ℕ
      → List (Mutation W × JournalCheckpoint)
      → JournalCheckpoint
      → JournalCheckpoint
      → Manager
      → Manager
  note_flush object_id xs begin end_at m =
      note_mutation {W = W} object_id end_flush end_at
        (note_mutations object_id xs (note_mutation {W = W} object_id begin_flush begin m))

  -- After a flush of an object other than the root parent store, with mutations of its contents while it
  -- runs: the object depends on the
  -- first of those, if there are any, whatever it depended on before; what another object depends on
  -- is unchanged.
  pub flush-first_entry :
      (object_id : ℕ) (xs : List (Mutation W × JournalCheckpoint))
      (begin end_at : JournalCheckpoint) (m : Manager)
      → AreContent xs
      → object_id ≢ m.root_parent_store_object_id
      → (get object_id (note_flush object_id xs begin end_at m).journal_checkpoints
          ≡ first_entry xs)
        × ((j : ℕ)
            → j ≢ object_id
            → get j (note_flush object_id xs begin end_at m).journal_checkpoints
              ≡ get j m.journal_checkpoints)
  flush-first_entry i xs b e m h n =
      let m1 = note_mutation {W = W} i begin_flush b m in
      let m2 = note_mutations i xs m1 in
      let entry = get-begin W i b m (get i m.journal_checkpoints) refl in
      let middle = get-note_mutations i xs m1 h (rw (begin-root W i b m) n) in
      (
        get-end W i e m2 (follow xs (started (get i m.journal_checkpoints)))
              (middle ∙ ap (follow xs) entry)
            ∙ flushed xs (get i m.journal_checkpoints),
        λ j o.
            note_mutation-other j i end_flush e m2 o
            ∙ note_mutations-other j i xs m1 o
            ∙ note_mutation-other j i begin_flush b m o,
      )

abbrev pub offset_of : Option JournalCheckpoint → Option ℕ
offset_of none = none
offset_of (some c) = some c.file_offset

lower_offset :
    (a c : JournalCheckpoint) → (lower (some a) c).file_offset ≡ min a.file_offset c.file_offset
lower_offset a c = elim (Bool-cases (ltb c.file_offset a.file_offset)) [
  | inl e ↦ rw e (ground arith)
  | inr e ↦ rw e (ground arith)
]

lower-min_with :
    (a c : JournalCheckpoint) (e : Option ℕ)
    → min_with (lower (some a) c).file_offset e ≡ min a.file_offset (min_with c.file_offset e)
lower-min_with a c none = lower_offset a c
lower-min_with a c (some n) = ap (λ k. min k n) (lower_offset a c) ∙ omega arith

offset_from :
    (offsets : Map ℕ) (a : JournalCheckpoint) (m : Map Checkpoints)
    → offset_of (file_offsets_from offsets (some a) m).1
      ≡ some (min_with a.file_offset (earliest_offset m))
unfolding earliest_offset
offset_from offsets a [] = refl
offset_from offsets a ((k, c) ∷ m) =
    offset_from (put k (earliest c).file_offset offsets) (lower (some a) (earliest c)) m
    ∙ ap some (lower-min_with a (earliest c) (earliest_offset m))

-- The checkpoint that `journal_file_offsets` returns is at the offset from which metadata space is
-- required.
pub journal_file_offsets-earliest_offset :
    (m : Map Checkpoints) → offset_of (journal_file_offsets m).1 ≡ earliest_offset m
unfolding earliest_offset
journal_file_offsets-earliest_offset [] = refl
journal_file_offsets-earliest_offset ((k, c) ∷ m) = offset_from _ (earliest c) m
