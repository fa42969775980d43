-- ===== src/Journal/ChecksumList/Marks.antt =====
-- `mark_deallocated` keeps every entry ready to be verified.
use fxfs_on_linux.Common.{
  ℕ, ◌≤◌, ◌≡◌, refl, ap, subst, List, [], ◌∷◌, ◌++◌, length, get_elem?, set, take, drop, map, All,
  some, ltb, leb, leb→le, add_u64, sub_u64, div_u64, Bool-cases, inl, inr, arith, length-append,
  length-take, length-drop, zero, suc,
}
use fxfs_on_linux.Util.Range.{Range}
use fxfs_on_linux.Journal.ChecksumList.{
  ChecksumState, ChecksumEntry, ChecksumList, chunk_size_of, mark, mark_slice, mark_entries,
  mark_deallocated, keys_from, checksum_index_start, entry_at,
}
use fxfs_on_linux.Journal.ChecksumList.Passes.{Ensures, Ensures-bind, Ensures-eq}
use fxfs_on_linux.Journal.ChecksumList.Total.{IsReady}

length-mark : (j : ℕ) (cs : List (ChecksumState × ℕ)) → length (map (mark j) cs) ≡ length cs
length-mark j [] = refl
length-mark j (c ∷ cs) = ap suc (length-mark j cs)

marked-length :
    (cs : List (ChecksumState × ℕ)) (first last j : ℕ)
    → first ≤ last
    → last ≤ length cs
    → length (take first cs ++ map (mark j) (drop first (take last cs)) ++ drop last cs) ≡ length cs
marked-length cs first last j h k = omega (
  arith,
  length-append (take first cs ++ map (mark j) (drop first (take last cs))) (drop last cs),
  length-append (take first cs) (map (mark j) (drop first (take last cs))),
  length-mark j (drop first (take last cs)),
  length-drop first (take last cs),
  length-take last cs,
  length-take first cs,
  length-drop last cs,
)

mark_slice-Ensures :
    (cs : List (ChecksumState × ℕ)) (first last j : ℕ)
    → Ensures (mark_slice cs first last j) λ ds. length ds ≡ length cs
mark_slice-Ensures cs first last j = elim (Bool-cases (leb first last)) [
  | inl e ↦ elim (Bool-cases (leb last (length cs))) [
    | inl f ↦
        rw (e, f) (marked-length cs first last j (leb→le first last e) (leb→le last (length cs) f))
    | inr f ↦ rw (e, f) tt
  ]
  | inr e ↦ rw e tt
]

some-entry-injective : {d e : ChecksumEntry} → some d ≡ some e → d ≡ e
some-entry-injective g = cc

entry_at-Ensures :
    (es : List ChecksumEntry) (i : ℕ) → Ensures (entry_at es i) λ e. get_elem? es i ≡ some e
entry_at-Ensures [] i = tt
entry_at-Ensures (x ∷ xs) zero = refl
entry_at-Ensures (x ∷ xs) (suc i) = entry_at-Ensures xs i

module _ (max : ℕ) where
  All-IsReady-get :
      (es : List ChecksumEntry) (i : ℕ) (e : ChecksumEntry)
      → All (IsReady max) es
      → get_elem? es i ≡ some e
      → IsReady max e
  All-IsReady-get [] i e h g = cc
  All-IsReady-get (x ∷ xs) zero e h g = subst (IsReady max) (some-entry-injective g) h.0
  All-IsReady-get (x ∷ xs) (suc i) e h g = All-IsReady-get xs i e h.1 g

  All-IsReady-set :
      (es : List ChecksumEntry) (i : ℕ) (e : ChecksumEntry)
      → All (IsReady max) es
      → IsReady max e
      → All (IsReady max) (set es i e)
  All-IsReady-set [] i e h r = tt
  All-IsReady-set (x ∷ xs) zero e h r = (r, h.1)
  All-IsReady-set (x ∷ xs) (suc i) e h r = (h.0, All-IsReady-set xs i e h.1 r)

  marked-IsReady :
      (e : ChecksumEntry) (cs : List (ChecksumState × ℕ))
      → IsReady max e
      → length cs ≡ length e.checksums
      → IsReady max (record e { checksums = cs })
  marked-IsReady e cs (size, c, w, m, h) l = (size, rw l c, w, m, rw l h)

  replaced :
      (es : List ChecksumEntry) (i : ℕ) (e : ChecksumEntry) (cs : List (ChecksumState × ℕ))
      → All (IsReady max) es
      → IsReady max e
      → length cs ≡ length e.checksums
      → All (IsReady max) (set es i (record e { checksums = cs }))
  replaced es i e cs h r l = All-IsReady-set es i _ h (marked-IsReady e cs r l)

  mark_entries-Ensures :
      (ks : List (ℕ × ℕ)) (es : List ChecksumEntry) (j : ℕ) (r : Range)
      → All (IsReady max) es
      → Ensures (mark_entries ks es j r) (All (IsReady max))
  unfolding mark_entries
  mark_entries-Ensures [] es j r h = h
  mark_entries-Ensures (k ∷ ks) es j r h =
      Ensures-bind (All (IsReady max)) (entry_at es k.1) _ (entry_at-Ensures es k.1) λ e g.
        let ready = All-IsReady-get es k.1 e h g in
        elim (Bool-cases (leb r.end e.device_range.start)) [
          | inl a ↦ rw a h
          | inr a ↦ rw a (
              Ensures-bind (All (IsReady max)) (chunk_size_of e.device_range e.checksums) _
                (Ensures-eq _)
                λ size c.
                  Ensures-bind (All (IsReady max)) (checksum_index_start e r.start size) _
                    (Ensures-eq _)
                    λ first d. elim (Bool-cases (leb r.end e.device_range.end)) [
                      | inl b ↦ rw b (
                          Ensures-bind (All (IsReady max)) (sub_u64 r.end e.device_range.start) _
                            (Ensures-eq _)
                            λ amount u.
                              Ensures-bind (All (IsReady max)) (div_u64 amount size) _
                                (Ensures-eq _)
                                λ last v.
                                  Ensures-bind (All (IsReady max))
                                    (mark_slice e.checksums first last j) _
                                    (mark_slice-Ensures e.checksums first last j)
                                    λ cs l. replaced es k.1 e cs h ready l)
                      | inr b ↦ rw b (
                          Ensures-bind (All (IsReady max))
                            (mark_slice e.checksums first (length e.checksums) j) _
                            (mark_slice-Ensures e.checksums first (length e.checksums) j)
                            λ cs l. mark_entries-Ensures ks _ j _ (replaced es k.1 e cs h ready l))
                    ])
        ]

-- Where marking a range as deallocated returns, the entries of the list that it returns are ready to
-- be verified if those of the old list are.
pub mark_deallocated-IsReady :
    (l : ChecksumList) (journal_offset : ℕ) (r : Range)
    → All (IsReady l.max_chunk_size) l.checksum_entries
    → Ensures
        (mark_deallocated l journal_offset r)
        λ l'. All (IsReady l'.max_chunk_size) l'.checksum_entries
unfolding mark_deallocated
mark_deallocated-IsReady l j r h = elim (Bool-cases (ltb j l.flushed_offset)) [
  | inl e ↦ rw e h
  | inr e ↦ rw e (
      Ensures-bind (λ l'. All (IsReady l'.max_chunk_size) l'.checksum_entries) (add_u64 r.start 1) _
        (Ensures-eq _)
        λ from f.
          Ensures-bind (λ l'. All (IsReady l'.max_chunk_size) l'.checksum_entries)
            (mark_entries (keys_from from l.device_offset_to_checksum_entry) l.checksum_entries j r)
            _ (mark_entries-Ensures l.max_chunk_size _ l.checksum_entries j r h) λ es a. a)
]
