-- ===== src/Journal/ChecksumList/Sound.antt =====
-- `verify` ends, and the offset that it returns is safe to replay up to.
use fxfs_on_linux.Common.{ℕ, zero, suc, ◌≤◌, ◌<◌, List, Option, none, some, ok, arith}
use fxfs_on_linux.Journal.ChecksumList.{ChecksumEntry, ChecksumList}
use fxfs_on_linux.Journal.ChecksumList.Verify.{Device, verify_entries, verify_loop, verify}
use fxfs_on_linux.Journal.ChecksumList.Passes.{
  Ensures, Ensures-bind, Ensures-imp, EntriesVerified, EntriesKept, verify_entries-EntriesKept,
}

module _ (read : Device) (marked : ℕ → Option ℕ) where
  abbrev Ends : ℕ → List ChecksumEntry → Option (List ChecksumEntry × ℕ) → Type 0
  Ends j es none = ⊥
  Ends j es (some (es', k)) = (k ≤ j) × EntriesVerified read marked k es

  module _ (max_chunk_size : ℕ) where
    Ends-back :
        (j start : ℕ) (es es' : List ChecksumEntry) (o : Option (List ChecksumEntry × ℕ))
        → start < j
        → ((k : ℕ) → EntriesVerified read marked k es' → EntriesVerified read marked k es)
        → Ends start es' o
        → Ends j es o
    Ends-back j start es es' none h back p = p
    Ends-back j start es es' (some r) h back p = (omega arith, back r.1 p.1)

    pass-Ends :
        (fuel j : ℕ) (es es' : List ChecksumEntry) (retry : Option ℕ)
        → j ≤ fuel
        → EntriesKept read marked j es (es', retry)
        → ((k : ℕ)
            → k < fuel
            → Ensures (verify_loop read marked max_chunk_size fuel k es') (Ends k es'))
        → Ensures
            (elim retry [
              | none ↦ ok (some (es', j))
              | some start ↦ verify_loop read marked max_chunk_size fuel start es'
            ])
            (Ends j es)
    pass-Ends fuel j es es' none h (back, p) again = (omega arith, p)
    pass-Ends fuel j es es' (some start) h (back, p) again =
        Ensures-imp (verify_loop read marked max_chunk_size fuel start es')
          (λ o q. Ends-back j start es es' o p back q) (again start (omega arith))

    verify_loop-Ends :
        (fuel j : ℕ) (es : List ChecksumEntry)
        → j < fuel
        → Ensures (verify_loop read marked max_chunk_size fuel j es) (Ends j es)
    unfolding verify_loop
    verify_loop-Ends zero j es h = elim h [ ]
    verify_loop-Ends (suc fuel) j es h =
        Ensures-bind (Ends j es) (verify_entries read marked max_chunk_size j es) _
          (verify_entries-EntriesKept read marked max_chunk_size j es)
          λ pass p.
            pass-Ends fuel j es pass.0 pass.1 (omega arith) p
              λ k l. verify_loop-Ends fuel k pass.0 l

-- What `verify` ends with: it has not run out of passes, the offset is not above the one given, and
-- the checksums up to it hold.
abbrev pub VerifyEnds :
    ChecksumList → Device → (ℕ → Option ℕ) → ℕ → Option (ChecksumList × ℕ) → Type 0
VerifyEnds l read marked j none = ⊥
VerifyEnds l read marked j (some (l', k)) =
    (k ≤ j) × EntriesVerified read marked k l.checksum_entries

end-VerifyEnds :
    (l : ChecksumList) (read : Device) (marked : ℕ → Option ℕ) (j : ℕ)
    → (o : Option (List ChecksumEntry × ℕ)) → Ends read marked j l.checksum_entries o
    → Ensures
        (elim o [ none ↦ ok none | some r ↦ ok (some (record l { checksum_entries = r.0 }, r.1)) ])
        (VerifyEnds l read marked j)
end-VerifyEnds l read marked j none h = h
end-VerifyEnds l read marked j (some r) h = h

-- Where `verify` ends without a panic or an error, it has not run out of passes, the offset that it
-- returns is not above the offset given, and every checksum of the list that is needed for a replay
-- up to it holds on the device: those of each entry that starts before it, whose owner is not marked
-- for deletion before it, and that no later deallocation before it made void; up to the first entry
-- that starts at it or behind it.
pub verify-EntriesVerified :
    (l : ChecksumList) (read : Device) (marked : ℕ → Option ℕ) (journal_offset : ℕ)
    → Ensures (verify l read marked journal_offset) (VerifyEnds l read marked journal_offset)
unfolding verify
verify-EntriesVerified l read marked j =
    Ensures-bind (VerifyEnds l read marked j)
      (verify_loop read marked l.max_chunk_size (suc j) j l.checksum_entries) _
      (verify_loop-Ends read marked l.max_chunk_size (suc j) j l.checksum_entries (omega arith))
      (end-VerifyEnds l read marked j)
