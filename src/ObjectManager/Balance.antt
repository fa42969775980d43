-- ===== src/ObjectManager/Balance.antt =====
-- The balance of metadata space across a commit (src/object_store/object_manager.rs): what is reserved
-- and what is borrowed are together what is required.
use fxfs_on_linux.Common.{
  ℕ, ◌+◌, ◌-◌, ◌*◌, ◌≤◌, ◌<◌, ◌≡◌, refl, sym, ap, ◌∙◌, inl, inr, Bool-cases, true, some, leb, ltb,
  ◌==◌, le→leb, max, ok, ◌>>=◌, Returns, Returns-bind, u64_max, add_u64-eq, sub_u64-eq, arith,
}
use fxfs_on_linux.Allocator.Reservation
use fxfs_on_linux.Allocator.Reservation.{Reservation, ReservationOwner}
use fxfs_on_linux.Allocator.Accounting
use fxfs_on_linux.Allocator.Accounting.{Inner, remove_reservation}
use fxfs_on_linux.Allocator.Accounting.Totals.{used_total, reserved_for, remove_reservation-Returns}
use fxfs_on_linux.ObjectManager.{
  Manager, reserved_space, reserved_space_from_journal_usage, max_value, earliest_offset,
  required_reservation, update_borrowed_space, note_end, did_commit_borrowed,
}

-- What is required, where the earliest record that an object depends on is at an offset.
abbrev pub required_from : Manager → ℕ → ℕ
required_from m least = max_value m.reservations + (m.last_end_offset - least) * 4 + reserved_space

reserved_space-eq : (n : ℕ) → n * 4 ≤ u64_max → reserved_space_from_journal_usage n ≡ ok (n * 4)
unfolding reserved_space_from_journal_usage
reserved_space-eq n h = rw (le→leb (n * 4) u64_max h) refl

required_reservation-eq :
    (m : Manager) (least : ℕ)
    → earliest_offset m.journal_checkpoints ≡ some least
    → least ≤ m.last_end_offset
    → required_from m least ≤ u64_max
    → required_reservation m ≡ ok (required_from m least)
unfolding required_reservation
required_reservation-eq m least e l b =
    rw
      (
        e,
        sub_u64-eq m.last_end_offset least l,
        reserved_space-eq (m.last_end_offset - least) (omega arith),
        add_u64-eq (max_value m.reservations) ((m.last_end_offset - least) * 4) (omega arith),
        add_u64-eq (max_value m.reservations + (m.last_end_offset - least) * 4) reserved_space b,
      )
      refl

-- After the mutations of a transaction that borrows: the same is borrowed in addition that is required
-- in addition and not reserved, or what is borrowed falls, to 0 at least.
update_borrowed_space-eq :
    (amount old_required new_amount least : ℕ) (m : Manager)
    → earliest_offset m.journal_checkpoints ≡ some least
    → least ≤ m.last_end_offset
    → amount + m.borrowed_metadata_space ≡ old_required
    → amount + required_from m least + m.borrowed_metadata_space ≤ u64_max
    → new_amount + old_required ≤ u64_max
    → update_borrowed_space amount old_required new_amount m
      ≡ ok (record m { borrowed_metadata_space = required_from m least - new_amount })
unfolding update_borrowed_space
update_borrowed_space-eq amount old_required new_amount least m e l h b c =
    let required = required_reservation-eq m least e l (omega arith) in
    let plus = add_u64-eq amount (required_from m least) (omega arith) in
    let minus = add_u64-eq new_amount old_required c in
    elim (Bool-cases (leb (new_amount + old_required) (amount + required_from m least))) [
      | inl more ↦
          let raised : new_amount + old_required ≤ amount + required_from m least = ground arith in
          let same : m.borrowed_metadata_space
                + (amount + required_from m least - (new_amount + old_required))
              ≡ required_from m least - new_amount =
            omega (arith, raised, h) in
          rw
            (
              required,
              plus,
              minus,
              more,
              add_u64-eq m.borrowed_metadata_space
                  (amount + required_from m least - (new_amount + old_required)) (omega (arith, h)),
              same,
            )
            refl
      | inr less ↦
          let lowered : amount + required_from m least < new_amount + old_required = ground arith in
          let same : m.borrowed_metadata_space
                - (new_amount + old_required - (amount + required_from m least))
              ≡ required_from m least - new_amount =
            omega (arith, lowered, h) in
          rw (required, plus, minus, less, same) refl
    ]

module _ (end_offset least : ℕ) (m : Manager)
    (has_least : earliest_offset m.journal_checkpoints ≡ some least)
    (behind : least ≤ m.last_end_offset) (forward : m.last_end_offset ≤ end_offset) where
  -- What the transaction takes of the journal, four times.
  unfoldable pub txn_space : ℕ
  txn_space = (end_offset - m.last_end_offset) * 4

  -- The manager once the transaction's end is noted.
  unfoldable pub ended : Manager
  ended = record m {
    last_end_offset = end_offset;
    max_transaction_size = max (end_offset - m.last_end_offset) m.max_transaction_size;
  }

  pub note_end-eq : txn_space ≤ u64_max → note_end end_offset m ≡ ok (txn_space, ended)
  unfolding note_end txn_space ended
  note_end-eq b =
      rw
        (
          sub_u64-eq end_offset m.last_end_offset forward,
          reserved_space-eq (end_offset - m.last_end_offset) b,
        )
        refl

  unfoldable pub ended_with : ℕ → Manager
  ended_with borrowed = record ended { borrowed_metadata_space = borrowed }

  pub required-ended :
      (borrowed : ℕ)
      → required_from m least + txn_space ≤ u64_max
      → required_reservation (ended_with borrowed) ≡ ok (required_from m least + txn_space)
  unfolding txn_space ended ended_with
  required-ended borrowed b =
      let sum : required_from (ended_with borrowed) least ≡ required_from m least + txn_space =
        omega arith in
      required_reservation-eq (ended_with borrowed) least has_least (omega arith)
        (omega (arith, sum))
      ∙ ap ok sum

-- What is required of the metadata is reserved or borrowed.
abbrev pub IsBalanced : Manager → Reservation → Type 0
IsBalanced m r = required_reservation m ≡ ok (r.amount + m.borrowed_metadata_space)

-- The allocator as the owner of the metadata reservation.
abbrev pub allocator_owner : ReservationOwner Inner
allocator_owner = record { release_reservation = Accounting.release_reservation }

-- What the reservation gave back, the allocator has not reserved for its owner any more.
abbrev pub IsReleased : (before after : Inner) → (r r' : Reservation) → Type 0
IsReleased before after r r' =
    (reserved_for after r.owner_object_id + r.amount
      ≡ reserved_for before r.owner_object_id + r'.amount)
    × (used_total after + r.amount ≡ used_total before + r'.amount)

give_back-Returns :
    (a : Inner) (r : Reservation) (n : ℕ)
    → n ≤ r.amount
    → r.reserved ≡ 0
    → r.amount ≤ reserved_for a r.owner_object_id
    → Returns (Reservation.give_back allocator_owner a r n) λ (a', r').
      (r' ≡ record r { amount = r.amount - n })
      × IsReleased a a' r (record r { amount = r.amount - n })
unfolding Reservation.give_back remove_reservation
give_back-Returns a r n h z covered =
    let left : leb r.reserved (r.amount - n) ≡ true =
      le→leb r.reserved (r.amount - n) (omega (arith, z)) in
    Returns-bind _ (remove_reservation a r.owner_object_id n) _
      (remove_reservation-Returns a r.owner_object_id n (omega (arith, h, covered)))
      λ a' less.
        rw (sub_u64-eq r.amount n h, left)
          (refl, (omega (arith, h, less.1), omega (arith, h, less.0)))

did_commit-IsBalanced :
    (end_offset least : ℕ) (a : Inner) (m : Manager) (r : Reservation)
    → earliest_offset m.journal_checkpoints ≡ some least
    → least ≤ m.last_end_offset
    → m.last_end_offset ≤ end_offset
    → r.reserved ≡ 0
    → r.amount ≤ reserved_for a r.owner_object_id
    → m.borrowed_metadata_space ≡ required_from m least - r.amount
    → r.amount + required_from m least + (end_offset - m.last_end_offset) * 4 ≤ u64_max
    → Returns
        (did_commit_borrowed allocator_owner end_offset a m r)
        λ t. IsBalanced t.1 t.2 × (t.1.last_end_offset ≡ end_offset) × IsReleased a t.0 r t.2
unfolding did_commit_borrowed txn_space ended ended_with
did_commit-IsBalanced end_offset least a m r has_least behind forward z covered h b =
    let t = (end_offset - m.last_end_offset) * 4 in
    let borrowed = m.borrowed_metadata_space + (end_offset - m.last_end_offset) * 4 in
    let give = r.amount + borrowed - (required_from m least + t) in
    let after : Reservation = record r { amount = r.amount - give } in
    let note = note_end-eq end_offset least m has_least behind forward (omega arith) in
    let required =
      required-ended end_offset least m has_least behind forward borrowed (omega arith) in
    let plus = add_u64-eq m.borrowed_metadata_space t (omega (arith, h)) in
    let total = add_u64-eq r.amount borrowed (omega (arith, h)) in
    elim (Bool-cases (ltb 0 give)) [
      | inl more ↦
          let balance : after.amount + borrowed ≡ required_from m least + t = omega (arith, h) in
          let sum = add_u64-eq after.amount borrowed (omega (arith, balance)) in
          let same : (after.amount + borrowed == required_from m least + t) ≡ true =
            ground (arith, balance) in
          rw (note, plus, total, required, more)
            (Returns-bind _ (Reservation.give_back allocator_owner a r give) _
              (give_back-Returns a r give (omega (arith, h)) z covered)
              λ (a', r') back.
                rw (back.0, sum, same) (required ∙ ap ok (sym balance), refl, back.1))
      | inr none_left ↦
          let small : give ≡ 0 = ground arith in
          let balance : r.amount + borrowed ≡ required_from m least + t = omega (arith, h, small) in
          let same : (r.amount + borrowed == required_from m least + t) ≡ true =
            ground (arith, balance) in
          rw (note, plus, total, required, none_left, total, same)
            (required ∙ ap ok (sym balance), refl, (refl, refl))
    ]

-- A whole commit of a transaction that borrows, from the end of its mutations, where an object depends
-- on the journal, from an offset that is not past its end, the metadata reservation has no holds and is
-- covered by the bytes that the allocator has reserved for its owner, what was required before the
-- mutations was reserved or borrowed, and the sums are in the u64 range: it returns, what is then
-- required is reserved or borrowed, the end of the journal is noted, and what the reservation gave back
-- is not reserved in the allocator any more.
pub commit-IsBalanced :
    (amount old_required end_offset least : ℕ) (a : Inner) (m : Manager) (r : Reservation)
    → earliest_offset m.journal_checkpoints ≡ some least
    → least ≤ m.last_end_offset
    → m.last_end_offset ≤ end_offset
    → amount + m.borrowed_metadata_space ≡ old_required
    → r.reserved ≡ 0
    → r.amount ≤ reserved_for a r.owner_object_id
    → amount + required_from m least + m.borrowed_metadata_space ≤ u64_max
    → r.amount + old_required ≤ u64_max
    → r.amount + required_from m least + (end_offset - m.last_end_offset) * 4 ≤ u64_max
    → Returns
        (update_borrowed_space amount old_required r.amount m >>= λ m1.
          did_commit_borrowed allocator_owner end_offset a m1 r)
        λ t. IsBalanced t.1 t.2 × (t.1.last_end_offset ≡ end_offset) × IsReleased a t.0 r t.2
commit-IsBalanced amount old_required end_offset least a m r e behind forward h z covered b c d =
    let m1 : Manager = record m { borrowed_metadata_space = required_from m least - r.amount } in
    rw (update_borrowed_space-eq amount old_required r.amount least m e behind h b c)
      (did_commit-IsBalanced end_offset least a m1 r e behind forward z covered refl d)
