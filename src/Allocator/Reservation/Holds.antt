-- ===== src/Allocator/Reservation/Holds.antt =====
-- A reservation with the holds that are taken from it, under any sequence of calls.
use fxfs_on_linux.Common.{
  ℕ, zero, suc, ◌+◌, ◌-◌, ◌≤◌, ◌≡◌, refl, subst, true, false, List, [], ◌∷◌, Option, none, some,
  min, ltb, get_elem?, set, All, Outcome, ok, panic, ◌>>=◌, add_u64-eq, sub_u64-eq, le→leb, inl,
  inr, Bool-cases, u64_max, Returns, arith,
}
use fxfs_on_linux.Allocator.Reservation
use fxfs_on_linux.Allocator.Reservation.{
  Reservation, same_id, add, forget, forget_some, reserve_at_most, reserve, commit, give_back,
  release_reservation, Reservation_owner,
}

-- The reservation, and the holds that are alive.
pub record Held : Type 0 where
  pub parent : Reservation
  pub holds : List Reservation

-- The hold `i` is named by its place in the list.
pub data Call : Type 0 where
  adds forgets_some reserves reserves_at_most : ℕ → Call
  gives_back : (i amount : ℕ) → Call
  drops : (i : ℕ) → Call
  -- The whole hold is forgotten, and committed on the reservation.
  commits : (i : ℕ) → Call

abbrev remove : List Reservation → ℕ → List Reservation
remove [] i = []
remove (h ∷ hs) zero = hs
remove (h ∷ hs) (suc i) = h ∷ remove hs i

abbrev pub push_hold : List Reservation → Option Reservation → List Reservation
push_hold hs none = hs
push_hold hs (some h) = h ∷ hs

-- A call on the hold `i`: there is none to call on past the end.
abbrev on_hold : Option Reservation → (Reservation → Outcome Held) → Outcome Held
on_hold none f = panic
on_hold (some h) f = f h

unfoldable pub perform : Call → Held → Outcome Held
unfolding add forget_some reserve reserve_at_most give_back Reservation.drop forget commit
perform (adds n) s = do p ← add s.parent n; ok (record s { parent = p })
perform (forgets_some n) s = do p ← forget_some s.parent n; ok (record s { parent = p })
perform (reserves n) s = do
  r ← reserve s.parent n
  ok (record { parent = r.0; holds = push_hold s.holds r.1 })
perform (reserves_at_most n) s = do
  r ← reserve_at_most s.parent n
  ok (record { parent = r.0; holds = r.1 ∷ s.holds })
perform (gives_back i n) s = on_hold (get_elem? s.holds i) λ h. do
  r ← give_back Reservation_owner s.parent h n
  ok (record { parent = r.0; holds = set s.holds i r.1 })
perform (drops i) s = on_hold (get_elem? s.holds i) λ h. do
  p ← Reservation.drop Reservation_owner s.parent h
  ok (record { parent = p; holds = remove s.holds i })
perform (commits i) s = on_hold (get_elem? s.holds i) λ h. do
  r ← forget h
  p ← commit s.parent r.0
  ok (record { parent = p; holds = remove s.holds i })

abbrev pub held_amount : List Reservation → ℕ
held_amount [] = 0
held_amount (h ∷ hs) = h.amount + held_amount hs

-- A hold has the reservation's owner, and no holds of its own.
abbrev pub IsHold : Option ℕ → Reservation → Type 0
IsHold o h = (h.owner_object_id ≡ o) × (h.reserved ≡ 0)

-- What is reserved is what the holds have, and the reservation covers it.
abbrev pub IsSound : Held → Type 0
IsSound s =
    (s.parent.reserved ≡ held_amount s.holds)
    × (s.parent.reserved ≤ s.parent.amount)
    × (s.parent.amount ≤ u64_max)
    × All (IsHold s.parent.owner_object_id) s.holds

-- What the callers see to.
abbrev pub IsPermitted : Call → Held → Type 0
IsPermitted (adds n) s = s.parent.amount + n ≤ u64_max
IsPermitted (forgets_some n) s = s.parent.reserved + n ≤ s.parent.amount
IsPermitted (reserves n) s = Unit
IsPermitted (reserves_at_most n) s = Unit
IsPermitted (gives_back i n) s = (h : Reservation) × (get_elem? s.holds i ≡ some h) × (n ≤ h.amount)
IsPermitted (drops i) s = (h : Reservation) × (get_elem? s.holds i ≡ some h)
IsPermitted (commits i) s = (h : Reservation) × (get_elem? s.holds i ≡ some h)

same_id-same : (o : Option ℕ) → same_id o o ≡ true
same_id-same none = refl
same_id-same (some i) = ground arith

some-injective : {h k : Reservation} → some h ≡ some k → h ≡ k
some-injective e = cc

module _ (P : Reservation → Type 0) where
  All-get :
      (hs : List Reservation) (i : ℕ) (h : Reservation) → All P hs → get_elem? hs i ≡ some h → P h
  All-get [] i h a e = cc
  All-get (x ∷ xs) zero h a e = subst P (some-injective e) a.0
  All-get (x ∷ xs) (suc i) h a e = All-get xs i h a.1 e

  All-remove : (hs : List Reservation) (i : ℕ) → All P hs → All P (remove hs i)
  All-remove [] i a = tt
  All-remove (x ∷ xs) zero a = a.1
  All-remove (x ∷ xs) (suc i) a = (a.0, All-remove xs i a.1)

  All-set : (hs : List Reservation) (i : ℕ) (h : Reservation) → All P hs → P h → All P (set hs i h)
  All-set [] i h a p = tt
  All-set (x ∷ xs) zero h a p = (p, a.1)
  All-set (x ∷ xs) (suc i) h a p = (a.0, All-set xs i h a.1 p)

held_amount-remove :
    (hs : List Reservation) (i : ℕ) (h : Reservation)
    → get_elem? hs i ≡ some h
    → held_amount hs ≡ h.amount + held_amount (remove hs i)
held_amount-remove [] i h e = cc
held_amount-remove (x ∷ xs) zero h e = rw (some-injective e) refl
held_amount-remove (x ∷ xs) (suc i) h e = omega (arith, held_amount-remove xs i h e)

held_amount-set :
    (hs : List Reservation) (i : ℕ) (h k : Reservation)
    → get_elem? hs i ≡ some h
    → held_amount (set hs i k) + h.amount ≡ held_amount hs + k.amount
held_amount-set [] i h k e = cc
held_amount-set (x ∷ xs) zero h k e = rw (some-injective e) (omega arith)
held_amount-set (x ∷ xs) (suc i) h k e = omega (arith, held_amount-set xs i h k e)

-- A permitted call on a reservation and its holds returns; after it, as before it, what is reserved
-- is the sum of the holds, and the reservation covers it.
pub perform-IsSound :
    (c : Call) (s : Held) → IsSound s → IsPermitted c s → Returns (perform c s) IsSound
unfolding perform release_reservation
perform-IsSound (adds n) s (e, l, m, a) p =
    rw (add_u64-eq s.parent.amount n p) (e, omega arith, p, a)
perform-IsSound (forgets_some n) s (e, l, m, a) p =
    rw
      (
        sub_u64-eq s.parent.amount n (omega arith),
        le→leb s.parent.reserved (s.parent.amount - n) (omega arith),
      )
      (e, omega arith, omega arith, a)
perform-IsSound (reserves n) s (e, l, m, a) p =
    rw (sub_u64-eq s.parent.amount s.parent.reserved l)
      (elim (Bool-cases (ltb (s.parent.amount - s.parent.reserved) n)) [
        | inl f ↦ rw f (e, l, m, a)
        | inr f ↦
            rw (f, add_u64-eq s.parent.reserved n (ground arith))
              (omega arith, ground arith, m, ((refl, refl), a))
      ])
perform-IsSound (reserves_at_most n) s (e, l, m, a) p =
    rw
      (
        sub_u64-eq s.parent.amount s.parent.reserved l,
        add_u64-eq s.parent.reserved (min n (s.parent.amount - s.parent.reserved)) (omega arith),
      )
      (omega arith, omega arith, m, ((refl, refl), a))
perform-IsSound (gives_back i n) s (e, l, m, a) (h, g, k) =
    let hold = All-get (IsHold s.parent.owner_object_id) s.holds i h a g in
    rw
      (
        g,
        hold.0,
        same_id-same s.parent.owner_object_id,
        le→leb n s.parent.reserved (omega (arith, held_amount-remove s.holds i h g)),
        sub_u64-eq h.amount n k,
        hold.1,
        le→leb 0 (h.amount - n) (omega arith),
      )
      (
        omega (arith, held_amount-set s.holds i h _ g),
        omega arith,
        m,
        All-set (IsHold s.parent.owner_object_id) s.holds i _ a (refl, refl),
      )
perform-IsSound (drops i) s (e, l, m, a) (h, g) =
    let hold = All-get (IsHold s.parent.owner_object_id) s.holds i h a g in
    let rest = held_amount-remove s.holds i h g in
    let others = All-remove (IsHold s.parent.owner_object_id) s.holds i a in
    rw (g, hold.1)
      (elim (Bool-cases (ltb 0 h.amount)) [
        | inl f ↦
            rw
              (
                f,
                hold.0,
                same_id-same s.parent.owner_object_id,
                le→leb h.amount s.parent.reserved (omega arith),
              )
              (omega arith, omega arith, m, others)
        | inr f ↦ rw f (ground arith, l, m, others)
      ])
perform-IsSound (commits i) s (e, l, m, a) (h, g) =
    let hold = All-get (IsHold s.parent.owner_object_id) s.holds i h a g in
    let rest = held_amount-remove s.holds i h g in
    rw
      (
        g,
        hold.1,
        sub_u64-eq s.parent.reserved h.amount (omega arith),
        sub_u64-eq s.parent.amount h.amount (omega arith),
      )
      (
        omega arith,
        omega arith,
        omega arith,
        All-remove (IsHold s.parent.owner_object_id) s.holds i a,
      )

not-ltb : (a b : ℕ) → b ≤ a → ltb a b ≡ false
not-ltb a b h = ground arith

back : (a n : ℕ) → a + n - n ≡ a
back a n = omega arith

add-none : (a n : ℕ) → n ≡ 0 → a + n ≡ a
add-none a n h = omega arith

-- Reserving what a reservation has left gives a hold of that amount, and dropping the hold gives the
-- reservation back as it was.
pub drop-reserve :
    (r : Reservation) (n : ℕ)
    → r.reserved + n ≤ r.amount
    → r.amount ≤ u64_max
    → (r' h : Reservation) × (reserve r n ≡ ok (r', some h))
      × (h.amount ≡ n)
      × (Reservation.drop Reservation_owner r' h ≡ ok r)
unfolding reserve Reservation.drop release_reservation
drop-reserve r n h m = (
  record r { reserved = r.reserved + n },
  record { owner_object_id = r.owner_object_id; amount = n; reserved = 0 },
  rw
      (
        sub_u64-eq r.amount r.reserved (omega arith),
        (not-ltb (r.amount - r.reserved) n (omega arith)),
        add_u64-eq r.reserved n (omega arith),
      )
      refl,
  refl,
  elim (Bool-cases (ltb 0 n)) [
    | inl f ↦
        rw
          (
            f,
            same_id-same r.owner_object_id,
            le→leb n (r.reserved + n) (omega arith),
            back r.reserved n,
          )
          refl
    | inr f ↦ rw (f, add-none r.reserved n (ground arith)) refl
  ],
)
