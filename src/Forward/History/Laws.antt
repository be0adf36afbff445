-- ===== src/Forward/History/Laws.antt =====
-- The ring of forwarder/forwarder.go against the list of the numbers that it let through.
use uavlink_edge.Common.{
  Bool, Bool-cases, List, [], ap, arith, false, get_elem?, if◌then◌else◌, inl, inr, length, ltb,
  refl, some, suc, sym, take, true, zero, ℕ, ◌%◌, ◌+◌, ◌-◌, ◌<◌, ◌==◌, ◌||◌, ◌∙◌, ◌∷◌, ◌≡◌, ◌≤◌,
}
use Prim.Native.Nat.{min}
use mathlib.Core.Option.{some-injective}
use native.Mathlib.Decide.{ℕ_discrete}
use uavlink_edge.Forward.History.{SeqHist, duplicate, duplicates, empty_hist, remember, seen_from}

abbrev pub elem : ℕ → List ℕ → Bool
elem x [] = false
elem x (y ∷ ys) = y == x || elem x ys

-- A number is a repeat if it is among the last 32 that were none; `seen` has these, newest first.
abbrev pub repeats : List ℕ → List ℕ → List Bool
repeats seen [] = []
repeats seen (seq ∷ seqs) =
    let old = elem seq (take 32 seen) in old ∷ repeats (if old then seen else seq ∷ seen) seqs

-- The slot of the ring that holds the number of a given age, and back.
pub record Holds (h : SeqHist) (seen : List ℕ) : Type 0 where
  pub count : h.n ≡ min 32 (length seen)
  pub place : h.pos ≡ length seen % 32
  pub slots :
      (i : ℕ)
      → i < min 32 (length seen)
      → get_elem? seen ((length seen - 1 - i) % 32) ≡ some (h.buf i)

seen_from_iff :
    (buf : ℕ → ℕ) (seq i rounds : ℕ)
    → (seen_from buf seq i rounds ≡ true)
    → (j : ℕ) × (i ≤ j) × (j < i + rounds) × (buf j ≡ seq)
seen_from_iff buf seq i zero h = cc
seen_from_iff buf seq i (suc rounds) h = elim (ℕ_discrete (buf i) seq) [
  | yes e ↦ (i, omega arith, omega arith, e)
  | no differs ↦
      let (j, le, lt, e) = seen_from_iff buf seq (i + 1) rounds (ground arith) in
      (j, omega (arith, le), omega (arith, lt), e)
]

seen_from-at :
    (buf : ℕ → ℕ) (seq i rounds j : ℕ)
    → i ≤ j
    → j < i + rounds
    → buf j ≡ seq
    → seen_from buf seq i rounds ≡ true
seen_from-at buf seq i zero j le lt e = absurd (omega arith)
seen_from-at buf seq i (suc rounds) j le lt e = elim (ℕ_discrete i j) [
  | yes same ↦ let e' : buf i ≡ seq = ap buf same ∙ e in ground arith
  | no differs ↦
      rw (seen_from-at buf seq (i + 1) rounds j (omega arith) (omega arith) e) (ground arith)
]

elem-at : (x n j : ℕ) (xs : List ℕ) → j < n → get_elem? xs j ≡ some x → elem x (take n xs) ≡ true
elem-at x n j [] lt e = cc
elem-at x zero j (y ∷ ys) lt e = absurd (omega arith)
elem-at x (suc n) zero (y ∷ ys) lt e = ground arith
elem-at x (suc n) (suc j) (y ∷ ys) lt e = let ih = elem-at x n j ys (omega arith) e in ground arith

elem-at_inv :
    (x n : ℕ) (xs : List ℕ)
    → elem x (take n xs) ≡ true
    → (j : ℕ) × (j < n) × (j < length xs) × (get_elem? xs j ≡ some x)
elem-at_inv x zero xs h = cc
elem-at_inv x (suc n) [] h = cc
elem-at_inv x (suc n) (y ∷ ys) h = elim (ℕ_discrete y x) [
  | yes e ↦ (0, omega arith, omega arith, ap (λ z. some z) e)
  | no differs ↦
      let (j, lt, len, e) = elem-at_inv x n ys (ground arith) in
      (suc j, omega (arith, lt), omega (arith, len), e)
]

Bool-eq : (a b : Bool) → (a ≡ true → b ≡ true) → (b ≡ true → a ≡ true) → a ≡ b
Bool-eq true b h g = sym (h refl)
Bool-eq false true h g = g refl
Bool-eq false false h g = refl

module _ (h : SeqHist) (seen : List ℕ) (holds : Holds h seen) where
  seen_from-elem :
      (seq : ℕ)
      → seen_from h.buf seq 0 (min 32 (length seen)) ≡ true
      → elem seq (take 32 seen) ≡ true
  seen_from-elem seq found =
      let (j, le, lt, e) = seen_from_iff h.buf seq 0 (min 32 (length seen)) found in
      elem-at seq 32 ((length seen - 1 - j) % 32) seen (omega arith)
        (holds.slots j (omega (arith, lt)) ∙ ap (λ z. some z) e)

  elem-seen_from :
      (seq : ℕ)
      → elem seq (take 32 seen) ≡ true
      → seen_from h.buf seq 0 (min 32 (length seen)) ≡ true
  elem-seen_from seq found =
      let (j, lt, len, e) = elem-at_inv seq 32 seen found in
      let i = (length seen - 1 - j) % 32 in
      let lt_i : i < min 32 (length seen) = omega (arith, lt, len) in
      let back : (length seen - 1 - i) % 32 ≡ j = omega (arith, lt, len) in
      let slot = holds.slots i lt_i in
      seen_from-at h.buf seq 0 _ i (omega arith) (omega (arith, lt_i))
        (some-injective _ _ (sym (rw back at slot) ∙ e))

  duplicate-elem :
      (seq : ℕ)
      → duplicate h seq ≡ (if elem seq (take 32 seen) then (h, true) else (remember h seq, false))
  unfolding duplicate
  duplicate-elem seq =
      let all : (if ltb 32 h.n then 32 else h.n) ≡ min 32 (length seen) =
        rw holds.count (ground arith) in
      let same = Bool-eq _ _ (seen_from-elem seq) (elem-seen_from seq) in rw (all, same) refl

  remember-slot :
      (seq i : ℕ)
      → i < min 32 (suc (length seen))
      → get_elem? (seq ∷ seen) ((suc (length seen) - 1 - i) % 32) ≡ some ((remember h seq).buf i)
  remember-slot seq i lt = elim (ℕ_discrete i h.pos) [
    | yes at_pos ↦
        let newest : (suc (length seen) - 1 - i) % 32 ≡ 0 = omega (arith, holds.place) in
        rw newest (ground arith)
    | no elsewhere ↦
        let older : (suc (length seen) - 1 - i) % 32 ≡ suc ((length seen - 1 - i) % 32) =
          omega (arith, holds.place, lt) in
        let slot = holds.slots i (omega (arith, holds.place, lt)) in rw older (ground arith)
  ]

  remember-Holds : (seq : ℕ) → Holds (remember h seq) (seq ∷ seen)
  remember-Holds seq = record {
    count = rw holds.count (ground arith);
    place = rw holds.place (omega arith);
    slots = remember-slot seq;
  }

duplicates-Holds :
    (h : SeqHist) (seen seqs : List ℕ) → Holds h seen → duplicates h seqs ≡ repeats seen seqs
unfolding duplicates
duplicates-Holds h seen [] holds = refl
duplicates-Holds h seen (seq ∷ seqs) holds = elim (Bool-cases (elem seq (take 32 seen))) [
  | inl old ↦ rw (duplicate-elem h seen holds seq, old, duplicates-Holds h seen seqs holds) refl
  | inr new ↦
      let ih =
        duplicates-Holds (remember h seq) (seq ∷ seen) seqs (remember-Holds h seen holds seq) in
      rw (duplicate-elem h seen holds seq, new, ih) refl
]

-- Whatever the sequence numbers, the ring answers for each of them what the list of the numbers let
-- through answers: it is a duplicate if it is among the last 32 of these.
pub duplicates-repeats : (seqs : List ℕ) → duplicates empty_hist seqs ≡ repeats [] seqs
duplicates-repeats seqs =
    duplicates-Holds empty_hist [] seqs
      (record { count = refl; place = refl; slots = λ i lt. absurd (omega arith) })
