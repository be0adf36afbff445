-- ===== src/Egress/Waiting.antt =====
-- The wait for the cloud in network/egress.go ends.
use uavlink_edge.Common.{
  Bool-cases, Option, arith, false, inl, inr, ltb, lt→ltb, refl, some, suc, true, zero, ℕ, ◌*◌, ◌+◌,
  ◌<◌, ◌≡◌, ◌≤◌, ◌⊎◌,
}
use native.Mathlib.Decide.{dec_lt}
use uavlink_edge.Egress.{Egress, Fields, cloud_ready, no_egress, physical_egress, poll}
use uavlink_edge.Link.Step.{second}

-- What WaitForCloudEgress may return: nothing, or the egress of a round before the deadline in which
-- the status file said that the cloud is ready.
abbrev pub IsAnswer : (ℕ → ℕ) → (ℕ → Option Fields) → (ℕ → Option Fields) → ℕ → Egress → Type 0
IsAnswer now_at first_read second_read deadline e =
    (e ≡ no_egress)
    ⊎ ((k : ℕ) × (now_at k < deadline)
        × (cloud_ready (first_read k) ≡ true)
        × (e ≡ physical_egress (second_read k)))

module _ (now_at : ℕ → ℕ) (first_read second_read : ℕ → Option Fields) where
  abbrev Answer : ℕ → Option Egress → Type 0
  Answer deadline x =
      (e : Egress) × (x ≡ some e) × IsAnswer now_at first_read second_read deadline e

  one_round :
      (rounds round deadline : ℕ)
      → (now_at round < deadline
          → Answer deadline (poll now_at first_read second_read rounds (round + 1) deadline))
      → Answer deadline (poll now_at first_read second_read (suc rounds) round deadline)
  unfolding poll
  one_round rounds round deadline later = elim (dec_lt (now_at round) deadline) [
    | no late ↦
        let stops : ltb (now_at round) deadline ≡ false = ground (arith, late) in
        (no_egress, rw stops refl, inl refl)
    | yes early ↦
        rw (lt→ltb (now_at round) deadline early)
          (elim (Bool-cases (cloud_ready (first_read round))) [
            | inl ready ↦ (
              physical_egress (second_read round),
              rw ready refl,
              inr (round, early, ready, refl),
            )
            | inr unready ↦ rw unready (later early)
          ])
  ]

  -- The wait returns an answer once there are as many rounds of 2 seconds as the time that is left,
  -- and one more, if the clock moves by 2 seconds or more while the program sleeps, whatever the
  -- status file says at each reading.
  pub poll-ends :
      ((i : ℕ) → now_at i + 2 * second ≤ now_at (i + 1))
      → (rounds round deadline : ℕ) → deadline ≤ now_at round + rounds * (2 * second)
      → (e : Egress) × (poll now_at first_read second_read (suc rounds) round deadline ≡ some e)
        × IsAnswer now_at first_read second_read deadline e
  poll-ends sleeps zero round deadline enough =
      one_round zero round deadline λ early. absurd (omega arith)
  poll-ends sleeps (suc rounds) round deadline enough =
      one_round (suc rounds) round deadline
        λ early. poll-ends sleeps rounds (round + 1) deadline (omega (arith, sleeps round))
