-- ===== src/Forward/Stats/Laws.antt =====
-- The counters of forwarder/forwarder.go over any order of increments and reports.
use uavlink_edge.Common.{Bool-cases, List, [], arith, inl, inr, refl, ℕ, ◌%◌, ◌+◌, ◌^◌, ◌∷◌, ◌≡◌}
use Prim.Native.Nat.{min}
use uavlink_edge.Forward.Stats.{
  PktCounter, PktStats, inc_pkt, same_counter, subtract_positive, take_pkt_stats_snapshot,
}

-- One call under pktStatsMu: an increment, or a report of the second.
pub data PktCall : Type 0 where
  counts : PktCounter → PktCall
  reports : PktCall

abbrev pub run_calls : PktStats → List PktCall → PktStats
run_calls s [] = s
run_calls s (counts c ∷ calls) = run_calls (inc_pkt c s) calls
run_calls s (reports ∷ calls) = run_calls (take_pkt_stats_snapshot s).1 calls

-- What the reports of a run say of one counter, added up.
abbrev pub reported : PktStats → List PktCall → PktCounter → ℕ
reported s [] c = 0
reported s (counts d ∷ calls) c = reported (inc_pkt d s) calls c
reported s (reports ∷ calls) c =
    (take_pkt_stats_snapshot s).0.0 c + reported (take_pkt_stats_snapshot s).1 calls c

snapshot-parts :
    (s : PktStats) (c : PktCounter)
    → ((take_pkt_stats_snapshot s).0.0 c ≡ s.sec c)
      × ((take_pkt_stats_snapshot s).1.sec c ≡ 0)
      × ((take_pkt_stats_snapshot s).1.total c ≡ s.total c)
unfolding take_pkt_stats_snapshot
snapshot-parts s c = (refl, refl, refl)

-- However increments and reports alternate, the growth of a total is what the reports said of it
-- and what the next report will say, up to the wrap-around of 64 bits: no packet is lost or
-- reported twice.
pub reports_add_up :
    (s : PktStats) (calls : List PktCall) (c : PktCounter)
    → (reported s calls c + (run_calls s calls).sec c + s.total c) % 2 ^ 64
      ≡ (s.sec c + (run_calls s calls).total c) % 2 ^ 64
unfolding inc_pkt
reports_add_up s [] c = omega arith
reports_add_up s (counts d ∷ calls) c =
    let ih = reports_add_up (inc_pkt d s) calls c in
    elim (Bool-cases (same_counter d c)) [
      | inl same ↦
          let grown : (inc_pkt d s).sec c ≡ (s.sec c + 1) % 2 ^ 64 = rw same refl in
          let total : (inc_pkt d s).total c ≡ (s.total c + 1) % 2 ^ 64 = rw same refl in
          omega (arith, ih, grown, total)
      | inr other ↦
          let kept : (inc_pkt d s).sec c ≡ s.sec c = rw other refl in
          let total : (inc_pkt d s).total c ≡ s.total c = rw other refl in
          omega (arith, ih, kept, total)
    ]
reports_add_up s (reports ∷ calls) c =
    let ih = reports_add_up (take_pkt_stats_snapshot s).1 calls c in
    let (taken, zero_now, total) = snapshot-parts s c in omega (arith, ih, taken, zero_now, total)

-- The extra traffic of a second: subtractPositive and its mirror image tell two maps apart, and with
-- what is common they give both back.
pub subtract_positive_splits :
    (a b : ℕ → ℕ) (id : ℕ)
    → (min (a id) (b id) + subtract_positive a b id ≡ a id)
      × (min (a id) (b id) + subtract_positive b a id ≡ b id)
unfolding subtract_positive
subtract_positive_splits a b id = ground arith
