-- ===== src/Forward/History.antt =====
-- seqHist of forwarder/forwarder.go: a ring of the last 32 sequence numbers of one sender. The array
-- is a function; every index that the code uses is below 32 (see Laws).
pub mod Laws
use uavlink_edge.Common.{
  Bool, List, [], false, if◌then◌else◌, ltb, suc, true, zero, ℕ, ◌%◌, ◌+◌, ◌==◌, ◌||◌, ◌∷◌,
}

abbrev pub seq_hist_len : ℕ
seq_hist_len = 32

pub record SeqHist : Type 0 where
  pub buf : ℕ → ℕ
  pub n : ℕ
  pub pos : ℕ

-- The loop over buf from i on, with `rounds` rounds to go.
abbrev pub seen_from : (ℕ → ℕ) → ℕ → ℕ → ℕ → Bool
seen_from buf seq i zero = false
seen_from buf seq i (suc rounds) = buf i == seq || seen_from buf seq (i + 1) rounds

-- buf[i] = v
abbrev pub set_at : (ℕ → ℕ) → ℕ → ℕ → ℕ → ℕ
set_at buf i v j = if j == i then v else buf j

-- The new number takes the slot at pos.
abbrev pub remember : SeqHist → ℕ → SeqHist
remember h seq = record {
  buf = set_at h.buf h.pos seq;
  n = if ltb h.n seq_hist_len then h.n + 1 else h.n;
  pos = (h.pos + 1) % seq_hist_len;
}

unfoldable pub duplicate : SeqHist → ℕ → SeqHist × Bool
duplicate h seq =
    let n = if ltb seq_hist_len h.n then seq_hist_len else h.n in
    if seen_from h.buf seq 0 n then (h, true) else (remember h seq, false)

-- &seqHist{}
abbrev pub empty_hist : SeqHist
empty_hist = record { buf = λ _. 0; n = 0; pos = 0 }

-- What duplicate answers for one number after another.
unfoldable pub duplicates : SeqHist → List ℕ → List Bool
duplicates h [] = []
duplicates h (seq ∷ seqs) = (duplicate h seq).1 ∷ duplicates (duplicate h seq).0 seqs
