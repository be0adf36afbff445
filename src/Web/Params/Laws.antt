-- ===== src/Web/Params/Laws.antt =====
-- What the cache of parameters in web/server.go holds.
pub mod Runs
pub mod Confirmed
use uavlink_edge.Common.{
  ==_iff, All, Bool-cases, List, Option-cases, [], ap, arith, false, if◌then◌else◌, inl, inr, none,
  refl, some, sym, true, ◌==◌, ◌↔◌, ◌∙◌, ◌∷◌, ◌≡◌, ◌≢◌,
}
use mathlib.Core.Path.{subst}
use uavlink_edge.Session.Calls.{same_bytes}
use uavlink_edge.Web.Params.{
  CachedParameter, find_trimmed, get_param, lookup_cached_param, put_param, trim_param_id,
  until_nul,
}
use uavlink_edge.Wire.Bytes.{Bytes}

-- What strings.TrimSpace does to the bytes of a text.
pub record IsTrimming (trim_space : Bytes → Bytes) : Type 0 where
  pub idempotent : (bs : Bytes) → trim_space (trim_space bs) ≡ trim_space bs
  pub without_nul : (bs : Bytes) → All (λ b. b ≢ 0) bs → All (λ b. b ≢ 0) (trim_space bs)

pub same_bytes_iff : (a b : Bytes) → (same_bytes a b ≡ true) ↔ (a ≡ b)
same_bytes_iff [] [] = ((λ h. refl), λ e. refl)
same_bytes_iff [] (b ∷ bs) = ((λ h. absurd (ground arith)), λ e. absurd (ground arith))
same_bytes_iff (a ∷ rest) [] = ((λ h. absurd (ground arith)), λ e. absurd (ground arith))
same_bytes_iff (a ∷ rest) (b ∷ bs) =
    let ih = same_bytes_iff rest bs in
    let first = ==_iff a b in ((λ h. ground arith), λ e. ground arith)

until_nul-All : (bs : Bytes) → All (λ b. b ≢ 0) (until_nul bs)
until_nul-All [] = tt
until_nul-All (b ∷ bs) = elim (Bool-cases (b == 0)) [
  | inl nul ↦ rw nul tt
  | inr letter ↦ rw letter ((λ e. absurd (ground arith)), until_nul-All bs)
]

until_nul_same : (bs : Bytes) → All (λ b. b ≢ 0) bs → until_nul bs ≡ bs
until_nul_same [] h = refl
until_nul_same (b ∷ bs) h =
    let e : (b == 0) ≡ false = ground arith in rw e (ap (λ l. b ∷ l) (until_nul_same bs h.1))

module _ {F : Type 0} where
  pub get-put_param :
      (key : Bytes) (p : CachedParameter F) (qs : List (CachedParameter F))
      → get_param key (put_param p qs)
        ≡ (if same_bytes p.name key then some p else get_param key qs)
  get-put_param key p [] = refl
  get-put_param key p (q ∷ qs) =
      let ih = get-put_param key p qs in
      let a = same_bytes_iff q.name p.name in
      let b = same_bytes_iff q.name key in let c = same_bytes_iff p.name key in ground arith

  -- No name is stored twice.
  abbrev pub HasUniqueNames : List (CachedParameter F) → Type 0
  HasUniqueNames [] = Unit
  HasUniqueNames (q ∷ qs) = (get_param q.name qs ≡ none) × HasUniqueNames qs

  pub put_param-HasUniqueNames :
      (p : CachedParameter F) (qs : List (CachedParameter F))
      → HasUniqueNames qs
      → HasUniqueNames (put_param p qs)
  put_param-HasUniqueNames p [] h = (refl, tt)
  put_param-HasUniqueNames p (q ∷ qs) h = elim (Bool-cases (same_bytes q.name p.name)) [
    | inl same ↦
        rw same (ap (λ n. get_param n qs) (sym ((same_bytes_iff q.name p.name).0 same)) ∙ h.0, h.1)
    | inr apart ↦
        let there = same_bytes_iff q.name p.name in
        let back = same_bytes_iff p.name q.name in
        let swapped : same_bytes p.name q.name ≡ false = ground arith in
        rw apart (get-put_param q.name p qs ∙ rw swapped h.0, put_param-HasUniqueNames p qs h.1)
  ]

module _ (trim_space : Bytes → Bytes) (trims : IsTrimming trim_space) where
  pub trim_idempotent :
      (bs : Bytes)
      → trim_param_id trim_space (trim_param_id trim_space bs) ≡ trim_param_id trim_space bs
  unfolding trim_param_id
  trim_idempotent bs =
      ap trim_space
        (until_nul_same (trim_space (until_nul bs)) (trims.without_nul _ (until_nul-All bs)))
      ∙ trims.idempotent (until_nul bs)

  module _ {F : Type 0} where
    -- The names are trimmed.
    abbrev pub HasCleanNames : List (CachedParameter F) → Type 0
    HasCleanNames = All (λ q. trim_param_id trim_space q.name ≡ q.name)

    pub put_param-HasCleanNames :
        (p : CachedParameter F) (qs : List (CachedParameter F))
        → trim_param_id trim_space p.name ≡ p.name
        → HasCleanNames qs
        → HasCleanNames (put_param p qs)
    put_param-HasCleanNames p [] c h = (c, tt)
    put_param-HasCleanNames p (q ∷ qs) c h = elim (Bool-cases (same_bytes q.name p.name)) [
      | inl same ↦ rw same (c, h.1)
      | inr apart ↦ rw apart (h.0, put_param-HasCleanNames p qs c h.1)
    ]

    find_trimmed-get :
        (want : Bytes) (qs : List (CachedParameter F))
        → HasCleanNames qs
        → find_trimmed trim_space want qs ≡ get_param want qs
    find_trimmed-get want [] h = refl
    find_trimmed-get want (q ∷ qs) h = rw (h.0, find_trimmed-get want qs h.1) refl

    get_param-clean :
        (key : Bytes) (p : CachedParameter F) (qs : List (CachedParameter F))
        → HasCleanNames qs
        → get_param key qs ≡ some p
        → trim_param_id trim_space key ≡ key
    get_param-clean key p [] h e = absurd (ground arith)
    get_param-clean key p (q ∷ qs) h e = elim (Bool-cases (same_bytes q.name key)) [
      | inl same ↦
          subst (λ n. trim_param_id trim_space n ≡ n) ((same_bytes_iff q.name key).0 same) h.0
      | inr apart ↦ get_param-clean key p qs h.1 (rw apart at e)
    ]

    -- On trimmed names, the order in which the loop visits the map does not matter.
    pub lookup-get :
        (key : Bytes) (qs : List (CachedParameter F))
        → HasCleanNames qs
        → lookup_cached_param trim_space key qs ≡ get_param (trim_param_id trim_space key) qs
    unfolding lookup_cached_param
    lookup-get key qs h = elim (Option-cases (get_param key qs)) [
      | inl missing ↦ rw missing (find_trimmed-get (trim_param_id trim_space key) qs h)
      | inr found ↦
          let (p, e) = found in
          rw e (sym (ap (λ n. get_param n qs) (get_param-clean key p qs h e) ∙ e))
    ]
