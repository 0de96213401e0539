-- ===== src/Rbac/Patterns/Matches.antt =====
-- The meaning of a permission pattern.
use dreamsso.Common.{
  String, true, ◌≡◌, refl, ◌≢◌, ◌↔◌, List, [], ◌∷◌, arith, list_eq, nat_eq, ◌==◌, Bool-cases, inl,
  inr,
}
use dreamsso.Rbac.Patterns.{Segment, star, stars, is_empty, match_segments, match_perm, split}

-- `*` stands for one segment, `**` for one or more at the end, anything else for itself.
pub data Matches : List Segment → List Segment → Type 0 where
  end : Matches [] []
  suffix : (p k : Segment) (ks : List Segment) → p ≡ stars → Matches (p ∷ []) (k ∷ ks)
  any_one :
      {ps ks : List Segment} (p k : Segment) → p ≡ star → Matches ps ks → Matches (p ∷ ps) (k ∷ ks)
  same :
      {ps ks : List Segment} (p k : Segment)
      → p ≢ stars
      → p ≡ k
      → Matches ps ks
      → Matches (p ∷ ps) (k ∷ ks)

segment_iff : (p q : Segment) → ((p == q) ≡ true) ↔ (p ≡ q)
segment_iff p q = list_eq.beq_iff p q

complete : {ps ks : List Segment} → Matches ps ks → match_segments ps ks ≡ true
unfolding match_segments
complete end = refl
complete (suffix p k ks e) = ground (arith, segment_iff p stars)
complete (any_one p k e m) = ground (arith, complete m, segment_iff p star, segment_iff p stars)
complete (same p k d e m) =
    ground (arith, complete m, segment_iff p star, segment_iff p stars, segment_iff p k)

sound : (ps ks : List Segment) → match_segments ps ks ≡ true → Matches ps ks
unfolding match_segments
sound [] [] h = end
sound [] (k ∷ ks) h = absurd (ground arith)
sound (p ∷ ps) [] h = absurd (ground arith)
sound (p ∷ ps) (k ∷ ks) h = elim (Bool-cases (p == stars)) [
  | inl many ↦ last ps ((segment_iff p stars).0 many) (ground arith)
  | inr single ↦ elim (Bool-cases (p == star)) [
    | inl one ↦ any_one p k ((segment_iff p star).0 one) (sound ps ks (ground arith))
    | inr literal ↦
        same p k (λ e. ground (arith, segment_iff p stars)) (ground (arith, segment_iff p k))
          (sound ps ks (ground arith))
  ]
]
  where
    last : (qs : List Segment) → p ≡ stars → is_empty qs ≡ true → Matches (p ∷ qs) (k ∷ ks)
    last [] e i = suffix p k ks e
    last (q ∷ qs) e i = absurd (ground arith)

-- `matchPerm` accepts exactly the keys that the pattern describes.
pub match_perm_iff :
    (pattern key : String) → (match_perm pattern key ≡ true) ↔ Matches (split pattern) (split key)
unfolding match_perm
match_perm_iff pattern key = (sound (split pattern) (split key), complete)
