-- ===== src/Rbac/Patterns.antt =====
-- `matchPerm` of src/rbac/index.ts: wildcards in a pattern of permission keys.
pub mod Matches
use dreamsso.Common.{
  ℕ, String, Bool, true, false, not, ◌&&◌, List, [], ◌∷◌, ◌++◌, ◌==◌, if◌then◌else◌, nat_eq,
  list_eq,
}
use dreamsso.Common.Text.{codes}

-- A segment as its code points.
abbrev pub Segment : Type 0
Segment = List ℕ

-- `split('.')`; `current` is the segment that is being read.
split_from : Segment → List ℕ → List Segment
split_from current [] = current ∷ []
split_from current (c ∷ cs) =
    let closed = current ∷ split_from [] cs in
    let longer = split_from (current ++ c ∷ []) cs in if c == b'.' then closed else longer

unfoldable pub split : String → List Segment
unfolding split_from
split s = split_from [] (codes s)

abbrev pub star : Segment
star = b'*' ∷ []

abbrev pub stars : Segment
stars = b'*' ∷ b'*' ∷ []

abbrev pub is_empty {ℓ} : {A : Type ℓ} → List A → Bool
is_empty [] = true
is_empty (x ∷ xs) = false

-- The loop of `matchPerm`, from the segments at index i of the pattern and of the key.
pub match_segments : List Segment → List Segment → Bool
match_segments [] ks = is_empty ks
-- No key segment is left: `**` wants one, and so does any other segment.
match_segments (p ∷ ps) [] = false
match_segments (p ∷ ps) (k ∷ ks) =
    let rest = match_segments ps ks in
    if p == stars then is_empty ps else if not (p == star) && not (p == k) then false else rest

pub match_perm : String → String → Bool
unfolding match_segments split
match_perm pattern key = match_segments (split pattern) (split key)
