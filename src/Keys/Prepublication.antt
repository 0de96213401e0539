-- ===== src/Keys/Prepublication.antt =====
-- The promise of src/signingKeyRotation.ts to those who cache its keys.
use dreamsso.Common.{
  ℕ, ◌+◌, ◌≤◌, Bool, true, false, not, ◌&&◌, ◌||◌, some, ◌≡◌, refl, sym, ap, ◌∙◌, List, [], ◌∷◌,
  ◌==◌, any, all, find?, filter, length, leb, nat_eq, arith, Bool-cases, Option-cases, inl, inr,
  subst,
}
use dreamsso.Common.Result.{ok, >>=-eq-ok, or_fail-ok, fail_if-ok, ok-injective}
use dreamsso.Keys.{
  SigningKey, prepublication, is_current, is_next, valid_row, read_rows, mark_row, switch_row,
  map_rows, advance, reconcile, key_status_eq, too_early, is_live,
}

-- A kid signs: some row of it is current.
unfoldable pub signs : ℕ → List SigningKey → Bool
signs kid keys = any (λ k. k.kid == kid && is_current k) keys

signs-mark :
    (clock kid x : ℕ) (keys : List SigningKey)
    → signs x (map_rows (mark_row clock kid) keys) ≡ signs x keys
unfolding signs map_rows mark_row
signs-mark clock kid x [] = refl
signs-mark clock kid x (k ∷ keys) = ground (arith, signs-mark clock kid x keys)

signs-switch :
    (clock old kid x : ℕ) (keys : List SigningKey)
    → signs x (map_rows (switch_row clock old kid) keys) ≡ true
    → signs x keys ≡ false
    → x ≡ kid
unfolding signs map_rows switch_row
signs-switch clock old kid x [] h k = ground arith
signs-switch clock old kid x (r ∷ keys) h k = ground (arith, signs-switch clock old kid x keys)

read_rows-valid :
    (keys live : List SigningKey) → read_rows keys ≡ ok live → all valid_row live ≡ true
unfolding read_rows
read_rows-valid keys live h =
    let (fine, h₁) =
      fail_if-ok
        (not (leb (length (filter is_current (filter is_live keys))) 1)
          || not (leb (length (filter is_next (filter is_live keys))) 1)
          || not (all valid_row (filter is_live keys)))
        _ _ h in
    subst (λ rows. all valid_row rows ≡ true) (ok-injective h₁) (ground arith)

find?-valid :
    (rows : List SigningKey) (k : SigningKey)
    → all valid_row rows ≡ true
    → find? is_next rows ≡ some k
    → valid_row k ≡ true
find?-valid [] k h f = ground arith
find?-valid (r ∷ rows) k h f = elim (Bool-cases (is_next r)) [
  | inl here ↦
      let same : r ≡ k = ground arith in subst (λ x. valid_row x ≡ true) same (ground arith)
  | inr later ↦ find?-valid rows k (ground arith) (ground arith)
]

-- What a step of `advance` that changes the signer has found.
advance_prepublished :
    (clock kid : ℕ) (keys : List SigningKey) (old next : SigningKey) (x : ℕ)
    → valid_row next ≡ true
    → signs x (advance clock kid keys old (some next)).0 ≡ true
    → signs x keys ≡ false
    → (published : ℕ) × (next.kid ≡ x)
      × (next.published_at ≡ some published)
      × (published + prepublication ≤ clock)
unfolding advance
advance_prepublished clock kid keys old next x valid now before =
    let marked = signs-mark clock kid x keys in
    elim (Option-cases next.published_at) [
      | inl waiting ↦ ground arith
      | inr (published, at) ↦ elim (Option-cases next.activate_after) [
        | inl odd ↦ ground arith
        | inr (due, e) ↦
            elim (Bool-cases (not (next.kid == kid) || too_early clock next.activate_after)) [
              | inl idle ↦ ground arith
              | inr ready ↦
                  let turned : signs x (map_rows (switch_row clock old.kid kid) keys) ≡ true =
                    ground arith in
                  let same = signs-switch clock old.kid kid x keys turned before in
                  (published, ground arith, at, ground arith)
            ]
      ]
    ]

-- A key that a reconciliation newly puts in charge was the pending next key, and had been marked as
-- published for at least 300 seconds.
pub reconcile_prepublished :
    (clock kid : ℕ) (keys keys' : List SigningKey) (modified : Bool)
    → reconcile clock kid keys ≡ ok (keys', modified)
    → (x : ℕ) → signs x keys' ≡ true
    → signs x keys ≡ false
    → (live : List SigningKey) × (next : SigningKey) × (published : ℕ) × (read_rows keys ≡ ok live)
      × (find? is_next live ≡ some next)
      × (next.kid ≡ x)
      × (next.published_at ≡ some published)
      × (published + prepublication ≤ clock)
unfolding reconcile advance
reconcile_prepublished clock kid keys keys' modified h x now before =
    let (live, read, h₁) = >>=-eq-ok (read_rows keys) _ h in
    let (old, found, h₂) = or_fail-ok (find? is_current live) _ _ h₁ in
    let done = ok-injective h₂ in
    elim (Option-cases (find? is_next live)) [
      | inl nobody ↦
          let kept : keys ≡ keys' =
            ap (λ o. (advance clock kid keys old o).0) (sym nobody) ∙ ap (λ r. r.0) done in
          ground arith
      | inr (next, f) ↦
          let moved : (advance clock kid keys old (some next)).0 ≡ keys' =
            ap (λ o. (advance clock kid keys old o).0) (sym f) ∙ ap (λ r. r.0) done in
          let (published, same, at, waited) =
            advance_prepublished clock kid keys old next x
              (find?-valid live next (read_rows-valid keys live read) f) (ap (signs x) moved ∙ now)
              before in
          (live, next, published, read, f, same, at, waited)
    ]
