-- ===== src/Keys/Selection.antt =====
-- The key that `current` of src/signingKeyRotation.ts selects for signing.
use dreamsso.Common.{
  ℕ, ◌+◌, ◌≤◌, String, Bool, true, false, not, ◌&&◌, Option, none, some, List, [], ◌∷◌, any, find?,
  filter, length, leb, ◌==◌, ◌≡◌, ◌⊎◌, refl, sym, ap, ◌∙◌, subst, arith, Bool-cases, inl, inr,
  nat_eq, beq_refl,
}
use dreamsso.Common.Result.{Result, ok, err, >>=-eq-ok, or_fail-ok, fail_if-ok, ok-injective}
use dreamsso.Keys.{
  SigningKey, prepublication, is_current, is_next, is_live, read_rows, bootstrap, reconcile,
  key_status_eq,
}
use dreamsso.Keys.Prepublication.{signs, reconcile_prepublished}
use dreamsso.Keys.Status.{current, attempted, maintain, with_current, needs_maintenance}

-- A key that was published at least five minutes ago waits to sign.
pub record Announced (clock kid : ℕ) (keys : List SigningKey) : Type 0 where
  pub live : List SigningKey
  pub next : SigningKey
  pub published : ℕ
  pub read : read_rows keys ≡ ok live
  pub waiting : find? is_next live ≡ some next
  pub same_kid : next.kid ≡ kid
  pub since : next.published_at ≡ some published
  pub long_enough : published + prepublication ≤ clock

find?-signs :
    (keys : List SigningKey) (k : SigningKey)
    → find? is_current (filter is_live keys) ≡ some k
    → signs k.kid keys ≡ true
unfolding signs
find?-signs [] k h = ground arith
find?-signs (r ∷ keys) k h = elim (Bool-cases (is_live r)) [
  | inr dead ↦ let rest = find?-signs keys k (ground arith) in ground arith
  | inl live ↦ elim (Bool-cases (is_current r)) [
    | inl here ↦
        let same : r ≡ k = ground arith in
        subst (λ x. any (λ y. y.kid == x.kid && is_current y) (r ∷ keys) ≡ true) same
          (ground (arith, beq_refl r.kid))
    | inr other ↦ let rest = find?-signs keys k (ground arith) in ground arith
  ]
]

read_rows-live :
    (keys live : List SigningKey) → read_rows keys ≡ ok live → live ≡ filter is_live keys
unfolding read_rows
read_rows-live keys live h = let (fine, made) = fail_if-ok _ _ _ h in sym (ok-injective made)

bootstrap-first :
    (clock kid : ℕ) (keys started : List SigningKey)
    → any is_current (filter is_live keys) ≡ false
    → bootstrap clock kid keys ≡ ok started
    → keys ≡ []
unfolding bootstrap
bootstrap-first clock kid [] started idle h = refl
bootstrap-first clock kid (k ∷ keys) started idle h =
    let (live, read, h₁) = >>=-eq-ok (read_rows (k ∷ keys)) _ h in
    let rows = read_rows-live (k ∷ keys) live read in
    let (fine, h₂) =
      fail_if-ok (not (any is_current live) && not (leb (length (k ∷ keys)) 0)) _ _ h₁ in
    let none_current : any is_current live ≡ false = ap (λ l. any is_current l) rows ∙ idle in
    ground arith

attempted-Announced :
    (clock kid x : ℕ) (strict : Bool) (keys kept : List SigningKey)
    (attempt : Result String (List SigningKey × Bool))
    → reconcile clock kid keys ≡ attempt
    → attempted strict keys attempt ≡ ok kept
    → signs x kept ≡ true
    → signs x keys ≡ false
    → Announced clock x keys
attempted-Announced clock kid x strict keys kept (ok (rows, modified)) run h now before =
    let same : rows ≡ kept = ok-injective h in
    let (live, next, published, read, waiting, kids, since, waited) =
      reconcile_prepublished clock kid keys rows modified run x (ap (λ k. signs x k) same ∙ now)
        before in
    record {
      live = live;
      next = next;
      published = published;
      read = read;
      waiting = waiting;
      same_kid = kids;
      since = since;
      long_enough = waited;
    }
attempted-Announced clock kid x true keys kept (err e) run h now before = cc
attempted-Announced clock kid x false keys kept (err e) run h now before =
    let same : keys ≡ kept = ok-injective h in let still = ap (λ k. signs x k) same in ground arith

maintained :
    (clock x : ℕ) (strict : Bool) (keys kept : List SigningKey) (next : Option SigningKey)
    → maintain clock strict keys next ≡ ok kept
    → signs x kept ≡ true
    → signs x keys ≡ false
    → Announced clock x keys
maintained clock x strict keys kept none h now before =
    let same : keys ≡ kept = ok-injective h in let still = ap (λ k. signs x k) same in ground arith
maintained clock x strict keys kept (some next) h now before =
    elim (Bool-cases (needs_maintenance clock next)) [
      | inr idle ↦
          let run : maintain clock strict keys (some next) ≡ ok keys = ground arith in
          let same : keys ≡ kept = ok-injective (sym run ∙ h) in
          let still = ap (λ k. signs x k) same in ground arith
      | inl due ↦
          let run : maintain clock strict keys (some next)
              ≡ attempted strict keys (reconcile clock next.kid keys) =
            ground arith in
          attempted-Announced clock next.kid x strict keys kept (reconcile clock next.kid keys) refl
            (sym run ∙ h) now before
    ]

-- Whatever key `current` selects: it signed before, or it is the first key there ever was, or it was
-- the pending one and had been published for at least 300 seconds.
pub current-Announced :
    (clock first : ℕ) (strict : Bool) (keys kept : List SigningKey) (signer : SigningKey)
    → current clock first strict keys ≡ ok (kept, signer)
    → (signs signer.kid keys ≡ true) ⊎ ((keys ≡ []) ⊎ Announced clock signer.kid keys)
unfolding current
current-Announced clock first strict keys kept signer h =
    let (live, read, h₁) = >>=-eq-ok (read_rows keys) _ h in
    let (started, begun, h₂) = >>=-eq-ok (with_current clock first keys live) _ h₁ in
    let (rows, read_started, h₃) = >>=-eq-ok (read_rows started) _ h₂ in
    let (after, maintained_rows, h₄) =
      >>=-eq-ok (maintain clock strict started (find? is_next rows)) _ h₃ in
    let (final, read_final, h₅) = >>=-eq-ok (read_rows after) _ h₄ in
    let (chosen, found, h₆) = or_fail-ok (find? is_current final) _ _ h₅ in
    let made = ok-injective h₆ in
    let same_kept : after ≡ kept = ap (λ p. p.0) made in
    let same_signer : chosen ≡ signer = ap (λ p. p.1) made in
    let found_final : find? is_current (filter is_live after) ≡ some chosen =
      ap (λ l. find? is_current l) (sym (read_rows-live after final read_final)) ∙ found in
    let signs_after : signs signer.kid after ≡ true =
      subst (λ (k : SigningKey). signs k.kid after ≡ true) same_signer
        (find?-signs after chosen found_final) in
    elim (Bool-cases (signs signer.kid keys)) [
      | inl before ↦ inl before
      | inr new ↦ elim (Bool-cases (any is_current live)) [
        | inr idle ↦
            let none_current : any is_current (filter is_live keys) ≡ false =
              ap (λ l. any is_current l) (sym (read_rows-live keys live read)) ∙ idle in
            let with_bootstrap : with_current clock first keys live ≡ bootstrap clock first keys =
              ground arith in
            let booted : bootstrap clock first keys ≡ ok started = sym with_bootstrap ∙ begun in
            inr (inl (bootstrap-first clock first keys started none_current booted))
        | inl signing ↦
            let unchanged : with_current clock first keys live ≡ ok keys = ground arith in
            let same : keys ≡ started = ok-injective (sym unchanged ∙ begun) in
            let maintained_keys : maintain clock strict keys (find? is_next rows) ≡ ok after =
              ap (λ k. maintain clock strict k (find? is_next rows)) same ∙ maintained_rows in
            inr (
              inr (
                maintained clock signer.kid strict keys after (find? is_next rows) maintained_keys
                  signs_after new))
      ]
    ]
