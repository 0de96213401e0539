-- ===== src/Keys.antt =====
-- The rotation of the signing key, src/signingKeyRotation.ts: the rows of signing_keys and the
-- transactions of `SigningKeyRotation`, each at one instant in milliseconds. Key material other than
-- the kid is left out.
pub mod Prepublication
pub mod Status
pub mod Selection
mod Tests
use dreamsso.Common.{
  ℕ, ◌+◌, String, Bool, true, false, not, ◌&&◌, ◌||◌, Option, none, some, ◌≡◌, ◌↔◌, List, [], ◌∷◌,
  ◌++◌, ◌==◌, any, all, find?, filter, length, is_some, leb, ltb, if◌then◌else◌, nat_eq, bool_eq,
  arith, Eq,
}
use dreamsso.Common.Result.{Result, ok, err, ◌>>=◌, ◌>>◌, fail_if, or_fail}

abbrev pub prepublication : ℕ
prepublication = 300000

pub data KeyStatus : Type 0 where
  current_key next_key retired_key : KeyStatus

abbrev key_status_beq : KeyStatus → KeyStatus → Bool
key_status_beq current_key current_key = true
key_status_beq next_key next_key = true
key_status_beq retired_key retired_key = true
key_status_beq _ _ = false

pub key_status_beq_iff : (a b : KeyStatus) → (key_status_beq a b ≡ true) ↔ (a ≡ b)
key_status_beq_iff current_key b = ground arith
key_status_beq_iff next_key b = ground arith
key_status_beq_iff retired_key b = ground arith

instance abbrev pub key_status_eq : Eq KeyStatus
key_status_eq = record { beq_iff = key_status_beq_iff; beq = key_status_beq }

pub record SigningKey : Type 0 where
  pub kid : ℕ
  pub status : KeyStatus
  pub activated_at : Option ℕ
  pub retired_at : Option ℕ
  pub rotation_id : Option ℕ
  pub published_at : Option ℕ
  pub activate_after : Option ℕ

abbrev pub is_current : SigningKey → Bool
is_current k = k.status == current_key

abbrev pub is_next : SigningKey → Bool
is_next k = k.status == next_key

-- `activate_after` and `published_at` come together, at least five minutes apart.
abbrev pub well_spaced : Option ℕ → Option ℕ → Bool
well_spaced none none = true
well_spaced none (some a) = false
well_spaced (some p) none = false
well_spaced (some p) (some a) = leb (p + prepublication) a

abbrev pub valid_row : SigningKey → Bool
valid_row k =
    well_spaced k.published_at k.activate_after
    && (not (is_next k)
        || (is_some k.rotation_id && not (is_some k.activated_at) && not (is_some k.retired_at)))

abbrev pub is_live : SigningKey → Bool
is_live k = is_current k || is_next k

-- `rows`: at most one current key and at most one next key, each of a valid shape.
pub read_rows : List SigningKey → Result String (List SigningKey)
read_rows keys = do
  let live = filter is_live keys
  fail_if
      (not (leb (length (filter is_current live)) 1)
        || not (leb (length (filter is_next live)) 1)
        || not (all valid_row live))
      "signing_key_state_unavailable"
  ok live

-- A first key only where there has never been one.
pub bootstrap : ℕ → ℕ → List SigningKey → Result String (List SigningKey)
bootstrap clock kid keys = do
  live ← read_rows keys
  fail_if (not (any is_current live) && not (leb (length keys) 0)) "signing_key_state_unavailable"
  ok (
      if any is_current live
      then keys
      else record {
        kid = kid;
        status = current_key;
        activated_at = some clock;
        retired_at = none;
        rotation_id = none;
        published_at = none;
        activate_after = none;
      }
        ∷ [])

-- What becomes of a row when the next key is marked as published.
pub mark_row : ℕ → ℕ → SigningKey → SigningKey
mark_row clock kid k =
    if k.kid == kid && is_next k && not (is_some k.published_at)
    then record k { published_at = some clock; activate_after = some (clock + prepublication) }
    else k

-- What becomes of a row when the next key takes over from the current one.
pub switch_row : ℕ → ℕ → ℕ → SigningKey → SigningKey
switch_row clock old kid k =
    if k.kid == old && is_current k
    then record k { status = retired_key; retired_at = some clock }
    else if k.kid == kid && is_next k
    then record k { status = current_key; activated_at = some clock }
    else k

pub map_rows : (SigningKey → SigningKey) → List SigningKey → List SigningKey
map_rows f [] = []
map_rows f (k ∷ ks) = f k ∷ map_rows f ks

-- `next.observed_at < next.activate_after`.
abbrev pub too_early : ℕ → Option ℕ → Bool
too_early clock none = false
too_early clock (some a) = ltb clock a

pub advance : ℕ → ℕ → List SigningKey → SigningKey → Option SigningKey → List SigningKey × Bool
advance clock kid keys old none = (keys, false)
advance clock kid keys old (some next) =
    if not (next.kid == kid)
    then (keys, false)
    else if not (is_some next.published_at)
    then (map_rows (mark_row clock kid) keys, true)
    else if too_early clock next.activate_after
    then (keys, false)
    else (map_rows (switch_row clock old.kid kid) keys, true)

-- `reconcile`: the rows, and whether they were modified.
pub reconcile : ℕ → ℕ → List SigningKey → Result String (List SigningKey × Bool)
reconcile clock kid keys = do
  live ← read_rows keys
  old ← or_fail (find? is_current live) "signing_key_state_unavailable"
  ok (advance clock kid keys old (find? is_next live))

-- The transaction of `schedule`: one pending rotation at a time.
pub schedule : ℕ → ℕ → ℕ → ℕ → List SigningKey → Result String (List SigningKey × ℕ)
schedule clock first fresh rotation keys = do
  live ← read_rows keys
  keys' ← bootstrap clock first keys
  ok (elim (find? is_next live) [
    | some next ↦ (keys', next.kid)
    | none ↦ (
      keys'
          ++ record {
            kid = fresh;
            status = next_key;
            activated_at = none;
            retired_at = none;
            rotation_id = some rotation;
            published_at = none;
            activate_after = none;
          }
            ∷ [],
      fresh,
    )
  ])
