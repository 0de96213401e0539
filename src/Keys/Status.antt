-- ===== src/Keys/Status.antt =====
-- `current`, `status` and the whole of `schedule` of src/signingKeyRotation.ts: the transactions in
-- their order, at one instant when no other process runs in between.
use dreamsso.Common.{
  ℕ, String, Bool, true, not, ◌||◌, Option, none, some, List, any, find?, is_some, leb,
  if◌then◌else◌,
}
use dreamsso.Common.Result.{Result, ok, err, ◌>>=◌, or_fail}
use dreamsso.Keys.{SigningKey, is_current, is_next, read_rows, bootstrap, reconcile, schedule}

pub record Rotation : Type 0 where
  pub id : Option ℕ
  pub kid : ℕ
  pub published_at : Option ℕ
  pub activate_after : Option ℕ

-- `state` is 'pending' when there is a rotation, else 'active'.
pub record SigningKeyStatus : Type 0 where
  pub kid : ℕ
  pub rotated_at : Option ℕ
  pub pending : Bool
  pub rotation : Option Rotation

-- The maintenance that `current` attempts; without `strict` a failure leaves the rows as they are.
abbrev pub attempted :
    Bool
    → List SigningKey
    → Result String (List SigningKey × Bool)
    → Result String (List SigningKey)
attempted strict keys (ok done) = ok done.0
attempted strict keys (err e) = if strict then err e else ok keys

abbrev pub reached : ℕ → Option ℕ → Bool
reached clock none = true
reached clock (some t) = leb t clock

-- A next key that awaits its publication, or whose time has come.
abbrev pub needs_maintenance : ℕ → SigningKey → Bool
needs_maintenance clock next = not (is_some next.published_at) || reached clock next.activate_after

abbrev pub maintain :
    ℕ → Bool → List SigningKey → Option SigningKey → Result String (List SigningKey)
maintain clock strict keys none = ok keys
maintain clock strict keys (some next) =
    if needs_maintenance clock next
    then attempted strict keys (reconcile clock next.kid keys)
    else ok keys

abbrev pub with_current :
    ℕ → ℕ → List SigningKey → List SigningKey → Result String (List SigningKey)
with_current clock first keys live =
    if any is_current live then ok keys else bootstrap clock first keys

unfoldable pub current :
    ℕ → ℕ → Bool → List SigningKey → Result String (List SigningKey × SigningKey)
current clock first strict keys = do
  live ← read_rows keys
  started ← with_current clock first keys live
  rows ← read_rows started
  kept ← maintain clock strict started (find? is_next rows)
  final ← read_rows kept
  signer ← or_fail (find? is_current final) "signing_key_state_unavailable"
  ok (kept, signer)

abbrev pub rotation_of : Option SigningKey → Option Rotation
rotation_of none = none
rotation_of (some next) = some (record {
  id = next.rotation_id;
  kid = next.kid;
  published_at = next.published_at;
  activate_after = next.activate_after;
})

unfoldable pub status : ℕ → ℕ → List SigningKey → Result String (List SigningKey × SigningKeyStatus)
status clock first keys = do
  selected ← current clock first true keys
  live ← read_rows selected.0
  signer ← or_fail (find? is_current live) "signing_key_state_unavailable"
  ok (
    selected.0,
    record {
      kid = signer.kid;
      rotated_at = signer.activated_at;
      pending = is_some (find? is_next live);
      rotation = rotation_of (find? is_next live);
    },
  )

pub schedule_rotation :
    ℕ → ℕ → ℕ → ℕ → List SigningKey → Result String (List SigningKey × SigningKeyStatus)
schedule_rotation clock first fresh rotation keys = do
  pending ← schedule clock first fresh rotation keys
  done ← reconcile clock pending.1 pending.0
  status clock first done.0
