-- ===== src/Keys/Tests.antt =====
-- A pending key that takes over once it has been published long enough.
use dreamsso.Common.{true, none, some, ◌≡◌, ◌⊎◌, refl, List, [], ◌∷◌, nat_eq}
use dreamsso.Common.Result.{ok}
use dreamsso.Keys.{
  SigningKey, current_key, next_key, read_rows, reconcile, advance, map_rows, switch_row,
  key_status_eq,
}
use dreamsso.Keys.Prepublication.{signs}
use dreamsso.Keys.Status.{current}
use dreamsso.Keys.Selection.{Announced, current-Announced}

abbrev old : SigningKey
old = record {
  kid = 1;
  status = current_key;
  activated_at = some 0;
  retired_at = none;
  rotation_id = none;
  published_at = none;
  activate_after = none;
}

abbrev pending : SigningKey
pending = record {
  kid = 2;
  status = next_key;
  activated_at = none;
  retired_at = none;
  rotation_id = some 5;
  published_at = some 1000;
  activate_after = some 301000;
}

abbrev keys : List SigningKey
keys = old ∷ pending ∷ []

abbrev turned : List SigningKey
turned = map_rows (switch_row 301000 1 2) keys

abbrev signer : SigningKey
signer = switch_row 301000 1 2 pending

current_run : current 301000 9 true keys ≡ ok (turned, signer)
unfolding current reconcile advance read_rows map_rows switch_row
current_run = refl

current-Announced_example : (signs 2 keys ≡ true) ⊎ ((keys ≡ []) ⊎ Announced 301000 2 keys)
unfolding switch_row
current-Announced_example = current-Announced 301000 9 true keys turned signer current_run
