-- ===== src/Redis/Reads.antt =====
-- What a key reads as after a write of that key, and after a write of another.
use dreamsso.Common.{
  ℕ, ◌+◌, ◌*◌, ◌≤◌, ◌<◌, String, true, none, some, ◌≡◌, ◌≢◌, is_some, string_eq, arith, beq_refl,
  beq_neq, Option-cases, inl, inr,
}
use dreamsso.Redis.{Redis}

module _ {V : Type 0} (r : Redis V) (db : r.Db) (now t : ℕ) (key : String) (later : now ≤ t) where
  -- A key that is read was there before, and one that is missing stays missing.
  pub still_there : is_some (r.get db t key) ≡ true → is_some (r.get db now key) ≡ true
  still_there alive = elim (Option-cases (r.get db t key)) [
    | inl gone ↦ ground arith
    | inr (v, found) ↦ let before = r.get_earlier db now t key v later found in ground arith
  ]

  pub missing_later : r.get db now key ≡ none → r.get db t key ≡ none
  missing_later missing = elim (Option-cases (r.get db t key)) [
    | inl gone ↦ gone
    | inr (v, found) ↦ let before = r.get_earlier db now t key v later found in ground arith
  ]

module _ {V : Type 0} (r : Redis V) (db : r.Db) (now : ℕ) (key : String) (v : V) (ttl t : ℕ) where
  pub get-set_ex_same :
      now ≤ t → t < now + ttl * 1000 → r.get (r.set_ex db now key v ttl) t key ≡ some v
  get-set_ex_same later live =
      let law = r.get-set_ex db now key v ttl t key later in ground (arith, beq_refl key)

  pub get-set_ex_lapsed : now + ttl * 1000 ≤ t → r.get (r.set_ex db now key v ttl) t key ≡ none
  get-set_ex_lapsed late =
      let law = r.get-set_ex db now key v ttl t key (omega (arith, late)) in
      ground (arith, beq_refl key)

  pub get-set_ex_other :
      (other : String)
      → now ≤ t
      → key ≢ other
      → r.get (r.set_ex db now key v ttl) t other ≡ r.get db t other
  get-set_ex_other other later differ =
      let law = r.get-set_ex db now key v ttl t other later in
      ground (arith, beq_neq key other differ)

module _ {V : Type 0} (r : Redis V) (db : r.Db) (now : ℕ) (key : String) (v : V) (t : ℕ) where
  pub get-set_keep_same :
      now ≤ t → is_some (r.get db t key) ≡ true → r.get (r.set_keep db now key v) t key ≡ some v
  get-set_keep_same later alive =
      let before = still_there r db now t key later alive in
      let law = r.get-set_keep db now key v t key later before in ground (arith, beq_refl key)

  pub get-set_keep_other :
      (other : String)
      → now ≤ t
      → key ≢ other
      → r.get (r.set_keep db now key v) t other ≡ r.get db t other
  get-set_keep_other other later differ = elim (Option-cases (r.get db now key)) [
    | inl gone ↦
        let law = r.get-set_keep_new db now key v t other later gone in
        ground (arith, beq_neq key other differ)
    | inr (v', found) ↦
        let law = r.get-set_keep db now key v t other later (ground arith) in
        ground (arith, beq_neq key other differ)
  ]

module _ {V : Type 0} (r : Redis V) (db : r.Db) (key : String) (t : ℕ) where
  pub get-del_same : r.get (r.del db key) t key ≡ none
  get-del_same = let law = r.get-del db key t key in ground (arith, beq_refl key)

  pub get-del_other :
      (other : String) → key ≢ other → r.get (r.del db key) t other ≡ r.get db t other
  get-del_other other differ =
      let law = r.get-del db key t other in ground (arith, beq_neq key other differ)
