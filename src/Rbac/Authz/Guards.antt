-- ===== src/Rbac/Authz/Guards.antt =====
-- What the permission engine of src/rbac/index.ts grants, and whom an actor may administer.
use dreamsso.Common.{
  ℕ, String, true, false, none, some, ◌≡◌, ◌↔◌, inl, inr, ap, nat_eq, nat_beq_iff, Bool-cases, map,
  Option-cases, List, [], ◌∷◌, ◌==◌, arith, contains, string_eq,
}
use text.Mathlib.TextEquality.{eq_iff}
use dreamsso.Rbac.Catalog.{PermDef, permissions, perm_keys}
use dreamsso.Store.{Store, grant}
use dreamsso.Rbac.Level.{lt_level_asymm_test, lt_level_trans_test}
use dreamsso.Rbac.Authz.{
  effect_of, collect_granted, resolve_authz, has_perm, get_role_level, can_administer,
}

-- The rule for one key, in words of the tables.
pub data Grants (db : Store) (sub : ℕ) (key : String) : Type 0 where
  by_user : db.user_permission_overrides sub key ≡ some grant → Grants db sub key
  by_role :
      (slug : String)
      → db.user_permission_overrides sub key ≡ none
      → db.user_org_roles sub ≡ some slug
      → db.role_permissions slug key ≡ some grant
      → Grants db sub key

effect_of-Grants :
    (db : Store) (sub : ℕ) (key : String) → effect_of db sub key ≡ grant → Grants db sub key
unfolding effect_of
effect_of-Grants db sub key h = elim (Option-cases (db.user_permission_overrides sub key)) [
  | inr (x, e) ↦ by_user (ground arith)
  | inl e ↦ elim (Option-cases (db.user_org_roles sub)) [
    | inr (slug, r) ↦ by_role slug e r (ground arith)
    | inl r ↦ absurd (ground arith)
  ]
]

Grants-effect_of :
    (db : Store) (sub : ℕ) (key : String) → Grants db sub key → effect_of db sub key ≡ grant
unfolding effect_of
Grants-effect_of db sub key (by_user o) = ground arith
Grants-effect_of db sub key (by_role slug o r p) = ground arith

contains-collect_granted :
    (db : Store) (sub : ℕ) (defs : List PermDef) (key : String)
    → (contains (collect_granted db sub defs) key ≡ true)
      ↔ ((contains (map (λ d. d.key) defs) key ≡ true) × (effect_of db sub key ≡ grant))
unfolding collect_granted
contains-collect_granted db sub [] key = ground arith
contains-collect_granted db sub (d ∷ defs) key =
    ground (arith, contains-collect_granted db sub defs key, eq_iff d.key key)

-- A subject holds a key exactly if the catalog has it and the tables grant it.
pub has_perm_iff :
    (db : Store) (sub : ℕ) (key : String)
    → (has_perm db sub key ≡ true) ↔ ((contains perm_keys key ≡ true) × Grants db sub key)
unfolding has_perm perm_keys resolve_authz
has_perm_iff db sub key =
    let law = contains-collect_granted db sub permissions key in
    (
      λ h. ((law.0 h).0, effect_of-Grants db sub key (law.0 h).1),
      λ h. law.1 (h.0, Grants-effect_of db sub key h.1),
    )

-- Where a administers b, who administers c: nobody administers themselves or the one who administers
-- them, and a administers c.
can_administer_order :
    (db : Store) (a b c : ℕ)
    → can_administer db a b ≡ true
    → can_administer db b c ≡ true
    → (can_administer db a a ≡ false)
      × (can_administer db b a ≡ false)
      × (can_administer db a c ≡ true)
unfolding can_administer
can_administer_order db a b c h k =
    let x = get_role_level db a in
    let y = get_role_level db b in
    let z = get_role_level db c in
    (
      ground arith,
      ground (arith, lt_level_asymm_test x y),
      elim (Bool-cases (a == c)) [
        | inl e ↦
            let same : x ≡ z = ap (get_role_level db) ((nat_beq_iff a c).0 e) in
            ground (arith, lt_level_asymm_test x y)
        | inr e ↦ ground (arith, lt_level_trans_test x y z)
      ],
    )
