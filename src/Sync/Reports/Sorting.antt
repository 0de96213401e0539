-- ===== src/Sync/Reports/Sorting.antt =====
-- Sorting roles by their ids, as `normalizeRoleCatalog` of src/backchannel/rolesSync.ts does.
use dreamsso.Common.{
  suc, false, ◌||◌, ◌≡◌, refl, sym, ap, subst, ◌∙◌, List, [], ◌∷◌, ◌==◌, All, All-map, contains,
  length, arith, Bool-cases, inl, inr, string_eq,
}
use dreamsso.Common.Int.{ℤ, ◌<ℤ◌, ltb_ℤ, int_eq}
use dreamsso.Store.{CatalogRole}
use dreamsso.Sync.Reports.{insert_role_by_id, sort_roles, role_ids}

-- Roles by ascending ids, so that no id occurs twice.
abbrev pub IsAscending : List CatalogRole → Type 0
IsAscending [] = Unit
IsAscending (r ∷ rs) = All (λ x. r.role_id <ℤ x.role_id) rs × IsAscending rs

apart_order : (a b : ℤ) → ltb_ℤ a b ≡ false → (b == a) ≡ false → b <ℤ a
apart_order a b h k = ground arith

lt_trans : (a b c : ℤ) → a <ℤ b → b <ℤ c → a <ℤ c
lt_trans a b c h k = omega (arith, h, k)

All-insert_role_by_id :
    (P : CatalogRole → Type 0) (r : CatalogRole) (xs : List CatalogRole)
    → P r
    → All P xs
    → All P (insert_role_by_id r xs)
unfolding insert_role_by_id
All-insert_role_by_id P r [] h hs = (h, tt)
All-insert_role_by_id P r (x ∷ xs) h hs = elim (Bool-cases (ltb_ℤ r.role_id x.role_id)) [
  | inl here ↦
      let run : insert_role_by_id r (x ∷ xs) ≡ r ∷ x ∷ xs = ground arith in
      subst (All P) (sym run) (h, hs)
  | inr later ↦
      let run : insert_role_by_id r (x ∷ xs) ≡ x ∷ insert_role_by_id r xs = ground arith in
      subst (All P) (sym run) (hs.0, All-insert_role_by_id P r xs h hs.1)
]

insert_role_by_id-IsAscending :
    (r : CatalogRole) (xs : List CatalogRole)
    → contains (role_ids xs) r.role_id ≡ false
    → IsAscending xs
    → IsAscending (insert_role_by_id r xs)
unfolding insert_role_by_id
insert_role_by_id-IsAscending r [] new h = (tt, tt)
insert_role_by_id-IsAscending r (x ∷ xs) new h = elim (Bool-cases (ltb_ℤ r.role_id x.role_id)) [
  | inl here ↦
      let run : insert_role_by_id r (x ∷ xs) ≡ r ∷ x ∷ xs = ground arith in
      let below : r.role_id <ℤ x.role_id = ground arith in
      subst IsAscending (sym run)
        ((below, All-map xs (λ y order. lt_trans r.role_id x.role_id y.role_id below order) h.0), h)
  | inr later ↦
      let run : insert_role_by_id r (x ∷ xs) ≡ x ∷ insert_role_by_id r xs = ground arith in
      let above = apart_order r.role_id x.role_id later (ground arith) in
      subst IsAscending (sym run) (
        All-insert_role_by_id (λ y. x.role_id <ℤ y.role_id) r xs above h.0,
        insert_role_by_id-IsAscending r xs (ground arith) h.1,
      )
]

contains-insert_role_by_id :
    (r : CatalogRole) (xs : List CatalogRole) (id : ℤ)
    → contains (role_ids (insert_role_by_id r xs)) id
      ≡ (r.role_id == id || contains (role_ids xs) id)
unfolding insert_role_by_id
contains-insert_role_by_id r [] id = refl
contains-insert_role_by_id r (x ∷ xs) id =
    let rest = contains-insert_role_by_id r xs id in
    elim (Bool-cases (ltb_ℤ r.role_id x.role_id)) [
      | inl here ↦
          let run : insert_role_by_id r (x ∷ xs) ≡ r ∷ x ∷ xs = ground arith in
          ap (λ l. contains (role_ids l) id) run
      | inr later ↦
          let run : insert_role_by_id r (x ∷ xs) ≡ x ∷ insert_role_by_id r xs = ground arith in
          ap (λ l. contains (role_ids l) id) run ∙ ground (arith, rest)
    ]

length-insert_role_by_id :
    (r : CatalogRole) (xs : List CatalogRole) → length (insert_role_by_id r xs) ≡ suc (length xs)
unfolding insert_role_by_id
length-insert_role_by_id r [] = refl
length-insert_role_by_id r (x ∷ xs) =
    let rest = length-insert_role_by_id r xs in
    elim (Bool-cases (ltb_ℤ r.role_id x.role_id)) [
      | inl here ↦
          let run : insert_role_by_id r (x ∷ xs) ≡ r ∷ x ∷ xs = ground arith in
          ap (λ l. length l) run
      | inr later ↦
          let run : insert_role_by_id r (x ∷ xs) ≡ x ∷ insert_role_by_id r xs = ground arith in
          ap (λ l. length l) run ∙ omega (arith, rest)
    ]

-- No id twice, in the order of the report.
abbrev pub IsDistinct : List CatalogRole → Type 0
IsDistinct [] = Unit
IsDistinct (r ∷ rs) = (contains (role_ids rs) r.role_id ≡ false) × IsDistinct rs

-- Sorting keeps the ids.
pub sort_roles-contains :
    (rs : List CatalogRole) (id : ℤ)
    → contains (role_ids (sort_roles rs)) id ≡ contains (role_ids rs) id
unfolding sort_roles
sort_roles-contains [] id = refl
sort_roles-contains (r ∷ rs) id =
    contains-insert_role_by_id r (sort_roles rs) id
    ∙ ap (λ b. r.role_id == id || b) (sort_roles-contains rs id)

pub sort_roles-IsAscending : (rs : List CatalogRole) → IsDistinct rs → IsAscending (sort_roles rs)
unfolding sort_roles
sort_roles-IsAscending [] h = tt
sort_roles-IsAscending (r ∷ rs) h =
    insert_role_by_id-IsAscending r (sort_roles rs) (sort_roles-contains rs r.role_id ∙ h.0)
      (sort_roles-IsAscending rs h.1)

pub sort_roles-All :
    (P : CatalogRole → Type 0) (rs : List CatalogRole) → All P rs → All P (sort_roles rs)
unfolding sort_roles
sort_roles-All P [] h = tt
sort_roles-All P (r ∷ rs) h =
    All-insert_role_by_id P r (sort_roles rs) h.0 (sort_roles-All P rs h.1)

pub length-sort_roles : (rs : List CatalogRole) → length (sort_roles rs) ≡ length rs
unfolding sort_roles
length-sort_roles [] = refl
length-sort_roles (r ∷ rs) =
    length-insert_role_by_id r (sort_roles rs) ∙ omega (arith, length-sort_roles rs)
