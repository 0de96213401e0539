-- ===== src/Sync/Catalog/Top.antt =====
-- The choice of the top role in `applyCatalog` of src/backchannel/rolesSync.ts.
use dreamsso.Common.{
  true, false, ◌≡◌, ◌⊎◌, sym, All, refl, ap, subst, ◌∙◌, List, [], ◌∷◌, if◌then◌else◌, arith,
  nat_eq, string_eq, option_eq, Bool-cases, inl, inr,
}
use dreamsso.Common.Int.{◌<ℤ◌, ◌≤ℤ◌, ltb_ℤ, int_beq, int_beq_iff, int_eq}
use dreamsso.Store.{CatalogRole}
use dreamsso.Sync.Catalog.{top_from, better}

-- No role of the report is more privileged: a lower level is more, and on a tie the smaller id.
abbrev pub IsTopOf : CatalogRole → CatalogRole → Type 0
IsTopOf top role =
    (top.level <ℤ role.level) ⊎ ((top.level ≡ role.level) × (top.role_id ≤ℤ role.role_id))

better-cases : (role best : CatalogRole) → better role best ≡ true → IsTopOf role best
better-cases role best h = elim (Bool-cases (ltb_ℤ role.level best.level)) [
  | inl lower ↦ inl (ground arith)
  | inr other ↦ inr ((int_beq_iff role.level best.level).0 (ground arith), ground arith)
]

not_better-cases : (role best : CatalogRole) → better role best ≡ false → IsTopOf best role
not_better-cases role best h = elim (Bool-cases (int_beq role.level best.level)) [
  | inl same ↦ inr (sym ((int_beq_iff role.level best.level).0 same), ground arith)
  | inr other ↦ inl (ground arith)
]

IsTopOf-refl : (role : CatalogRole) → IsTopOf role role
IsTopOf-refl role = inr (refl, omega arith)

IsTopOf-trans : (a b c : CatalogRole) → IsTopOf a b → IsTopOf b c → IsTopOf a c
IsTopOf-trans a b c (inl x) (inl y) = inl (omega (arith, x, y))
IsTopOf-trans a b c (inl x) (inr (e, y)) = inl (subst (λ l. a.level <ℤ l) e x)
IsTopOf-trans a b c (inr (d, x)) (inl y) = inl (subst (λ l. l <ℤ c.level) (sym d) y)
IsTopOf-trans a b c (inr (d, x)) (inr (e, y)) = inr (d ∙ e, omega (arith, x, y))

abbrev pub IsIn : CatalogRole → List CatalogRole → Type 0
IsIn role [] = ⊥
IsIn role (x ∷ roles) = (role ≡ x) ⊎ IsIn role roles

-- The role is one of the list, and none there is more privileged.
pub record IsTop (top : CatalogRole) (roles : List CatalogRole) : Type 0 where
  pub listed : IsIn top roles
  pub above : All (IsTopOf top) roles

pub top_from-IsTop :
    (best : CatalogRole) (roles : List CatalogRole) → IsTop (top_from best roles) (best ∷ roles)
unfolding top_from
top_from-IsTop best [] = record { listed = inl refl; above = (IsTopOf-refl best, tt) }
top_from-IsTop best (role ∷ rest) = elim (Bool-cases (better role best)) [
  | inl wins ↦
      let next = top_from-IsTop role rest in
      let run : top_from best (role ∷ rest) ≡ top_from role rest =
        ap (λ b. top_from (if b then role else best) rest) wins in
      subst (λ top. IsTop top (best ∷ role ∷ rest)) (sym run)
        (record {
          listed = inr next.listed;
          above = (
            IsTopOf-trans (top_from role rest) role best next.above.0 (better-cases role best wins),
            next.above,
          );
        })
  | inr stays ↦
      let next = top_from-IsTop best rest in
      let run : top_from best (role ∷ rest) ≡ top_from best rest =
        ap (λ b. top_from (if b then role else best) rest) stays in
      subst (λ top. IsTop top (best ∷ role ∷ rest)) (sym run)
        (record {
          listed = elim next.listed [ inl here ↦ inl here | inr there ↦ inr (inr there) ];
          above = (
            next.above.0,
            (
              IsTopOf-trans (top_from best rest) best role next.above.0
                  (not_better-cases role best stays),
              next.above.1,
            ),
          );
        })
]
