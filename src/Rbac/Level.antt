-- ===== src/Rbac/Level.antt =====
-- Privilege levels as the guards of src/rbac compare them: an integer, or `Number.POSITIVE_INFINITY`
-- for a subject without a role. A smaller level is a higher privilege.
use dreamsso.Common.{Bool, true, false, Option, none, some, ◌≡◌, arith, refl}
use dreamsso.Common.Int.{ℤ, ltb_ℤ, leb_ℤ, ◌≤ℤ◌, ◌<ℤ◌}

pub data Level : Type 0 where
  finite : ℤ → Level
  infinite : Level

abbrev pub lt_level : Level → Level → Bool
lt_level (finite a) (finite b) = ltb_ℤ a b
lt_level (finite a) infinite = true
lt_level infinite b = false

abbrev pub le_level : Level → Level → Bool
le_level (finite a) (finite b) = leb_ℤ a b
le_level a infinite = true
le_level infinite (finite b) = false

-- `level ?? Infinity`.
abbrev pub or_infinite : Option ℤ → Level
or_infinite none = infinite
or_infinite (some a) = finite a

-- The orders that the tests decide.
infix 50 ◌≤ₗ◌ ◌<ₗ◌
abbrev pub ◌≤ₗ◌ : Level → Level → Type 0
finite a ≤ₗ finite b = a ≤ℤ b
a ≤ₗ infinite = Unit
infinite ≤ₗ finite b = ⊥

abbrev pub ◌<ₗ◌ : Level → Level → Type 0
finite a <ₗ finite b = a <ℤ b
finite a <ₗ infinite = Unit
infinite <ₗ b = ⊥

pub lt_of_lt_level : (a b : Level) → lt_level a b ≡ true → a <ₗ b
lt_of_lt_level (finite a) (finite b) h = ground arith
lt_of_lt_level (finite a) infinite h = tt
lt_of_lt_level infinite b h = cc

pub le_of_not_lt_level : (a b : Level) → lt_level a b ≡ false → b ≤ₗ a
le_of_not_lt_level (finite a) (finite b) h = ground arith
le_of_not_lt_level (finite a) infinite h = cc
le_of_not_lt_level infinite (finite b) h = tt
le_of_not_lt_level infinite infinite h = tt

pub lt_of_not_le_level : (a b : Level) → le_level a b ≡ false → b <ₗ a
lt_of_not_le_level (finite a) (finite b) h = ground arith
lt_of_not_le_level (finite a) infinite h = cc
lt_of_not_le_level infinite (finite b) h = tt
lt_of_not_le_level infinite infinite h = cc

pub lt_level_asymm_test : (a b : Level) → lt_level a b ≡ true → lt_level b a ≡ false
lt_level_asymm_test (finite a) (finite b) h = ground arith
lt_level_asymm_test (finite a) infinite h = refl
lt_level_asymm_test infinite b h = cc

pub lt_level_trans_test :
    (a b c : Level) → lt_level a b ≡ true → lt_level b c ≡ true → lt_level a c ≡ true
lt_level_trans_test (finite a) (finite b) (finite c) h k = ground arith
lt_level_trans_test (finite a) (finite b) infinite h k = refl
lt_level_trans_test (finite a) infinite c h k = cc
lt_level_trans_test infinite b c h k = cc

pub lt_level_asymm : (a b : Level) → a <ₗ b → b <ₗ a → ⊥
lt_level_asymm (finite a) (finite b) h k = omega arith
lt_level_asymm (finite a) infinite h k = k
lt_level_asymm infinite b h k = h

pub lt_level_trans : (a b c : Level) → a <ₗ b → b <ₗ c → a <ₗ c
lt_level_trans (finite a) (finite b) (finite c) h k = omega arith
lt_level_trans (finite a) (finite b) infinite h k = tt
lt_level_trans (finite a) infinite c h k = absurd k
lt_level_trans infinite b c h k = absurd h

pub lt_le_level_trans : (a b c : Level) → a <ₗ b → b ≤ₗ c → a <ₗ c
lt_le_level_trans (finite a) (finite b) (finite c) h k = omega arith
lt_le_level_trans (finite a) (finite b) infinite h k = tt
lt_le_level_trans (finite a) infinite (finite c) h k = absurd k
lt_le_level_trans (finite a) infinite infinite h k = tt
lt_le_level_trans infinite b c h k = absurd h
