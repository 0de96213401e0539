-- ===== src/Settings/Fresh.antt =====
-- The cache of src/settings.ts never holds an old value once the write is over.
use dreamsso.Common.{
  ℕ, ◌≤◌, String, Option, none, some, ◌≡◌, ◌==◌, nat_eq, arith, Bool-cases, Option-cases, inl, inr,
}
use dreamsso.Settings.{
  SettingState, Cached, Reading, cache_hit, normal, begin_read, select_read, end_read, commit_write,
  invalidate, end_write, end_transaction,
}

-- One step; a write of the key commits when no other is between its commit and its invalidation.
pub data Step : SettingState → SettingState → Type 0 where
  begun : (id : ℕ) (s : SettingState) → Step s (begin_read id s)
  selected :
      (id : ℕ) (r : Reading) (s : SettingState)
      → s.reading id ≡ some r
      → Step s (select_read id r s)
  ended :
      (now id : ℕ) (r : Reading) (v : Option String) (s : SettingState)
      → s.reading id ≡ some r
      → r.selected ≡ some v
      → Step s (end_read now id r v s)
  committed :
      (value : Option String) (s : SettingState)
      → s.committed ≡ none
      → Step s (commit_write value s)
  written :
      (now : ℕ) (value : Option String) (s : SettingState)
      → s.committed ≡ some (normal value)
      → Step s (end_write now value s)
  told :
      (value : Option String) (s : SettingState)
      → s.committed ≡ some value
      → Step s (end_transaction s)

pub data Steps : SettingState → SettingState → Type 0 where
  done : (s : SettingState) → Steps s s
  then_step : (s s₁ s₂ : SettingState) → Step s s₁ → Steps s₁ s₂ → Steps s s₂

-- What every step keeps: a committed write is what is stored; unless one is in between, what is cached
-- is stored, and so is what a read of the present version has seen; no read is ahead of the version.
pub record IsCoherent (s : SettingState) : Type 0 where
  pub pending : (v : Option String) → s.committed ≡ some v → v ≡ s.stored
  pub cache : (c : Cached) → s.committed ≡ none → s.cached ≡ some c → c.v ≡ s.stored
  pub seen :
      (id : ℕ) (r : Reading) (v : Option String)
      → s.committed ≡ none
      → s.reading id ≡ some r
      → r.version ≡ s.version
      → r.selected ≡ some v
      → v ≡ s.stored
  pub behind : (id : ℕ) (r : Reading) → s.reading id ≡ some r → r.version ≤ s.version

Step-IsCoherent : (s s' : SettingState) → Step s s' → IsCoherent s → IsCoherent s'
unfolding begin_read select_read end_read commit_write invalidate end_write end_transaction
Step-IsCoherent _ _ (begun id s) h = record {
  pending = h.pending;
  cache = h.cache;
  seen = λ other r v quiet found same value. elim (Bool-cases (id == other)) [
    | inl here ↦ ground arith
    | inr apart ↦ h.seen other r v quiet (ground arith) same value
  ];
  behind = λ other r found. elim (Bool-cases (id == other)) [
    | inl here ↦ ground arith
    | inr apart ↦ h.behind other r (ground arith)
  ];
}
Step-IsCoherent _ _ (selected id r₀ s present) h = record {
  pending = h.pending;
  cache = h.cache;
  seen = λ other r v quiet found same value. elim (Bool-cases (id == other)) [
    | inl here ↦ ground arith
    | inr apart ↦ h.seen other r v quiet (ground arith) same value
  ];
  behind = λ other r found. elim (Bool-cases (id == other)) [
    | inl here ↦ let before = h.behind id r₀ present in ground arith
    | inr apart ↦ h.behind other r (ground arith)
  ];
}
Step-IsCoherent _ _ (ended now id r₀ v₀ s present value₀) h = record {
  pending = h.pending;
  cache = λ c quiet found. elim (Bool-cases (s.version == r₀.version)) [
    | inl same ↦
        let versions : r₀.version ≡ s.version = ground arith in
        let fresh = h.seen id r₀ v₀ quiet present versions value₀ in ground arith
    | inr old ↦ h.cache c quiet (ground arith)
  ];
  seen = λ other r v quiet found same value. elim (Bool-cases (id == other)) [
    | inl here ↦ ground arith
    | inr apart ↦ h.seen other r v quiet (ground arith) same value
  ];
  behind = λ other r found. elim (Bool-cases (id == other)) [
    | inl here ↦ ground arith
    | inr apart ↦ h.behind other r (ground arith)
  ];
}
Step-IsCoherent _ _ (committed value s idle) h = record {
  pending = λ v now_stored. ground arith;
  cache = λ c quiet found. ground arith;
  seen = λ other r v quiet found same value'. ground arith;
  behind = h.behind;
}
Step-IsCoherent _ _ (written now value s was) h = record {
  pending = λ v never. ground arith;
  cache = λ c quiet found. let stored = h.pending (normal value) was in ground arith;
  seen = λ other r v quiet found same value'.
      let before = h.behind other r found in absurd (omega (arith, before, same));
  behind = λ other r found. let before = h.behind other r found in omega (arith, before);
}
Step-IsCoherent _ _ (told value s was) h = record {
  pending = λ v never. ground arith;
  cache = λ c quiet found. ground arith;
  seen = λ other r v quiet found same value'.
      let before = h.behind other r found in absurd (omega (arith, before, same));
  behind = λ other r found. let before = h.behind other r found in omega (arith, before);
}

steps-IsCoherent : (s s' : SettingState) → Steps s s' → IsCoherent s → IsCoherent s'
steps-IsCoherent _ _ (done s) h = h
steps-IsCoherent _ _ (then_step s s₁ s₂ step rest) h =
    steps-IsCoherent s₁ s₂ rest (Step-IsCoherent s s₁ step h)

-- However reads and writes of a key interleave, writes one after the other, from an empty cache: when
-- no write is between its commit and its invalidation, what a read takes from the cache is what is
-- stored.
pub cache_hit-stored :
    (s s' : SettingState) (now : ℕ) (v : Option String)
    → s.cached ≡ none
    → s.committed ≡ none
    → ((id : ℕ) → s.reading id ≡ none)
    → Steps s s'
    → s'.committed ≡ none
    → cache_hit now s'.cached ≡ some v
    → v ≡ s'.stored
cache_hit-stored s s' now v empty idle unread steps quiet hit =
    let start : IsCoherent s = record {
      pending = λ v' was. ground arith;
      cache = λ c q found. ground arith;
      seen = λ id r v' q found same value. let none_there = unread id in ground arith;
      behind = λ id r found. let none_there = unread id in ground arith;
    } in
    let coherent = steps-IsCoherent s s' steps start in
    elim (Option-cases s'.cached) [
      | inl missing ↦ ground arith
      | inr (c, found) ↦ let fresh = coherent.cache c quiet found in ground arith
    ]
