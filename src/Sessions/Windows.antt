-- ===== src/Sessions/Windows.antt =====
-- The idle and absolute windows of src/oidc/sessions.ts, from the settings.
use dreamsso.Common.{
  ℕ, ◌+◌, ◌-◌, ◌*◌, ◌≤◌, String, ◌&&◌, Option, none, some, List, [], ◌∷◌, ◌==◌, leb, min,
  if◌then◌else◌, nat_eq, get_or, arith, Option-cases, Bool-cases, inl, inr,
}
use dreamsso.Common.Text.{codes, trim_start, is_digit}

pub record SessionWindows : Type 0 where
  pub idle_hours : ℕ
  pub max_hours : ℕ
  pub transient_max_hours : ℕ

abbrev pub digits_value : ℕ → List ℕ → ℕ
digits_value n [] = n
digits_value n (c ∷ cs) =
    let more = digits_value (n * 10 + (c - b'0')) cs in if is_digit c then more else n

abbrev pub unsigned : List ℕ → Option ℕ
unsigned [] = none
unsigned (c ∷ cs) = if is_digit c then some (digits_value 0 (c ∷ cs)) else none

abbrev pub after_plus : List ℕ → List ℕ
after_plus [] = []
after_plus (c ∷ cs) = if c == b'+' then cs else c ∷ cs

-- `parseInt(s, 10)`, where a number below 0 counts as none: the ranges that are tested start at 1.
unfoldable pub parse_int : String → Option ℕ
parse_int s = unsigned (after_plus (codes (trim_start s)))

abbrev pub in_range : Option ℕ → ℕ → ℕ → ℕ
in_range none fallback most = fallback
in_range (some n) fallback most = if leb 1 n && leb n most then n else fallback

unfoldable pub clamp_hours : Option String → ℕ → ℕ → ℕ
clamp_hours v fallback most = in_range (parse_int (get_or v "")) fallback most

unfoldable pub get_session_windows : (String → Option String) → SessionWindows
get_session_windows setting =
    let max_hours = clamp_hours (setting "session_max_hours") 168 8760 in
    record {
      idle_hours = min (clamp_hours (setting "session_idle_hours") 72 2160) max_hours;
      max_hours = max_hours;
      transient_max_hours =
          min (clamp_hours (setting "session_transient_max_hours") 24 8760) max_hours;
    }

clamp_hours_bounds :
    (v : Option String) (fallback most : ℕ)
    → 1 ≤ fallback
    → fallback ≤ most
    → (1 ≤ clamp_hours v fallback most) × (clamp_hours v fallback most ≤ most)
unfolding clamp_hours
clamp_hours_bounds v fallback most least low = elim (Option-cases (parse_int (get_or v ""))) [
  | inl missing ↦ (ground arith, ground arith)
  | inr (n, parsed) ↦ elim (Bool-cases (leb 1 n && leb n most)) [
    | inl within ↦ (ground arith, ground arith)
    | inr outside ↦ (ground arith, ground arith)
  ]
]

-- Whatever the settings hold, no window is empty, none is longer than the persistent one, and that is
-- a year at most; the idle one is 90 days at most.
get_session_windows_bounds :
    (setting : String → Option String)
    → (1 ≤ (get_session_windows setting).idle_hours)
      × (1 ≤ (get_session_windows setting).transient_max_hours)
      × ((get_session_windows setting).idle_hours ≤ (get_session_windows setting).max_hours)
      × ((get_session_windows setting).transient_max_hours
          ≤ (get_session_windows setting).max_hours)
      × ((get_session_windows setting).max_hours ≤ 8760)
      × ((get_session_windows setting).idle_hours ≤ 2160)
unfolding get_session_windows
get_session_windows_bounds setting =
    let longest =
      clamp_hours_bounds (setting "session_max_hours") 168 8760 (omega arith) (omega arith) in
    let idle =
      clamp_hours_bounds (setting "session_idle_hours") 72 2160 (omega arith) (omega arith) in
    let short =
      clamp_hours_bounds (setting "session_transient_max_hours") 24 8760 (omega arith)
        (omega arith) in
    (ground arith, ground arith, ground arith, ground arith, ground arith, ground arith)
