-- ===== src/Events/Delivery/Batch.antt =====
-- What `boundedBatch` and `backoffMs` of src/events/outboxStore.ts return.
use dreamsso.Common.{
  ℕ, zero, suc, ◌+◌, ◌<◌, Bool, false, ◌-◌, ◌^◌, ◌≤◌, true, not, ◌&&◌, ◌≡◌, refl, sym, ap, subst,
  ◌∙◌, ◌⊎◌, inl, inr, List, [], ◌∷◌, ◌++◌, map, take, ltb, min, arith, All, Bool-cases,
}
use dreamsso.Events.Outbox.{PendingRow}
use dreamsso.Events.Intake.{event_bytes_max}
use dreamsso.Events.Delivery.{BatchEvent, wire_of, collect, bounded_batch, batch_limit, backoff_ms}

abbrev pub IsDue : PendingRow → Type 0
IsDue row = row.due ≡ true

abbrev drop : ℕ → List PendingRow → List PendingRow
drop zero rows = rows
drop (suc n) [] = []
drop (suc n) (row ∷ rows) = drop n rows

-- The next row, if any, is not due or would make the batch too large.
abbrev pub CannotGrow : (List BatchEvent → ℕ) → List BatchEvent → List PendingRow → Type 0
CannotGrow bytes batch [] = Unit
CannotGrow bytes batch (row ∷ rows) =
    (row.due ≡ false) ⊎ (65536 < bytes (batch ++ wire_of row ∷ []))

-- A batch made of the oldest rows: at most `limit` of them, each due, of a bounded size, and not one
-- fewer than that allows.
pub record IsBatch (bytes : List BatchEvent → ℕ) (limit : ℕ) (before : List BatchEvent)
    (rows : List PendingRow) (batch : List BatchEvent) : Type 0 where
  pub count : ℕ
  pub within : count ≤ limit
  pub oldest : batch ≡ before ++ map wire_of (take count rows)
  pub due : All IsDue (take count rows)
  pub bounded : (batch ≡ before) ⊎ (bytes batch ≤ 65536)
  pub full : (count ≡ limit) ⊎ CannotGrow bytes batch (drop count rows)

append_nil : (es : List BatchEvent) → es ≡ es ++ []
append_nil [] = refl
append_nil (e ∷ es) = ap (λ x. e ∷ x) (append_nil es)

append_cons :
    (xs : List BatchEvent) (y : BatchEvent) (ys : List BatchEvent)
    → (xs ++ y ∷ []) ++ ys ≡ xs ++ (y ∷ ys)
append_cons [] y ys = refl
append_cons (x ∷ xs) y ys = ap (λ r. x ∷ r) (append_cons xs y ys)

stop :
    (bytes : List BatchEvent → ℕ) (limit : ℕ) (before : List BatchEvent) (rows : List PendingRow)
    → (0 ≡ limit) ⊎ CannotGrow bytes before rows
    → IsBatch bytes limit before rows before
stop bytes limit before rows why = record {
  count = 0;
  within = omega arith;
  oldest = append_nil before;
  due = tt;
  bounded = inl refl;
  full = why;
}

one_more :
    (bytes : List BatchEvent → ℕ) (n : ℕ) (before : List BatchEvent) (row : PendingRow)
    (rows : List PendingRow) (batch : List BatchEvent)
    → row.due ≡ true
    → bytes (before ++ wire_of row ∷ []) ≤ event_bytes_max
    → IsBatch bytes n (before ++ wire_of row ∷ []) rows batch
    → IsBatch bytes (suc n) before (row ∷ rows) batch
one_more bytes n before row rows batch due small rest = record {
  count = suc rest.count;
  within = omega (arith, rest.within);
  oldest = rest.oldest ∙ append_cons before (wire_of row) (map wire_of (take rest.count rows));
  due = (due, rest.due);
  bounded = inr (elim rest.bounded [
    | inr fits ↦ fits
    | inl alone ↦ subst (λ b. bytes b ≤ event_bytes_max) (sym alone) small
  ]);
  full = elim rest.full [ inl all_taken ↦ inl (ap suc all_taken) | inr stuck ↦ inr stuck ];
}

cannot_add :
    (due : Bool) (size : ℕ)
    → (due && not (ltb event_bytes_max size)) ≡ false
    → (due ≡ false) ⊎ (65536 < size)
cannot_add false size h = inl refl
cannot_add true size h = inr (ground arith)

collect-IsBatch :
    (bytes : List BatchEvent → ℕ) (n : ℕ) (before : List BatchEvent) (rows : List PendingRow)
    → IsBatch bytes n before rows (collect bytes n before rows)
unfolding collect
collect-IsBatch bytes zero before rows = stop bytes zero before rows (inl refl)
collect-IsBatch bytes (suc n) before [] = stop bytes (suc n) before [] (inr tt)
collect-IsBatch bytes (suc n) before (row ∷ rows) =
    let longer = before ++ wire_of row ∷ [] in
    let rest = collect-IsBatch bytes n longer rows in
    let IsNext : List BatchEvent → Type 0 = IsBatch bytes (suc n) before (row ∷ rows) in
    elim (Bool-cases (row.due && not (ltb event_bytes_max (bytes longer)))) [
      | inr refused ↦
          let run : collect bytes (suc n) before (row ∷ rows) ≡ before = ground arith in
          subst IsNext (sym run) (
            stop bytes (suc n) before (row ∷ rows)
              (inr (cannot_add row.due (bytes longer) refused)))
      | inl taken ↦
          let run : collect bytes (suc n) before (row ∷ rows) ≡ collect bytes n longer rows =
            ground arith in
          subst IsNext (sym run) (
            one_more bytes n before row rows (collect bytes n longer rows) (ground arith)
              (ground arith) rest)
    ]

-- The oldest row, if any, was never attempted.
abbrev pub IsFirstTry : List PendingRow → Type 0
IsFirstTry [] = Unit
IsFirstTry (row ∷ rows) = row.attempts ≡ 0

-- The oldest row was attempted before.
abbrev pub IsRetry : List PendingRow → Type 0
IsRetry [] = ⊥
IsRetry (row ∷ rows) = 0 < row.attempts

batch_limit_cases :
    (rows : List PendingRow)
    → (IsFirstTry rows × (batch_limit rows ≡ 100)) ⊎ (IsRetry rows × (batch_limit rows ≡ 1))
batch_limit_cases [] = inl (tt, refl)
batch_limit_cases (row ∷ rows) = elim (Bool-cases (ltb 0 row.attempts)) [
  | inl attempted ↦ inr (ground arith, ground arith)
  | inr first ↦ inl (ground arith, ground arith)
]

-- A batch is a run of the oldest rows, without gaps, each of them due: up to 100 of them, or only one
-- when the oldest has been attempted before. Together they have no more than 65536 bytes, and a run
-- below its number ends only before a row that is not due or that would exceed the bytes.
pub bounded_batch-IsBatch :
    (bytes : List BatchEvent → ℕ) (rows : List PendingRow)
    → (IsFirstTry rows × IsBatch bytes 100 [] rows (bounded_batch bytes rows))
      ⊎ (IsRetry rows × IsBatch bytes 1 [] rows (bounded_batch bytes rows))
unfolding bounded_batch
bounded_batch-IsBatch bytes rows =
    let found = collect-IsBatch bytes (batch_limit rows) [] rows in
    let IsFor : ℕ → Type 0 =
      λ n. IsBatch bytes n [] rows (collect bytes (batch_limit rows) [] rows) in
    elim (batch_limit_cases rows) [
      | inl (first, n) ↦ inl (first, subst IsFor n found)
      | inr (again, n) ↦ inr (again, subst IsFor n found)
    ]

-- The doubling stops after six steps.
doubling_bounds : (k : ℕ) → 1 ≤ 2 ^ min k 6
doubling_bounds zero = omega arith
doubling_bounds (suc zero) = omega arith
doubling_bounds (suc (suc zero)) = omega arith
doubling_bounds (suc (suc (suc zero))) = omega arith
doubling_bounds (suc (suc (suc (suc zero)))) = omega arith
doubling_bounds (suc (suc (suc (suc (suc zero))))) = omega arith
doubling_bounds (suc (suc (suc (suc (suc (suc k)))))) = ground arith

-- A retry waits at least a minute and at most an hour, and the jitter on top.
backoff_ms_bounds :
    (failures jitter : ℕ)
    → (60000 + jitter ≤ backoff_ms failures jitter)
      × (backoff_ms failures jitter ≤ 3600000 + jitter)
unfolding backoff_ms
backoff_ms_bounds failures jitter =
    let least = doubling_bounds (failures - 1) in (ground arith, ground arith)
