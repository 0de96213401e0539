-- ===== src/Limiter/Capped.antt =====
-- How many sends a limiter lets through in one window.
use dreamsso.Common.{
  ℕ, suc, ◌+◌, ◌-◌, ◌/◌, ◌≤◌, ◌<◌, String, Bool, true, false, ◌||◌, Option, none, some, ◌≡◌, refl,
  sym, ap, ◌∙◌, subst, ◌⊎◌, inl, inr, List, [], ◌∷◌, ltb, leb, is_some, if◌then◌else◌, arith,
  Bool-cases, Option-cases, beq_refl, string_eq,
}
use dreamsso.Redis.{Redis}
use dreamsso.Redis.Reads.{missing_later}
use dreamsso.Limiter.{Sends, fields, reserve, release, in_window, one_more, fresh_sends}
use dreamsso.Limiter.Stored.{send, give_back}

-- A call at an instant: a reservation, or the release after a failed send.
pub data Call : Type 0 where
  reserve_at release_at : ℕ → Call

-- The slots taken, and the slots given back.
pub record Tally : Type 0 where
  pub granted : ℕ
  pub released : ℕ

module _ (window : ℕ) where
  -- Calls in the order of time, from an instant on, in the window that starts at a second.
  unfoldable pub InOrder : ℕ → ℕ → List Call → Type 0
  InOrder start now [] = Unit
  InOrder start now (reserve_at t ∷ calls) =
      (now ≤ t) × (t / 1000 < start + window) × InOrder start t calls
  InOrder start now (release_at t ∷ calls) =
      (now ≤ t) × (t / 1000 < start + window) × InOrder start t calls

module _ (r : Redis Sends) (window cap : ℕ) (gap : ℕ → ℕ) (key : String) where
  open r use {Db, get, set_ex, set_keep}

  unfoldable pub run : List Call → Db → Tally
  run [] db = record { granted = 0; released = 0 }
  run (reserve_at t ∷ calls) db =
      let answer = send r window cap gap t key db in
      let rest = run calls answer.0 in
      if answer.1 then record rest { granted = suc rest.granted } else rest
  run (release_at t ∷ calls) db =
      let rest = run calls (give_back r window t key db) in
      record rest { released = suc rest.released }

  -- From an instant on, and in the window, the key reads as so many sends, none from before it.
  abbrev Counts : ℕ → ℕ → ℕ → Db → Type 0
  Counts start now n db =
      (t : ℕ)
      → now ≤ t
      → t / 1000 < start + window
      → ((fields (get db t key)).count ≡ n) × ((n ≡ 0) ⊎ (start ≤ (fields (get db t key)).first))

counted_live : (o : Option Sends) → 1 ≤ (fields o).count → is_some o ≡ true
counted_live none h = ground arith
counted_live (some s) h = refl

module _ (r : Redis Sends) (window cap : ℕ) (gap : ℕ → ℕ) (key : String) (start now : ℕ)
    (db : r.Db) where
  open r use {Db, get, set_ex, set_keep}

  fresh-Counts :
      start ≤ now / 1000
      → Counts r window cap gap key start now 1
          (set_ex db now key (fresh_sends (now / 1000)) window)
  fresh-Counts from t later soon =
      let law = r.get-set_ex db now key (fresh_sends (now / 1000)) window t key later in
      let read : get (set_ex db now key (fresh_sends (now / 1000)) window) t key
          ≡ some (fresh_sends (now / 1000)) =
        ground (arith, beq_refl key) in
      (ap (λ o. (fields o).count) read, inr (ground arith))

  one_more-Counts :
      (n : ℕ)
      → 1 ≤ n
      → now / 1000 < start + window
      → Counts r window cap gap key start now n db
      → Counts r window cap gap key start now
          (suc n)
          (set_keep db now key (one_more (now / 1000) (fields (get db now key))))
  one_more-Counts n some_sends in_time counts t later soon =
      let s = fields (get db now key) in
      let here = counts now (omega arith) in_time in
      let there = counts t later soon in
      let law =
        r.get-set_keep db now key (one_more (now / 1000) s) t key later
          (counted_live (get db now key) (ground arith)) in
      let alive = counted_live (get db t key) (ground arith) in
      let read : get (set_keep db now key (one_more (now / 1000) s)) t key
          ≡ some (one_more (now / 1000) s) =
        ground (arith, beq_refl key) in
      let counted : (fields (get (set_keep db now key (one_more (now / 1000) s)) t key)).count
          ≡ suc n =
        ap (λ o. (fields o).count) read ∙ ground arith in
      let from : start ≤ s.first = ground arith in (counted, inr (ground arith))

  -- What a release leaves: one send less, if there was one.
  released-Counts :
      (n : ℕ)
      → now / 1000 < start + window
      → Counts r window cap gap key start now n db
      → Counts r window cap gap key start now (n - 1) (give_back r window now key db)
  unfolding give_back release
  released-Counts n in_time counts t later soon =
      let s = fields (get db now key) in
      let less : Sends = record s { count = s.count - 1; last = 0 } in
      let here = counts now (omega arith) in_time in
      let there = counts t later soon in
      elim (Option-cases (get db now key)) [
        | inl missing ↦
            let law = r.get-set_keep_new db now key less t key later missing in
            let read : get (set_keep db now key less) t key ≡ some less =
              ground (arith, beq_refl key) in
            (ap (λ o. (fields o).count) read ∙ ground arith, inl (ground arith))
        | inr (v, found) ↦
            let law = r.get-set_keep db now key less t key later (ground arith) in
            elim (Option-cases (get db t key)) [
              | inl gone ↦
                  let read : get (set_keep db now key less) t key ≡ none =
                    ground (arith, beq_refl key) in
                  (ap (λ o. (fields o).count) read ∙ ground arith, inl (ground arith))
              | inr (v', still) ↦
                  let read : get (set_keep db now key less) t key ≡ some less =
                    ground (arith, beq_refl key) in
                  (
                    ap (λ o. (fields o).count) read ∙ ground arith,
                    elim here.1 [
                      | inl zero_sends ↦ inl (ground arith)
                      | inr since ↦ inr (ground arith)
                    ],
                  )
            ]
      ]

  later-Counts :
      (n later : ℕ)
      → now ≤ later
      → Counts r window cap gap key start now n db
      → Counts r window cap gap key start later n db
  later-Counts n later h counts t k soon = counts t (omega arith) soon

  -- A reservation counts itself when it is granted.
  send-Counts :
      (n : ℕ)
      → 1 ≤ cap
      → start ≤ now / 1000
      → now / 1000 < start + window
      → n ≤ cap
      → Counts r window cap gap key start now n db
      → (((send r window cap gap now key db).1 ≡ false)
          × Counts r window cap gap key start now n (send r window cap gap now key db).0)
        ⊎ (((send r window cap gap now key db).1 ≡ true)
            × (suc n ≤ cap)
            × Counts r window cap gap key start now (suc n) (send r window cap gap now key db).0)
  unfolding send reserve
  send-Counts n some_cap from in_time few counts =
      let s = fields (get db now key) in
      let here = counts now (omega arith) in_time in
      elim (Bool-cases (in_window window (now / 1000) s)) [
        | inr over ↦
            let none_yet : n ≡ 0 = ground arith in
            let run : send r window cap gap now key db
                ≡ (set_ex db now key (fresh_sends (now / 1000)) window, true) =
              ground arith in
            inr (
              ap (λ p. p.1) run,
              omega (arith, none_yet),
              subst
                  (λ m.
                    Counts r window cap gap key start now (suc m)
                      (send r window cap gap now key db).0)
                  (sym none_yet)
                  (subst (λ d. Counts r window cap gap key start now 1 d) (sym (ap (λ p. p.0) run))
                    (fresh-Counts from)),
            )
        | inl counting ↦
            elim (Bool-cases (leb cap s.count || ltb (now / 1000) (s.last + gap s.count))) [
              | inl refused ↦
                  let run : send r window cap gap now key db ≡ (db, false) = ground arith in
                  inl (
                    ap (λ p. p.1) run,
                    subst (λ d. Counts r window cap gap key start now n d) (sym (ap (λ p. p.0) run))
                        counts,
                  )
              | inr slot ↦
                  let run : send r window cap gap now key db
                      ≡ (set_keep db now key (one_more (now / 1000) s), true) =
                    ground arith in
                  inr (
                    ap (λ p. p.1) run,
                    ground arith,
                    subst (λ d. Counts r window cap gap key start now (suc n) d)
                        (sym (ap (λ p. p.0) run)) (one_more-Counts n (ground arith) in_time counts),
                  )
            ]
      ]

module _ (r : Redis Sends) (window cap : ℕ) (gap : ℕ → ℕ) (key : String) (some_cap : 1 ≤ cap) where
  open r use {Db, get}

  balance :
      (start now : ℕ) (calls : List Call) (db : Db) (n : ℕ)
      → start ≤ now / 1000
      → InOrder window start now calls
      → n ≤ cap
      → Counts r window cap gap key start now n db
      → (run r window cap gap key calls db).granted + n
        ≤ cap + (run r window cap gap key calls db).released
  unfolding run InOrder
  balance start now [] db n from order few counts = ground arith
  balance start now (reserve_at t ∷ calls) db n from order few counts =
      let answer : Db × Bool = send r window cap gap t key db in
      elim (send-Counts r window cap gap key start t db n some_cap (omega (arith, order.0)) order.1
        few (later-Counts r window cap gap key start now db n t order.0 counts)) [
          | inl (refused, counts') ↦
              let rest =
                balance start t calls answer.0 n (omega (arith, order.0)) order.2 few counts' in
              ground arith
          | inr (granted, few', counts') ↦
              let rest =
                balance start t calls answer.0 (suc n) (omega (arith, order.0)) order.2 few'
                  counts' in
              ground arith
        ]
  balance start now (release_at t ∷ calls) db n from order few counts =
      let rest =
        balance start t calls (give_back r window t key db) (n - 1) (omega (arith, order.0)) order.2
          (omega (arith, few))
          (released-Counts r window cap gap key start t db n order.1
            (later-Counts r window cap gap key start now db n t order.0 counts)) in
      ground arith

  -- Whatever calls arrive in the window that starts with an empty key, in the order of time: no more
  -- sends are let through than the cap, but for those that were given back.
  pub run_capped :
      (now : ℕ) (db : Db) (calls : List Call)
      → get db now key ≡ none
      → InOrder window (now / 1000) now calls
      → (run r window cap gap key calls db).granted
        ≤ cap + (run r window cap gap key calls db).released
  run_capped now db calls empty order =
      let all_calls =
        balance (now / 1000) now calls db 0 (omega arith) order (omega arith) (λ t later soon.
          (ap (λ o. (fields o).count) (missing_later r db now t key later empty), inl refl)) in
      ground arith
