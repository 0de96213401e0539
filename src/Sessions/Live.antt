-- ===== src/Sessions/Live.antt =====
-- Loading and cleaning of src/oidc/sessions.ts agree on which sessions live.
use dreamsso.Common.{
  ℕ, ◌+◌, ◌*◌, ◌≤◌, ◌<◌, String, Bool, true, false, not, ◌&&◌, Option, none, some, List, [], ◌∷◌,
  ◌++◌, ◌≡◌, refl, ap, ◌∙◌, ◌==◌, find?, filter, if◌then◌else◌, string_eq, arith, Bool-cases, inl,
  inr, beq_refl,
}
use dreamsso.Store.{Identity}
use dreamsso.Sessions.Windows.{SessionWindows}
use dreamsso.Sessions.{
  Session, SessionState, NewSession, hour_ms, is_live, is_expired, owner_active, found,
  active_session, load_session, load_session_by_sid, clean_expired_sessions, create_session, born,
}

find?-filter :
    {A : Type 0} (p keep : A → Bool) (xs : List A)
    → ((a : A) → p a ≡ true → keep a ≡ true)
    → find? p (filter keep xs) ≡ find? p xs
find?-filter p keep [] h = refl
find?-filter p keep (x ∷ xs) h =
    let rest = find?-filter p keep xs h in
    elim (Bool-cases (p x)) [
      | inl here ↦ let kept = h x here in ground arith
      | inr other ↦ elim (Bool-cases (keep x)) [ inl kept ↦ ground arith | inr gone ↦ ground arith ]
    ]

found-answer :
    (now : ℕ) (o : Option Session) (s s' : SessionState) → (found now o s).1 ≡ (found now o s').1
found-answer now none s s' = refl
found-answer now (some row) s s' = refl

module _ (now : ℕ) (w : SessionWindows) (identities : ℕ → Option Identity) where
  live-kept :
      (row : Session) → is_live now w identities row ≡ true → not (is_expired now w row) ≡ true
  live-kept row live = ground arith

  -- The hourly cleaning changes nothing of what the cookie or the session id loads at that instant.
  pub load_session-clean_expired_sessions :
      (hash sid : String) (s : SessionState)
      → ((load_session now w identities hash (clean_expired_sessions now w s).0).1
          ≡ (load_session now w identities hash s).1)
        × ((load_session_by_sid now w identities sid (clean_expired_sessions now w s).0).1
            ≡ (load_session_by_sid now w identities sid s).1)
  unfolding load_session load_session_by_sid clean_expired_sessions
  load_session-clean_expired_sessions hash sid s =
      let by_hash : Session → Bool =
        λ row. row.token_hash == hash && is_live now w identities row in
      let by_sid : Session → Bool = λ row. row.sid == sid && is_live now w identities row in
      let kept_hash =
        find?-filter by_hash (λ row. not (is_expired now w row)) s.rows
          (λ row holds. live-kept row (ground arith)) in
      let kept_sid =
        find?-filter by_sid (λ row. not (is_expired now w row)) s.rows
          (λ row holds. live-kept row (ground arith)) in
      (
        found-answer now (find? by_hash (clean_expired_sessions now w s).0.rows)
              (clean_expired_sessions now w s).0 s
            ∙ ap (λ o. (found now o s).1) kept_hash,
        found-answer now (find? by_sid (clean_expired_sessions now w s).0.rows)
              (clean_expired_sessions now w s).0 s
            ∙ ap (λ o. (found now o s).1) kept_sid,
      )

find?-append :
    (p : Session → Bool) (rows : List Session) (row : Session)
    → find? p rows ≡ none
    → find? p (rows ++ (row ∷ [])) ≡ (if p row then some row else none)
find?-append p [] row missing = refl
find?-append p (x ∷ rows) row missing =
    let rest = find?-append p rows row in
    elim (Bool-cases (p x)) [ inl here ↦ ground arith | inr other ↦ ground arith ]

and_true : (a b : Bool) → a ≡ true → b ≡ true → (a && b) ≡ true
and_true a b ha hb = ground arith

and_false : (a b : Bool) → b ≡ false → (a && b) ≡ false
and_false a b hb = ground arith

transient_live :
    (t : ℕ) (w : SessionWindows) (identities : ℕ → Option Identity) (row : Session)
    → row.persistent ≡ false
    → owner_active identities row ≡ true
    → t < row.last_seen + w.idle_hours * hour_ms
    → t < row.created_at + w.transient_max_hours * hour_ms
    → is_live t w identities row ≡ true
transient_live t w identities row transient owner idle short = ground arith

transient_over :
    (late : ℕ) (w : SessionWindows) (identities : ℕ → Option Identity) (row : Session)
    → row.persistent ≡ false
    → row.created_at + w.transient_max_hours * hour_ms ≤ late
    → is_live late w identities row ≡ false
transient_over late w identities row transient over = ground arith

-- A session that was created loads by its cookie as long as it is used within the idle window, its
-- identity is active and the transient window runs, and from the end of that window on it does not
-- load, unless it was made persistent.
pub load_session-create_session :
    (now : ℕ) (w : SessionWindows) (identities : ℕ → Option Identity) (sid hash : String)
    (new : NewSession) (s : SessionState) (t late : ℕ)
    → ((u : ℕ) → find? (λ row. row.token_hash == hash && is_live u w identities row) s.rows ≡ none)
    → owner_active identities (born now w sid hash new) ≡ true
    → t < now + w.idle_hours * hour_ms
    → t < now + w.transient_max_hours * hour_ms
    → now + w.transient_max_hours * hour_ms ≤ late
    → ((load_session t w identities hash (create_session now w sid hash new s)).1
        ≡ some (active_session (born now w sid hash new)))
      × ((load_session late w identities hash (create_session now w sid hash new s)).1 ≡ none)
unfolding load_session create_session
load_session-create_session now w identities sid hash new s t late unused owner idle short over =
    let row : Session = born now w sid hash new in
    let p : ℕ → Session → Bool = λ u r. r.token_hash == hash && is_live u w identities r in
    let loads : find? (p t) (s.rows ++ (row ∷ [])) ≡ some row =
      find?-append (p t) s.rows row (unused t)
      ∙ ap (λ (b : Bool). if b then some row else none)
          (and_true (row.token_hash == hash) (is_live t w identities row) (beq_refl hash)
            (transient_live t w identities row refl owner idle short)) in
    let dead : find? (p late) (s.rows ++ (row ∷ [])) ≡ none =
      find?-append (p late) s.rows row (unused late)
      ∙ ap (λ (b : Bool). if b then some row else none)
          (and_false (row.token_hash == hash) (is_live late w identities row)
            (transient_over late w identities row refl over)) in
    (
      ap (λ o. (found t o (create_session now w sid hash new s)).1) loads,
      ap (λ o. (found late o (create_session now w sid hash new s)).1) dead,
    )
