-- ===== src/EmailChange/OneLink.antt =====
-- A link of src/emailChange.ts is redeemed once, and only the latest one of a user.
use dreamsso.Common.{
  ℕ, ◌+◌, ◌*◌, ◌/◌, ◌≤◌, ◌<◌, String, Bool, false, Option, none, some, ◌≡◌, ◌≢◌, string_eq, arith,
  Option-cases, Bool-cases, inl, inr, beq_refl, ◌∙◌, ap,
}
use dreamsso.Redis.{Redis}
use dreamsso.Redis.Reads.{get-set_ex_same, get-set_ex_other, get-del_same}
use dreamsso.EmailChange.{
  EmailChange, Kind, change, Links, bad_length, token_ttl_seconds, get_email_change,
  drop_email_change, drop_keys, new_link, issue_email_change, redeem_email_change,
  cancel_email_change, change_pending_for_address, is_reusable,
}

abbrev pub started_link : ℕ → String → Kind → String → String → EmailChange
started_link now sub kind new_email minted = record {
  sub = sub;
  kind = kind;
  new_email = new_email;
  token = minted;
  created_at = now / 1000;
  last_sent = now / 1000;
}

module _ (links : Redis EmailChange) (texts : Redis String)
    (sha256 lower_case : String → String) where
  abbrev State : Type 0
  State = Links links texts

  redeem_found :
      (t : ℕ) (token : String) (s : State) (rec : EmailChange)
      → bad_length token ≡ false
      → links.get s.tokens t (sha256 token) ≡ some rec
      → ◌≡◌ {A = State × Option EmailChange}
          (redeem_email_change links texts sha256 lower_case t token s)
          (drop_keys links texts sha256 lower_case (sha256 token) rec s, some rec)
  unfolding redeem_email_change
  redeem_found t token s rec fits found = ground arith

  redeem_missing :
      (t : ℕ) (token : String) (s : State)
      → links.get s.tokens t (sha256 token) ≡ none
      → (redeem_email_change links texts sha256 lower_case t token s).1 ≡ none
  unfolding redeem_email_change
  redeem_missing t token s missing = ground arith

  dropped :
      (hash : String) (rec : EmailChange) (s : State) (t : ℕ)
      → links.get (drop_keys links texts sha256 lower_case hash rec s).tokens t hash ≡ none
  unfolding drop_keys
  dropped hash rec s t = get-del_same links s.tokens hash t

  new_link-get :
      (now : ℕ) (sub : String) (kind : Kind) (new_email minted : String) (s : State) (t : ℕ)
      → now ≤ t
      → t < now + token_ttl_seconds * 1000
      → links.get
          (new_link links texts sha256 lower_case now sub kind new_email minted s).tokens
          t
          (sha256 minted)
        ≡ some (started_link now sub kind new_email minted)
  unfolding new_link
  new_link-get now sub kind new_email minted s t later live =
      get-set_ex_same links s.tokens now (sha256 minted)
        (started_link now sub kind new_email minted) token_ttl_seconds t later live

  new_link-get_other :
      (now : ℕ) (sub : String) (kind : Kind) (new_email minted hash : String) (s : State) (t : ℕ)
      → now ≤ t
      → sha256 minted ≢ hash
      → links.get
          (new_link links texts sha256 lower_case now sub kind new_email minted s).tokens
          t
          hash
        ≡ links.get s.tokens t hash
  unfolding new_link
  new_link-get_other now sub kind new_email minted hash s t later other =
      get-set_ex_other links s.tokens now (sha256 minted)
        (started_link now sub kind new_email minted) token_ttl_seconds t hash later other

  module _ (now : ℕ) (sub : String) (kind : Kind) (new_email minted : String) (s : State) where
    abbrev after_issue : State × String × Bool
    after_issue = issue_email_change links texts sha256 lower_case now sub kind new_email minted s

    -- A call that does not send the pending link again starts a new one.
    issued_new :
        after_issue.2 ≡ false
        → (before : State) × (after_issue.0
            ≡ new_link links texts sha256 lower_case now sub kind new_email minted before)
    unfolding issue_email_change
    issued_new new =
        elim (Option-cases (get_email_change links texts sha256 lower_case now sub s)) [
          | inl missing ↦ (s, ground arith)
          | inr (cur, found) ↦
              elim (Bool-cases (is_reusable links texts sha256 lower_case now kind new_email cur)) [
                | inl again ↦ ground arith
                | inr fresh ↦ (drop_email_change links texts sha256 lower_case cur s, ground arith)
              ]
        ]

    -- A new link, opened in its half hour, gives back what was asked for; a second opening gives nothing.
    pub redeem-issue_email_change :
        (t t' : ℕ)
        → after_issue.2 ≡ false
        → bad_length minted ≡ false
        → now ≤ t
        → t < now + token_ttl_seconds * 1000
        → ((redeem_email_change links texts sha256 lower_case t minted after_issue.0).1
            ≡ some (started_link now sub kind new_email minted))
          × ((redeem_email_change links texts sha256 lower_case t' minted
                (redeem_email_change links texts sha256 lower_case t minted after_issue.0).0).1
              ≡ none)
    redeem-issue_email_change t t' new fits later live =
        let (before, run) = issued_new new in
        let rec : EmailChange = started_link now sub kind new_email minted in
        let stored = new_link-get now sub kind new_email minted before t later live in
        let found : links.get after_issue.0.tokens t (sha256 minted) ≡ some rec =
          ap (λ (d : State). links.get d.tokens t (sha256 minted)) run ∙ stored in
        let opened = redeem_found t minted after_issue.0 rec fits found in
        (
          ap (λ p. p.1) opened,
          redeem_missing t' minted
              (redeem_email_change links texts sha256 lower_case t minted after_issue.0).0
              (ap (λ p. links.get p.0.tokens t' (sha256 minted)) opened
                ∙ dropped (sha256 minted) rec after_issue.0 t'),
        )

    -- A user's pending link that a new request replaces cannot be opened any more.
    issue_email_change-latest :
        (cur : EmailChange) (t : ℕ)
        → get_email_change links texts sha256 lower_case now sub s ≡ some cur
        → after_issue.2 ≡ false
        → sha256 minted ≢ sha256 cur.token
        → now ≤ t
        → (redeem_email_change links texts sha256 lower_case t cur.token after_issue.0).1 ≡ none
    unfolding issue_email_change drop_email_change
    issue_email_change-latest cur t found new other later =
        let fresh : is_reusable links texts sha256 lower_case now kind new_email cur ≡ false =
          ground arith in
        let run : after_issue.0
            ≡ new_link links texts sha256 lower_case now sub kind new_email minted
                (drop_email_change links texts sha256 lower_case cur s) =
          ground arith in
        redeem_missing t cur.token after_issue.0 (
          ap (λ (d : State). links.get d.tokens t (sha256 cur.token)) run
          ∙ new_link-get_other now sub kind new_email minted (sha256 cur.token)
              (drop_email_change links texts sha256 lower_case cur s) t later other
          ∙ dropped (sha256 cur.token) cur s t)

  -- Cancelling a pending change to an address: the link is dead, the user has none, and the address
  -- is free.
  cancel_email_change-frees :
      (now : ℕ) (sub : String) (s : State) (cur : EmailChange) (t : ℕ)
      → get_email_change links texts sha256 lower_case now sub s ≡ some cur
      → cur.sub ≡ sub
      → cur.kind ≡ change
      → ((redeem_email_change links texts sha256 lower_case t cur.token
            (cancel_email_change links texts sha256 lower_case now sub s).0).1
          ≡ none)
        × (get_email_change links texts sha256 lower_case t sub
              (cancel_email_change links texts sha256 lower_case now sub s).0
            ≡ none)
        × (change_pending_for_address links texts sha256 lower_case t cur.new_email
              (cancel_email_change links texts sha256 lower_case now sub s).0
            ≡ false)
  unfolding cancel_email_change drop_email_change drop_keys get_email_change
      change_pending_for_address
  cancel_email_change-frees now sub s cur t found own kind =
      let run : (cancel_email_change links texts sha256 lower_case now sub s).0
          ≡ drop_email_change links texts sha256 lower_case cur s =
        ground arith in
      let users = texts.get-del s.users cur.sub t sub in
      let addresses =
        texts.get-del s.addresses (lower_case cur.new_email) t (lower_case cur.new_email) in
      (
        redeem_missing t cur.token (cancel_email_change links texts sha256 lower_case now sub s).0 (
            ap (λ (d : State). links.get d.tokens t (sha256 cur.token)) run
            ∙ dropped (sha256 cur.token) cur s t),
        ground (arith, beq_refl sub),
        ground (arith, beq_refl (lower_case cur.new_email)),
      )
