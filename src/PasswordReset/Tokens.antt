-- ===== src/PasswordReset/Tokens.antt =====
-- Reset tokens and login tickets of src/passwordReset.ts: used once, and only the latest.
use dreamsso.Common.{
  ℕ, ◌+◌, ◌*◌, ◌≤◌, ◌<◌, String, true, false, none, some, ◌≡◌, ◌≢◌, is_some, string_eq, arith,
  beq_neq, beq_refl,
}
use dreamsso.Redis.{Redis}
use dreamsso.Redis.Reads.{get-set_ex_same, get-set_ex_other, get-set_ex_lapsed, get-del_same}
use dreamsso.PasswordReset.{
  ResetToken, FoundToken, LoginTicket, ResetState, wrong_length, ticket_ttl_seconds,
  reset_ttl_seconds, issue_reset_token, get_reset_token, consume_reset_token, bump_reset_attempts,
  mint_login_ticket, redeem_login_ticket, drop_previous, max_challenge_attempts,
}

module _ (records : Redis ResetToken) (texts : Redis String) (tickets : Redis LoginTicket)
    (sha256 : String → String) where
  abbrev State : Type 0
  State = ResetState records texts tickets

  no_record :
      (t : ℕ) (token : String) (s : State)
      → records.get s.token_db t (sha256 token) ≡ none
      → get_reset_token records texts tickets sha256 t token s ≡ none
  unfolding get_reset_token
  no_record t token s missing = ground arith

  -- A reset link, opened in its half hour, names the user it was issued for, with no attempts; from
  -- the half hour on it is dead.
  get-issue_reset_token :
      (now : ℕ) (sub minted : String) (s : State) (t late : ℕ)
      → wrong_length minted ≡ false
      → now ≤ t
      → t < now + reset_ttl_seconds * 1000
      → now + reset_ttl_seconds * 1000 ≤ late
      → (get_reset_token records texts tickets sha256 t minted
            (issue_reset_token records texts tickets sha256 now sub minted s)
          ≡ some (record { sub = sub; attempts = 0; hash = sha256 minted }))
        × (get_reset_token records texts tickets sha256 late minted
              (issue_reset_token records texts tickets sha256 now sub minted s)
            ≡ none)
  unfolding issue_reset_token get_reset_token
  get-issue_reset_token now sub minted s t late fits later live lapsed =
      let before = (drop_previous records texts tickets sha256 now sub s).token_db in
      let kept =
        get-set_ex_same records before now (sha256 minted) (record { sub = sub; attempts = 0 })
          reset_ttl_seconds t later live in
      let gone =
        get-set_ex_lapsed records before now (sha256 minted) (record { sub = sub; attempts = 0 })
          reset_ttl_seconds late lapsed in
      (ground arith, ground arith)

  -- Issuing a link ends the user's previous one.
  issue_reset_token-latest :
      (now : ℕ) (sub minted old : String) (s : State) (t : ℕ)
      → texts.get s.user_db now sub ≡ some (sha256 old)
      → sha256 old ≢ ""
      → sha256 minted ≢ sha256 old
      → now ≤ t
      → get_reset_token records texts tickets sha256 t old
          (issue_reset_token records texts tickets sha256 now sub minted s)
        ≡ none
  unfolding issue_reset_token
  issue_reset_token-latest now sub minted old s t pointed filled other later =
      let stays =
        get-set_ex_other records (drop_previous records texts tickets sha256 now sub s).token_db now
          (sha256 minted) (record { sub = sub; attempts = 0 }) reset_ttl_seconds t (sha256 old)
          later other in
      let gone = get-del_same records s.token_db (sha256 old) t in
      let some_text = beq_neq (sha256 old) "" filled in
      no_record t old (issue_reset_token records texts tickets sha256 now sub minted s)
        (ground arith)

  -- A token that was used is dead, whatever the time.
  consume_reset_token-once :
      (now t : ℕ) (token : String) (rec : FoundToken) (s : State)
      → get_reset_token records texts tickets sha256 now token s ≡ some rec
      → get_reset_token records texts tickets sha256 t token
          (consume_reset_token records texts tickets sha256 rec s)
        ≡ none
  unfolding get_reset_token consume_reset_token
  consume_reset_token-once now t token rec s found =
      let gone = get-del_same records s.token_db (sha256 token) t in ground arith

  -- A failed attempt that read its record before the token was used brings the token back, and it never
  -- expires.
  pub bump_reset_attempts-revives :
      (now later t : ℕ) (token : String) (rec : FoundToken) (s : State)
      → wrong_length token ≡ false
      → get_reset_token records texts tickets sha256 now token s ≡ some rec
      → rec.attempts + 1 < max_challenge_attempts
      → later ≤ t
      → is_some (
          get_reset_token records texts tickets sha256 t token
            (bump_reset_attempts records texts tickets sha256 later rec
              (consume_reset_token records texts tickets sha256 rec s)).0)
        ≡ true
  unfolding get_reset_token consume_reset_token bump_reset_attempts
  bump_reset_attempts-revives now later t token rec s fits found few after =
      let gone = get-del_same records s.token_db (sha256 token) later in
      let back =
        records.get-set_keep_new (records.del s.token_db (sha256 token)) later (sha256 token)
          (record { sub = rec.sub; attempts = rec.attempts + 1 }) t (sha256 token) after gone in
      ground (arith, beq_refl (sha256 token))

  -- A login ticket, redeemed within its minute, gives back what it was minted for, and then nothing.
  redeem-mint_login_ticket :
      (now t t' : ℕ) (minted : String) (ticket : LoginTicket) (s : State)
      → wrong_length minted ≡ false
      → now ≤ t
      → t < now + ticket_ttl_seconds * 1000
      → ((redeem_login_ticket records texts tickets sha256 t minted
            (mint_login_ticket records texts tickets sha256 now minted ticket s)).1
          ≡ some ticket)
        × ((redeem_login_ticket records texts tickets sha256 t' minted
              (redeem_login_ticket records texts tickets sha256 t minted
                (mint_login_ticket records texts tickets sha256 now minted ticket s)).0).1
            ≡ none)
  unfolding redeem_login_ticket mint_login_ticket
  redeem-mint_login_ticket now t t' minted ticket s fits later live =
      let kept =
        get-set_ex_same tickets s.ticket_db now (sha256 minted) ticket ticket_ttl_seconds t later
          live in
      let gone =
        get-del_same tickets
          (tickets.set_ex s.ticket_db now (sha256 minted) ticket ticket_ttl_seconds) (sha256 minted)
          t' in
      (ground arith, ground arith)
