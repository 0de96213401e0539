-- ===== src/Registration.antt =====
-- Self-serve registration, src/registration.ts, but for its send limiter: the pending registrations in
-- Redis (reg:pending:<email>, instants in seconds) and the table invitation_codes as a function from the
-- code to its row. Instants of calls are milliseconds, and those of one call are one; `minted` stands
-- for the random token, `sha256` for the hash and `lower_case` for toLowerCase().
pub mod Pending
pub mod Invites
pub mod Codes
mod Tests
use dreamsso.Common.{
  ℕ, zero, suc, ◌+◌, ◌/◌, ◌%◌, String, Bool, true, false, not, ◌&&◌, ◌||◌, Option, none, some, List,
  [], ◌∷◌, ◌==◌, map, all, length, ltb, leb, is_some, if◌then◌else◌, string_eq, option_eq, nat_eq,
}
use dreamsso.Common.Text.{codes, utf16_length, is_digit}
use dreamsso.Redis.{Redis}

abbrev pub link_ttl_seconds : ℕ
link_ttl_seconds = 1800

abbrev pub link_reuse_seconds : ℕ
link_reuse_seconds = 300

abbrev pub max_code_uses : ℕ
max_code_uses = 3

abbrev pub day_ms : ℕ
day_ms = 86400000

abbrev pub stale_pending_ms : ℕ
stale_pending_ms = 2400000

pub record PendingRegistration : Type 0 where
  pub token : String
  pub code : Option String
  pub created_at : ℕ
  pub last_sent : ℕ

-- A row of invitation_codes.
pub record Invite : Type 0 where
  pub invited_role_slug : Option String
  pub use_count : ℕ
  pub pending_email : Option String
  pub pending_at : Option ℕ
  pub used_by : Option String
  pub used_at : Option ℕ
  pub voided_at : Option ℕ
  pub expires_at : ℕ
  pub clear_at : Option ℕ

-- What getLiveInvite returns.
pub record LiveInvite : Type 0 where
  pub code : String
  pub invited_role_slug : Option String
  pub use_count : ℕ
  pub pending_email : Option String

pub data ClaimResult : Type 0 where
  resend claimed voided : ClaimResult

pub record RegistrationState (pend : Redis PendingRegistration) : Type 0 where
  pub pending_db : pend.Db
  pub invites : String → Option Invite

-- `token.length < 32 || token.length > 128`.
abbrev pub refused_length : String → Bool
refused_length token = ltb (utf16_length token) 32 || ltb 128 (utf16_length token)

-- `CODE_CHARSET` and `CODE_RE`; a code as the numbers of its characters.
abbrev pub code_charset : List ℕ
code_charset = codes "ABCDEFGHIJKLMNOPQRSTUVWXYZ0123456789"

abbrev pub is_code_char : ℕ → Bool
is_code_char c = (leb b'A' c && leb c b'Z') || is_digit c

abbrev pub is_code : List ℕ → Bool
is_code cs = length cs == 12 && all is_code_char cs

abbrev pub char_at : List ℕ → ℕ → ℕ
char_at [] n = 0
char_at (c ∷ cs) zero = c
char_at (c ∷ cs) (suc n) = char_at cs n

pub generate_invite_code : List ℕ → List ℕ
generate_invite_code [] = []
generate_invite_code (b ∷ bytes) = char_at code_charset (b % 36) ∷ generate_invite_code bytes

-- `used_by IS NULL AND voided_at IS NULL`.
abbrev pub is_open : Invite → Bool
is_open row = not (is_some row.used_by) && not (is_some row.voided_at)

-- `UPDATE ... WHERE code = $1 AND ...`.
abbrev pub update_code :
    String → (Invite → Bool) → (Invite → Invite) → (String → Option Invite) → String → Option Invite
update_code code holds f table other =
    if code == other
    then (elim (table other) [ none ↦ none | some row ↦ some (if holds row then f row else row) ])
    else table other

abbrev pub voided_row : ℕ → Invite → Invite
voided_row now row = record row {
  voided_at = some now;
  clear_at = some (now + day_ms);
  pending_email = none;
  pending_at = none;
}

abbrev pub consumed_row : ℕ → String → Invite → Invite
consumed_row now sub row = record row {
  used_by = some sub;
  used_at = some now;
  clear_at = none;
  pending_email = none;
  pending_at = none;
}

abbrev pub claimed_row : ℕ → String → Invite → Invite
claimed_row now email row = record row {
  use_count = row.use_count + 1;
  pending_email = some email;
  pending_at = some now;
}

abbrev pub is_before : Option ℕ → ℕ → Bool
is_before none now = false
is_before (some t) now = ltb t now

-- Both statements of the sweep on one row.
abbrev pub swept_row : ℕ → Option Invite → Option Invite
swept_row now none = none
swept_row now (some row) =
    if is_before row.clear_at now
    then none
    else some (
        if is_before (elim row.pending_at [ none ↦ none | some t ↦ some (t + stale_pending_ms) ])
          now
        then record row { pending_email = none; pending_at = none }
        else row)

-- `if (email)`: an empty text counts as none.
abbrev pub filled : Option String → Option String
filled none = none
filled (some s) = if s == "" then none else some s

module _ (pend : Redis PendingRegistration) (sha256 lower_case : String → String) where
  abbrev State : Type 0
  State = RegistrationState pend

  unfoldable pub get_pending : ℕ → String → State → Option PendingRegistration
  get_pending now email s = pend.get s.pending_db now (lower_case email)

  abbrev pub can_reuse : ℕ → Option String → PendingRegistration → Bool
  can_reuse now code cur = cur.code == code && ltb (now / 1000) (cur.last_sent + link_reuse_seconds)

  unfoldable pub new_pending : ℕ → String → Option String → String → State → State
  new_pending now email code minted s = record s {
    pending_db =
        pend.set_ex s.pending_db now (lower_case email)
          (record { token = minted; code = code; created_at = now / 1000; last_sent = now / 1000 })
          link_ttl_seconds;
  }

  unfoldable pub sent_again : ℕ → String → PendingRegistration → State → State
  sent_again now email cur s = record s {
    pending_db =
        pend.set_keep s.pending_db now (lower_case email) (record cur { last_sent = now / 1000 });
  }

  unfoldable pub issue_pending : ℕ → String → Option String → String → State → State × String × Bool
  issue_pending now email code minted s = elim (get_pending now email s) [
    | none ↦ (new_pending now email code minted s, minted, false)
    | some cur ↦
        if can_reuse now code cur
        then (sent_again now email cur s, cur.token, true)
        else (new_pending now email code minted s, minted, false)
  ]

  unfoldable pub validate_pending : ℕ → String → String → State → Option PendingRegistration
  validate_pending now email token s =
      if refused_length token then none else (elim (get_pending now email s) [
        | none ↦ none
        | some cur ↦ if sha256 cur.token == sha256 token then some cur else none
      ])

  unfoldable pub drop_pending : String → State → State
  drop_pending email s = record s { pending_db = pend.del s.pending_db (lower_case email) }

  pub pending_email_exists : ℕ → String → State → Bool
  pending_email_exists now email s = is_some (pend.get s.pending_db now (lower_case email))

  abbrev pub drop_if : Option String → State → State
  drop_if none s = s
  drop_if (some email) s = drop_pending email s

  unfoldable pub get_live_invite : ℕ → String → State → Option LiveInvite
  get_live_invite now code s =
      if is_code (codes code)
      then (elim (s.invites code) [
        | none ↦ none
        | some row ↦
            if is_open row && ltb now row.expires_at
            then some (record {
              code = code;
              invited_role_slug = row.invited_role_slug;
              use_count = row.use_count;
              pending_email = row.pending_email;
            })
            else none
      ])
      else none

  unfoldable pub void_invite : ℕ → String → Option String → State → State
  void_invite now code pending_email s =
      let dropped : State = drop_if (filled pending_email) s in
      record dropped { invites = update_code code is_open (voided_row now) dropped.invites }

  -- `invite.pending_email && invite.pending_email.toLowerCase() === email.toLowerCase()`.
  abbrev pub is_same_address : Option String → String → Bool
  is_same_address none email = false
  is_same_address (some old) email = lower_case old == lower_case email

  unfoldable pub claim_invite_use : ℕ → LiveInvite → String → State → State × ClaimResult
  claim_invite_use now invite email s =
      let dropped : State = drop_if (filled invite.pending_email) s in
      if is_same_address (filled invite.pending_email) email
      then (
        record s {
          invites =
              update_code invite.code (λ row. true) (λ row. record row { pending_at = some now })
                s.invites;
        },
        resend,
      )
      else if leb max_code_uses invite.use_count
      then (void_invite now invite.code invite.pending_email s, voided)
      else (
        record dropped {
          invites = update_code invite.code (λ row. true) (claimed_row now email) dropped.invites;
        },
        claimed,
      )

  unfoldable pub consume_invite : ℕ → String → String → State → State × Bool
  consume_invite now code sub s = (
    record s { invites = update_code code is_open (consumed_row now sub) s.invites },
    elim (s.invites code) [ none ↦ false | some row ↦ is_open row ],
  )

  unfoldable pub sweep_invitations : ℕ → State → State
  sweep_invitations now s = record s { invites = λ code. swept_row now (s.invites code) }
