-- ===== src/EmailChange.antt =====
-- Email verification links, src/emailChange.ts: the live links by the hash of their token
-- (emailchg:tok), the hash of a user's link (emailchg:user) and the addresses that a pending change
-- holds (emailchg:addr). Instants are milliseconds; `minted` stands for the random token, `sha256` for
-- the hash and `lower_case` for toLowerCase(). A record is written and read as a value: JSON.stringify
-- and JSON.parse are not modelled.
pub mod OneLink
mod Tests
use dreamsso.Common.{
  ℕ, ◌+◌, ◌-◌, ◌/◌, String, Bool, true, false, ◌&&◌, ◌||◌, not, Option, none, some, ◌==◌, ltb,
  is_some, if◌then◌else◌, string_eq,
}
use dreamsso.Common.Text.{utf16_length}
use dreamsso.Redis.{Redis}

pub data Kind : Type 0 where
  change confirm : Kind

abbrev pub is_change : Kind → Bool
is_change change = true
is_change confirm = false

-- `cur.kind === kind`.
abbrev pub same_kind : Kind → Kind → Bool
same_kind change other = is_change other
same_kind confirm other = not (is_change other)

pub record EmailChange : Type 0 where
  pub sub : String
  pub kind : Kind
  pub new_email : String
  pub token : String
  pub created_at : ℕ
  pub last_sent : ℕ

abbrev pub token_ttl_seconds : ℕ
token_ttl_seconds = 1800

abbrev pub token_reuse_seconds : ℕ
token_reuse_seconds = 300

pub record Links (links : Redis EmailChange) (texts : Redis String) : Type 0 where
  pub tokens : links.Db
  pub users : texts.Db
  pub addresses : texts.Db

-- `token.length < 20 || token.length > 100`.
abbrev pub bad_length : String → Bool
bad_length token = ltb (utf16_length token) 20 || ltb 100 (utf16_length token)

module _ (links : Redis EmailChange) (texts : Redis String)
    (sha256 lower_case : String → String) where
  abbrev State : Type 0
  State = Links links texts

  unfoldable pub get_email_change : ℕ → String → State → Option EmailChange
  get_email_change now sub s = elim (texts.get s.users now sub) [
    | none ↦ none
    | some hash ↦ if hash == "" then none else links.get s.tokens now hash
  ]

  abbrev pub freed : EmailChange → texts.Db → texts.Db
  freed rec db = if is_change rec.kind then texts.del db (lower_case rec.new_email) else db

  unfoldable pub drop_keys : String → EmailChange → State → State
  drop_keys hash rec s = record s {
    tokens = links.del s.tokens hash;
    users = texts.del s.users rec.sub;
    addresses = freed rec s.addresses;
  }

  unfoldable pub drop_email_change : EmailChange → State → State
  drop_email_change rec s = drop_keys (sha256 rec.token) rec s

  -- The pending link can be sent again.
  abbrev pub is_reusable : ℕ → Kind → String → EmailChange → Bool
  is_reusable now kind new_email cur =
      same_kind cur.kind kind
      && lower_case cur.new_email == lower_case new_email
      && ltb (now / 1000) (cur.last_sent + token_reuse_seconds)

  unfoldable pub resend_link : ℕ → EmailChange → State → State
  resend_link now cur s = record s {
    tokens = links.set_keep s.tokens now (sha256 cur.token) (record cur { last_sent = now / 1000 });
  }

  unfoldable pub new_link : ℕ → String → Kind → String → String → State → State
  new_link now sub kind new_email minted s = record s {
    tokens =
        links.set_ex s.tokens now (sha256 minted)
          (record {
            sub = sub;
            kind = kind;
            new_email = new_email;
            token = minted;
            created_at = now / 1000;
            last_sent = now / 1000;
          })
          token_ttl_seconds;
    users = texts.set_ex s.users now sub (sha256 minted) token_ttl_seconds;
    addresses =
        if is_change kind
        then texts.set_ex s.addresses now (lower_case new_email) sub token_ttl_seconds
        else s.addresses;
  }

  -- The token to mail, and whether it is the pending one.
  unfoldable pub issue_email_change :
      ℕ → String → Kind → String → String → State → State × String × Bool
  issue_email_change now sub kind new_email minted s = elim (get_email_change now sub s) [
    | none ↦ (new_link now sub kind new_email minted s, minted, false)
    | some cur ↦
        if is_reusable now kind new_email cur
        then (resend_link now cur s, cur.token, true)
        else (new_link now sub kind new_email minted (drop_email_change cur s), minted, false)
  ]

  -- `GETDEL` of the token, then the user's pointer and the reservation.
  unfoldable pub redeem_email_change : ℕ → String → State → State × Option EmailChange
  redeem_email_change now token s =
      if bad_length token then (s, none) else (elim (links.get s.tokens now (sha256 token)) [
        | none ↦ (s, none)
        | some rec ↦ (drop_keys (sha256 token) rec s, some rec)
      ])

  unfoldable pub cancel_email_change : ℕ → String → State → State × Bool
  cancel_email_change now sub s = elim (get_email_change now sub s) [
    | none ↦ (s, false)
    | some cur ↦ (drop_email_change cur s, true)
  ]

  pub change_pending_owner : ℕ → String → State → Option String
  change_pending_owner now email s = texts.get s.addresses now (lower_case email)

  pub change_pending_for_address : ℕ → String → State → Bool
  change_pending_for_address now email s = is_some (texts.get s.addresses now (lower_case email))
