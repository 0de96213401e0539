-- ===== src/Login/Codes.antt =====
-- Codes and transactions of src/oidc/codes.ts and src/oidc/transactions.ts: how often each is used.
use dreamsso.Common.{ℕ, ◌+◌, ◌*◌, ◌≤◌, ◌<◌, String, none, some, ◌≡◌, string_eq, arith, ap, ◌∙◌}
use dreamsso.Redis.{Redis}
use dreamsso.Redis.Reads.{get-set_ex_same, get-del_same}
use dreamsso.Login.{
  AuthCode, create_code, read_code, delete_code, consume_code, consume_overlapping,
  code_ttl_seconds,
}

module _ (codes : Redis AuthCode) (now : ℕ) (code : String) (fields : AuthCode) (db : codes.Db)
    (t later : ℕ) where
  abbrev created : codes.Db
  created = create_code codes now code fields db

  -- A code, exchanged within its minute, gives back what it was created for, and a later exchange
  -- nothing; but two exchanges in that minute that both read before either deletes both succeed.
  pub consume-create_code :
      now ≤ t
      → t ≤ later
      → later < now + code_ttl_seconds * 1000
      → ((consume_code codes t code created).1 ≡ some fields)
        × ((consume_code codes later code (consume_code codes t code created).0).1 ≡ none)
        × ((consume_overlapping codes t later code created).1 ≡ some fields)
        × ((consume_overlapping codes t later code created).2 ≡ some fields)
  unfolding create_code consume_code read_code delete_code consume_overlapping
  consume-create_code after order alive =
      let first : codes.get created t code ≡ some fields =
        get-set_ex_same codes db now code fields code_ttl_seconds t after
          (omega (arith, order, alive)) in
      let second : codes.get created later code ≡ some fields =
        get-set_ex_same codes db now code fields code_ttl_seconds later
          (omega (arith, after, order)) alive in
      (
        first,
        ap (λ found. codes.get (delete_code codes code found created) later code) first
            ∙ get-del_same codes created code later,
        first,
        second,
      )
