-- ===== src/Access/Query.antt =====
-- The signed read of access states, `createAccessStateRouter` of src/backchannel/accessState.ts, as
-- src/server.ts wires it: the registered clients of Store and the snapshot of Access. Keys and their
-- verification are jose's and the key resolver's; `audience` is the issuer's address with the path.
pub mod Answers
pub mod Complete
mod Tests
use dreamsso.Common.{
  ℕ, ◌+◌, String, Bool, true, false, not, ◌&&◌, ◌||◌, Option, none, some, List, [], ◌∷◌, ◌==◌, ◌≡◌,
  refl, map, any, length, contains, is_some, leb, ltb, if◌then◌else◌, nat_eq, string_eq, bool_eq,
}
use dreamsso.Common.Int.{ℤ, pos_part, neg_part, ltb_ℤ}
use dreamsso.Common.Result.{Result, ok, err, ◌>>=◌, ◌>>◌, fail_if, or_fail}
use dreamsso.Common.Text.{codes, is_lower, is_digit, utf16_length}
use dreamsso.Json.{
  Json, null, boolean, number, fractional, text, array, object, Elems, nil, cons, Fields, get,
  as_text,
}
use dreamsso.Store.{Store}
use dreamsso.Events.Intake.{is_uuid}
use dreamsso.Access.{AccessState, in_service, read_access_state_snapshot}

abbrev pub max_subjects : ℕ
max_subjects = 100

-- The status and the word of a refusal.
pub record QueryError : Type 0 where
  pub status : ℕ
  pub error : String

abbrev pub invalid_signature : QueryError
invalid_signature = record { status = 401; error = "invalid_signature" }

abbrev pub unavailable : QueryError
unavailable = record { status = 503; error = "access_state_unavailable" }

abbrev pub invalid_subjects : QueryError
invalid_subjects = record { status = 400; error = "invalid_subjects" }

pub record Request : Type 0 where
  pub method : String
  pub has_query : Bool
  pub authorization : Option String

-- What the key resolver gives: a throw, no key, or keys.
pub data KeySetup : Type 0 where
  misconfigured no_keys has_keys : KeySetup

-- What the verification of a token gives.
pub data Verified : Type 0 where
  payload_is : Fields → Verified
  rejected keys_unreachable : Verified

pub record Answer : Type 0 where
  pub client_id : String
  pub request_id : String
  pub authority : Option (ℕ × ℕ)
  pub subjects : List AccessState

abbrev lower_code : ℕ → ℕ
lower_code c = if leb b'A' c && leb c b'Z' then c + 32 else c

abbrev is_token_code : ℕ → Bool
is_token_code c = is_lower (lower_code c) || is_digit c || c == b'_' || c == b'.' || c == b'-'

abbrev after_scheme : List ℕ → List ℕ → Option (List ℕ)
after_scheme [] cs = some cs
after_scheme (want ∷ wants) [] = none
after_scheme (want ∷ wants) (c ∷ cs) =
    let rest = after_scheme wants cs in if want == lower_code c then rest else none

-- `/^Bearer ([A-Za-z0-9_.-]+)$/i`, and at most 8192 characters.
unfoldable pub bearer_token : Option String → Option (List ℕ)
bearer_token none = none
bearer_token (some header) = elim (after_scheme (codes "bearer ") (codes header)) [
  | none ↦ none
  | some token ↦
      if ltb 0 (length token)
        && leb (length token) 8192
        && not (any (λ c. not (is_token_code c)) token)
      then some token
      else none
]

abbrev pub integer : Option Json → Option ℤ
integer (some (number z)) = some z
integer _ = none

-- `exp <= iat` and `exp - iat > 120` are refused.
abbrev pub is_short_lived : Option ℤ → Option ℤ → Bool
is_short_lived (some iat) (some exp) =
    ltb_ℤ iat exp && leb (pos_part exp + neg_part iat) (pos_part iat + neg_part exp + 120)
is_short_lived _ _ = false

abbrev pub says : Option Json → String → Bool
says (some (text s)) expected = s == expected
says _ expected = false

unfoldable pub is_query : String → Fields → Bool
is_query audience fs =
    is_short_lived (integer (get "iat" fs)) (integer (get "exp" fs))
    && says (get "aud" fs) audience
    && says (get "method" fs) "GET"
    && says (get "path" fs) "/backchannel/access-state"
    && says (get "action" fs) "access-state"

abbrev pub request_id_of : Option Json → Option String
request_id_of (some (text s)) = if is_uuid s then some s else none
request_id_of _ = none

-- `new Set(subjects).size === subjects.length`.
abbrev pub distinct : List ℕ → Bool
distinct [] = true
distinct (x ∷ xs) = not (contains xs x) && distinct xs

module _ (uuid_number : String → ℕ) where
  abbrev pub read_subject : Json → Option ℕ
  read_subject (text s) = if is_uuid s then some (uuid_number s) else none
  read_subject _ = none

  abbrev pub read_elems : Elems → Result QueryError (List ℕ)
  read_elems nil = ok []
  read_elems (cons value rest) = do
    sub ← or_fail (read_subject value) invalid_subjects
    others ← read_elems rest
    ok (sub ∷ others)

  unfoldable pub read_subjects : Option Json → Result QueryError (List ℕ)
  read_subjects (some (array elems)) = do
    subjects ← read_elems elems
    fail_if
        (not (leb 1 (length subjects) && leb (length subjects) max_subjects && distinct subjects))
        invalid_subjects
    ok subjects
  read_subjects _ = err invalid_subjects

-- The states are those of the subjects, in their order.
abbrev pub same_subjects : List AccessState → List ℕ → Bool
same_subjects [] [] = true
same_subjects (state ∷ states) (sub ∷ subjects) = state.sub == sub && same_subjects states subjects
same_subjects [] (sub ∷ subjects) = false
same_subjects (state ∷ states) [] = false

-- All states are managed, with an authority, or none is, without one.
abbrev pub is_uniform : List AccessState → Option (ℕ × ℕ) → Bool
is_uniform states authority =
    let managed = any (λ (state : AccessState). state.catalog_synced) states in
    not (any (λ (state : AccessState). not (state.catalog_synced == managed)) states)
    && is_some authority == managed

-- The read, the tests of its shape, and the answer.
unfoldable pub answer_query : Store → String → String → List ℕ → Result QueryError Answer
answer_query db client request_id subjects = do
  snapshot ← or_fail (read_access_state_snapshot db client subjects) unavailable
  fail_if (not (same_subjects snapshot.0 subjects)) unavailable
  fail_if (not (is_uniform snapshot.0 snapshot.1)) unavailable
  ok (record {
    client_id = client;
    request_id = request_id;
    authority = snapshot.1;
    subjects = snapshot.0;
  })

-- A throw of the resolver and an unreachable key set are 503, a missing key and a bad token 401.
abbrev pub payload_from : KeySetup → Verified → Result QueryError Fields
payload_from misconfigured verified = err unavailable
payload_from no_keys verified = err invalid_signature
payload_from has_keys (payload_is fs) = ok fs
payload_from has_keys rejected = err invalid_signature
payload_from has_keys keys_unreachable = err unavailable

module _ (uuid_number : String → ℕ) (audience : String) (decode_issuer : List ℕ → Option String)
    (key_setup : String → KeySetup) (verify : String → ℕ → List ℕ → Verified) where
  -- The issuer that an unverified token names.
  abbrev pub claimed_issuer : List ℕ → Result QueryError String
  claimed_issuer token = do
    issuer ← or_fail (decode_issuer token) invalid_signature
    fail_if (issuer == "" || ltb 200 (utf16_length issuer)) invalid_signature
    ok issuer

  abbrev pub verified_payload : String → ℕ → List ℕ → Result QueryError Fields
  verified_payload client now token = payload_from (key_setup client) (verify client now token)

  unfoldable pub access_query : ℕ → Store → Request → Result QueryError Answer
  access_query now db request = do
    fail_if (not (request.method == "GET")) (record { status = 405; error = "method_not_allowed" })
    fail_if request.has_query (record { status = 400; error = "query_parameters_not_allowed" })
    token ← or_fail (bearer_token request.authorization) invalid_signature
    client ← claimed_issuer token
    fail_if (not (in_service db client)) (record { status = 401; error = "invalid_client" })
    payload ← verified_payload client now token
    fail_if (not (is_query audience payload)) invalid_signature
    request_id ← or_fail (request_id_of (get "jti" payload)) invalid_signature
    subjects ← read_subjects uuid_number (get "subjects" payload)
    answer_query db client request_id subjects
