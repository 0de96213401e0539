-- ===== src/Access/Query/Tests.antt =====
-- One signed read over the store of Store.Sample.
use dreamsso.Common.{ℕ, String, false, some, List, [], ◌∷◌, ◌≡◌, refl, map, Option}
use dreamsso.Common.Int.{pos}
use dreamsso.Common.Result.{ok}
use dreamsso.Common.Text.{codes, utf16_length}
use dreamsso.Json.{text, number, array, nil, cons, Fields, end, field}
use dreamsso.Store.Sample.{sample}
use dreamsso.Events.Intake.{is_uuid, is_hex}
use dreamsso.Access.{access_row, access_state, read_access_state_snapshot, snapshot_of}
use dreamsso.Access.Query.{
  Request, KeySetup, has_keys, Verified, payload_is, Answer, bearer_token, is_query, read_subjects,
  answer_query, access_query,
}
use dreamsso.Access.Query.Answers.{access_query_answers}
use dreamsso.Access.Query.Complete.{IsComplete, access_query-IsComplete}

abbrev a_uuid : String
a_uuid = "01234567-89ab-cdef-0123-456789abcdef"

-- Every subject of the test is the administrator.
abbrev admin_number : String → ℕ
admin_number sub = 2

abbrev endpoint : String
endpoint = "https://sso.example/backchannel/access-state"

abbrev query_claims : Fields
query_claims = field "iat" (number (pos 100)) (
    field "exp" (number (pos 160)) (
      field "aud" (text endpoint) (
        field "method" (text "GET") (
          field "path" (text "/backchannel/access-state") (
            field "action" (text "access-state") (
              field "jti" (text a_uuid)
                (field "subjects" (array (cons (text a_uuid) nil)) end)))))))

abbrev issuer_of : List ℕ → Option String
issuer_of token = some "videosite"

abbrev keys_of : String → KeySetup
keys_of client = has_keys

abbrev verified : String → ℕ → List ℕ → Verified
verified client now token = payload_is query_claims

abbrev read_request : Request
read_request = record { method = "GET"; has_query = false; authorization = some "bearer a.B_-9" }

abbrev admin_answer : Answer
admin_answer = record {
  client_id = "videosite";
  request_id = a_uuid;
  authority = some (5, 3);
  subjects = access_state (access_row sample "videosite" 2) ∷ [];
}

query_runs :
    access_query admin_number endpoint issuer_of keys_of verified 130 sample read_request
    ≡ ok admin_answer
unfolding access_query answer_query read_subjects is_query bearer_token read_access_state_snapshot
    snapshot_of access_row access_state is_uuid is_hex utf16_length
query_runs = refl

access_query-IsComplete_example :
    IsComplete admin_number endpoint issuer_of keys_of verified 130 sample read_request admin_answer
access_query-IsComplete_example =
    access_query-IsComplete admin_number endpoint issuer_of keys_of verified 130 sample read_request
      admin_answer query_runs

access_query_answers_example :
    access_query admin_number endpoint issuer_of keys_of verified 130 sample read_request
    ≡ ok (record {
      client_id = "videosite";
      request_id = a_uuid;
      authority = some (5, 3);
      subjects = map (λ sub. access_state (access_row sample "videosite" sub)) (2 ∷ []);
    })
unfolding bearer_token is_query read_subjects read_access_state_snapshot snapshot_of access_row
    access_state is_uuid is_hex utf16_length
access_query_answers_example =
    access_query_answers admin_number endpoint issuer_of keys_of verified 130 sample read_request
      (codes "a.B_-9") "videosite" query_claims a_uuid (2 ∷ [])
      (access_state (access_row sample "videosite" 2) ∷ []) (some (5, 3)) refl refl refl refl refl
      refl refl refl refl refl refl
