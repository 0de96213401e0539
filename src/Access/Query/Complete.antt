-- ===== src/Access/Query/Complete.antt =====
-- What a completed answer of src/backchannel/accessState.ts holds.
use dreamsso.Common.{
  ℕ, ◌≤◌, String, Bool, true, false, not, ◌&&◌, Option, none, some, List, [], ◌∷◌, ◌==◌, ◌≡◌, refl,
  sym, ap, ◌∙◌, subst, map, length, leb, if◌then◌else◌, nat_eq, string_eq, arith, Bool-cases, inl,
  inr,
}
use dreamsso.Common.Result.{ok, ◌>>◌, fail_if, >>=-eq-ok, fail_if-ok, or_fail-ok, ok-injective}
use dreamsso.Json.{Json, null, boolean, number, fractional, text, array, object, Fields, get}
use dreamsso.Store.{Store}
use dreamsso.Access.{access_row, access_rows, access_state, in_service, read_access_state_snapshot}
use dreamsso.Access.Snapshot.{snapshot_of-states}
use dreamsso.Access.Query.{
  Request, KeySetup, has_keys, no_keys, misconfigured, Verified, payload_is, rejected,
  keys_unreachable, Answer, bearer_token, claimed_issuer, is_query, read_subjects, same_subjects,
  is_uniform, unavailable, answer_query, access_query, verified_payload, payload_from, max_subjects,
  distinct, invalid_signature, request_id_of, read_elems,
}

bounds_hold :
    (n : ℕ) (b : Bool)
    → not (leb 1 n && leb n max_subjects && b) ≡ false
    → ((1 ≤ n) × (n ≤ max_subjects)) × (b ≡ true)
bounds_hold n b h = elim (Bool-cases b) [
  | inr refused ↦ ground arith
  | inl holds ↦ ((ground arith, ground arith), holds)
]

subjects_bounds :
    (uuid_number : String → ℕ) (found : Option Json) (subjects : List ℕ)
    → read_subjects uuid_number found ≡ ok subjects
    → ((1 ≤ length subjects) × (length subjects ≤ max_subjects)) × (distinct subjects ≡ true)
unfolding read_subjects
subjects_bounds uuid_number (some (array elems)) subjects h =
    let (read, elems_read, h₁) = >>=-eq-ok (read_elems uuid_number elems) _ h in
    let (passed, h₂) = fail_if-ok _ _ _ h₁ in
    subst (λ (xs : List ℕ). ((1 ≤ length xs) × (length xs ≤ max_subjects)) × (distinct xs ≡ true))
      (ok-injective h₂) (bounds_hold (length read) (distinct read) passed)
subjects_bounds uuid_number none subjects h = cc
subjects_bounds uuid_number (some null) subjects h = cc
subjects_bounds uuid_number (some (boolean b)) subjects h = cc
subjects_bounds uuid_number (some (number z)) subjects h = cc
subjects_bounds uuid_number (some fractional) subjects h = cc
subjects_bounds uuid_number (some (text s)) subjects h = cc
subjects_bounds uuid_number (some (object fs)) subjects h = cc

payload_from-ok :
    (setup : KeySetup) (verified : Verified) (payload : Fields)
    → payload_from setup verified ≡ ok payload
    → verified ≡ payload_is payload
payload_from-ok misconfigured verified payload h = cc
payload_from-ok no_keys verified payload h = cc
payload_from-ok has_keys (payload_is fs) payload h = ap payload_is (ok-injective h)
payload_from-ok has_keys rejected payload h = cc
payload_from-ok has_keys keys_unreachable payload h = cc

pub states_of_rows :
    (db : Store) (client : String) (subjects : List ℕ)
    → map access_state (map (access_row db client) subjects)
      ≡ map (λ sub. access_state (access_row db client sub)) subjects
states_of_rows db client [] = refl
states_of_rows db client (sub ∷ subjects) =
    ap (λ states. access_state (access_row db client sub) ∷ states)
      (states_of_rows db client subjects)

answer_query-states :
    (db : Store) (client request_id : String) (subjects : List ℕ) (answer : Answer)
    → answer_query db client request_id subjects ≡ ok answer
    → in_service db client ≡ true
    → (client ≡ answer.client_id)
      × (answer.subjects ≡ map (λ sub. access_state (access_row db client sub)) subjects)
unfolding answer_query read_access_state_snapshot
answer_query-states db client request_id subjects answer h serving =
    let (snapshot, read, h₁) = or_fail-ok (read_access_state_snapshot db client subjects) _ _ h in
    let made : Answer = record {
      client_id = client;
      request_id = request_id;
      authority = snapshot.1;
      subjects = snapshot.0;
    } in
    let (shape, h₂) =
      fail_if-ok (not (same_subjects snapshot.0 subjects)) unavailable
        (fail_if (not (is_uniform snapshot.0 snapshot.1)) unavailable >> ok made) h₁ in
    let (uniform, h₃) =
      fail_if-ok (not (is_uniform snapshot.0 snapshot.1)) unavailable (ok made) h₂ in
    let given = ok-injective {a = made} h₃ in
    let listed = snapshot_of-states (access_rows db client subjects) snapshot.0 snapshot.1 read in
    (
      ap (λ (a : Answer). a.client_id) given,
      sym (ap (λ (a : Answer). a.subjects) given)
          ∙ listed
          ∙ ap
              (λ (b : Bool).
                map access_state (if b then map (access_row db client) subjects else []))
              serving
          ∙ states_of_rows db client subjects,
    )

not_test-false : (b : Bool) → not b ≡ false → b ≡ true
not_test-false true h = refl
not_test-false false h = sym h

module _ (uuid_number : String → ℕ) (audience : String) (decode_issuer : List ℕ → Option String)
    (key_setup : String → KeySetup) (verify : String → ℕ → List ℕ → Verified) where
  -- A token of this client was verified and asks for this; the answer has one state for each subject,
  -- in the order asked, and each is that of the client's row.
  pub record IsComplete (now : ℕ) (db : Store) (request : Request) (answer : Answer) : Type 0 where
    pub token : List ℕ
    pub payload : Fields
    pub subjects : List ℕ
    pub presented : bearer_token request.authorization ≡ some token
    pub authentic : verify answer.client_id now token ≡ payload_is payload
    pub asked : is_query audience payload ≡ true
    pub serving : in_service db answer.client_id ≡ true
    pub listed : read_subjects uuid_number (get "subjects" payload) ≡ ok subjects
    pub many : (1 ≤ length subjects) × (length subjects ≤ max_subjects)
    pub apart : distinct subjects ≡ true
    pub states :
        answer.subjects ≡ map (λ sub. access_state (access_row db answer.client_id sub)) subjects

  -- An answer of 200 is complete.
  pub access_query-IsComplete :
      (now : ℕ) (db : Store) (request : Request) (answer : Answer)
      → access_query uuid_number audience decode_issuer key_setup verify now db request ≡ ok answer
      → IsComplete now db request answer
  unfolding access_query
  access_query-IsComplete now db request answer h =
      let (get_only, h₁) =
        fail_if-ok (not (request.method == "GET"))
          (record { status = 405; error = "method_not_allowed" }) _ h in
      let (no_query, h₂) =
        fail_if-ok request.has_query
          (record { status = 400; error = "query_parameters_not_allowed" }) _ h₁ in
      let (token, presented, h₃) =
        or_fail-ok (bearer_token request.authorization) invalid_signature _ h₂ in
      let (client, named, h₄) =
        >>=-eq-ok (claimed_issuer uuid_number audience decode_issuer key_setup verify token) _ h₃ in
      let (registered, h₅) =
        fail_if-ok (not (in_service db client)) (record { status = 401; error = "invalid_client" })
          _ h₄ in
      let (payload, checked, h₆) =
        >>=-eq-ok
          (verified_payload uuid_number audience decode_issuer key_setup verify client now token) _
          h₅ in
      let (asked, h₇) = fail_if-ok (not (is_query audience payload)) invalid_signature _ h₆ in
      let (request_id, numbered, h₈) =
        or_fail-ok (request_id_of (get "jti" payload)) invalid_signature _ h₇ in
      let (subjects, listed, h₉) =
        >>=-eq-ok (read_subjects uuid_number (get "subjects" payload)) _ h₈ in
      let serving = not_test-false _ registered in
      let (same, states) = answer_query-states db client request_id subjects answer h₉ serving in
      let (many, apart) = subjects_bounds uuid_number (get "subjects" payload) subjects listed in
      record {
        token = token;
        payload = payload;
        subjects = subjects;
        presented = presented;
        authentic =
            subst (λ (c : String). verify c now token ≡ payload_is payload) same
              (payload_from-ok (key_setup client) (verify client now token) payload checked);
        asked = not_test-false _ asked;
        serving = subst (λ (c : String). in_service db c ≡ true) same serving;
        listed = listed;
        many = many;
        apart = apart;
        states =
            subst
              (λ (c : String).
                answer.subjects ≡ map (λ sub. access_state (access_row db c sub)) subjects)
              same states;
      }
