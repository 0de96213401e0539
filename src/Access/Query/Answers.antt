-- ===== src/Access/Query/Answers.antt =====
-- The signed read of src/backchannel/accessState.ts answers: its tests of the shape of what was read
-- pass for what src/backchannel/accessStateStore.ts reads.
use dreamsso.Common.{
  ℕ, String, Bool, true, false, not, ◌&&◌, ◌||◌, Option, some, List, [], ◌∷◌, ◌==◌, ◌≡◌, refl, sym,
  ap, ◌∙◌, subst, map, any, is_some, if◌then◌else◌, nat_eq, string_eq, bool_eq, beq_refl, arith,
  Option-cases, Bool-cases, inl, inr,
}
use dreamsso.Common.Result.{ok}
use dreamsso.Json.{Fields, get}
use dreamsso.Store.{Store}
use dreamsso.Access.{
  AccessState, AccessRow, access_row, access_rows, access_state, in_service, snapshot_of,
  first_authority, read_access_state_snapshot,
}
use dreamsso.Access.Snapshot.{snapshot_of-states}
use dreamsso.Access.Query.{
  Request, KeySetup, has_keys, Verified, payload_is, bearer_token, claimed_issuer, is_query,
  read_subjects, request_id_of, same_subjects, is_uniform, answer_query, access_query,
}
use dreamsso.Access.Query.Complete.{states_of_rows}

snapshot_of-authority :
    (rows : List AccessRow) (states : List AccessState) (authority : Option (ℕ × ℕ))
    → snapshot_of rows ≡ some (states, authority)
    → is_some authority ≡ any (λ (row : AccessRow). row.catalog_synced) rows
unfolding snapshot_of
snapshot_of-authority rows states authority read =
    elim (Bool-cases (any (λ (row : AccessRow). row.catalog_synced) rows)) [
      | inr free ↦ grind arith
      | inl synced ↦ elim (Option-cases (first_authority rows)) [
        | inl missing ↦ grind arith
        | inr (known, e) ↦ grind arith
      ]
    ]

module _ (db : Store) (client : String) where
  abbrev rows_of : List ℕ → List AccessRow
  rows_of subjects = map (access_row db client) subjects

  abbrev is_managed : Bool
  is_managed = is_some (db.app_role_catalogs client)

  rows_synced :
      (subjects : List ℕ)
      → (any (λ (row : AccessRow). row.catalog_synced) (rows_of subjects)
          ≡ any
              (λ (state : AccessState). state.catalog_synced)
              (map access_state (rows_of subjects)))
  unfolding access_state access_row
  rows_synced [] = refl
  rows_synced (sub ∷ subjects) = ap (λ b. is_managed || b) (rows_synced subjects)

  states_managed :
      (sub : ℕ) (subjects : List ℕ)
      → any
          (λ (state : AccessState). state.catalog_synced)
          (map access_state (rows_of (sub ∷ subjects)))
        ≡ is_managed
  unfolding access_state access_row
  states_managed sub [] = ground arith
  states_managed sub (next ∷ subjects) =
      ap (λ b. is_managed || b) (states_managed next subjects) ∙ ground arith

  none_differs :
      (subjects : List ℕ)
      → any
          (λ (state : AccessState). not (state.catalog_synced == is_managed))
          (map access_state (rows_of subjects))
        ≡ false
  unfolding access_state access_row
  none_differs [] = refl
  none_differs (sub ∷ subjects) = ground (arith, none_differs subjects)

  same_subjects_states :
      (subjects : List ℕ) → same_subjects (map access_state (rows_of subjects)) subjects ≡ true
  unfolding access_state access_row
  same_subjects_states [] = refl
  same_subjects_states (sub ∷ subjects) = ground (arith, same_subjects_states subjects)

  is_uniform_states :
      (subjects : List ℕ) (authority : Option (ℕ × ℕ))
      → is_some authority
        ≡ any (λ (state : AccessState). state.catalog_synced) (map access_state (rows_of subjects))
      → is_uniform (map access_state (rows_of subjects)) authority ≡ true
  is_uniform_states [] authority known = ap (λ b. b == false) known
  is_uniform_states (sub ∷ subjects) authority known =
      let managed = states_managed sub subjects in
      let states : List AccessState = map access_state (rows_of (sub ∷ subjects)) in
      subst
        (λ (b : Bool).
          (not (any (λ (state : AccessState). not (state.catalog_synced == b)) states)
            && is_some authority == b)
          ≡ true)
        (sym managed)
        (ap (λ d. not d && is_some authority == is_managed) (none_differs (sub ∷ subjects))
          ∙ ap (λ b. b == is_managed) (known ∙ managed)
          ∙ beq_refl is_managed)

  answer_query_available :
      (request_id : String) (subjects : List ℕ) (states : List AccessState)
      (authority : Option (ℕ × ℕ))
      → in_service db client ≡ true
      → read_access_state_snapshot db client subjects ≡ some (states, authority)
      → answer_query db client request_id subjects
        ≡ ok (record {
          client_id = client;
          request_id = request_id;
          authority = authority;
          subjects = map (λ sub. access_state (access_row db client sub)) subjects;
        })
  unfolding answer_query read_access_state_snapshot
  answer_query_available request_id subjects states authority serving read =
      let rows : access_rows db client subjects ≡ rows_of subjects =
        ap (λ (b : Bool). if b then rows_of subjects else []) serving in
      let listed : states ≡ map access_state (rows_of subjects) =
        snapshot_of-states (access_rows db client subjects) states authority read
        ∙ ap (map access_state) rows in
      let known : is_some authority
          ≡ any (λ (state : AccessState). state.catalog_synced)
              (map access_state (rows_of subjects)) =
        snapshot_of-authority (access_rows db client subjects) states authority read
        ∙ ap (any (λ (row : AccessRow). row.catalog_synced)) rows
        ∙ rows_synced subjects in
      let alike : same_subjects states subjects ≡ true =
        ap (λ found. same_subjects found subjects) listed ∙ same_subjects_states subjects in
      let uniform : is_uniform states authority ≡ true =
        ap (λ found. is_uniform found authority) listed
        ∙ is_uniform_states subjects authority known in
      let those : states ≡ map (λ sub. access_state (access_row db client sub)) subjects =
        listed ∙ states_of_rows db client subjects in
      ground (arith, alike, uniform, those)

module _ (uuid_number : String → ℕ) (audience : String) (decode_issuer : List ℕ → Option String)
    (key_setup : String → KeySetup) (verify : String → ℕ → List ℕ → Verified) where
  -- A GET without a query, whose token names a client in service, was verified with the client's keys
  -- and asks for subjects in the form required, is answered with their states whenever the snapshot can
  -- be read; the later tests of its shape refuse none.
  pub access_query_answers :
      (now : ℕ) (db : Store) (request : Request) (token : List ℕ) (client : String)
      (payload : Fields) (request_id : String) (subjects : List ℕ) (states : List AccessState)
      (authority : Option (ℕ × ℕ))
      → request.method ≡ "GET"
      → request.has_query ≡ false
      → bearer_token request.authorization ≡ some token
      → claimed_issuer uuid_number audience decode_issuer key_setup verify token ≡ ok client
      → in_service db client ≡ true
      → key_setup client ≡ has_keys
      → verify client now token ≡ payload_is payload
      → is_query audience payload ≡ true
      → request_id_of (get "jti" payload) ≡ some request_id
      → read_subjects uuid_number (get "subjects" payload) ≡ ok subjects
      → read_access_state_snapshot db client subjects ≡ some (states, authority)
      → access_query uuid_number audience decode_issuer key_setup verify now db request
        ≡ ok (record {
          client_id = client;
          request_id = request_id;
          authority = authority;
          subjects = map (λ sub. access_state (access_row db client sub)) subjects;
        })
  unfolding access_query
  access_query_answers now db request token client payload request_id subjects states authority
        get_only no_query presented named serving keyed authentic asked numbered listed read =
      let answered =
        answer_query_available db client request_id subjects states authority serving read in
      rw (get_only, no_query, presented, named, serving, keyed, authentic, asked, numbered, listed)
        answered
