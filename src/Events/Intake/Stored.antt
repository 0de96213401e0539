-- ===== src/Events/Intake/Stored.antt =====
-- What src/events/outboxStore.ts promises of an enqueued event: it is stored as it was given, once.
use dreamsso.Common.{
  ℕ, String, Bool, true, ◌&&◌, get_or, Option, none, some, ◌≡◌, refl, sym, ap, subst, ◌∙◌, List, [],
  ◌∷◌, ◌++◌, ◌==◌, map, find?, All, arith, string_eq, nat_eq, list_eq, beq_refl, Option-cases,
  Bool-cases, inl, inr,
}
use text.Mathlib.TextEquality.{eq_iff}
use dreamsso.Common.Result.{ok, >>=-eq-ok, ok-injective, fail_if-ok, or_fail-ok}
use dreamsso.Json.{Json}
use dreamsso.Events.Outbox.{OutboxRow, Queue}
use dreamsso.Events.Intake.{
  OutboundEvent, WireEvent, NormalizedEvent, uuid_of, new_row, is_stored_as, insert_row,
  insert_rows, normalized_event, normalized_events, insert_events, parse_version, lock_if_any,
  lock_destination,
}

-- The row of an event's id passes the comparison of the stored fields.
IsKept : List OutboxRow → String → NormalizedEvent → Type 0
IsKept rows client e =
    (r : OutboxRow) × (find? (λ x. x.id == uuid_of e.wire.id) rows ≡ some r)
    × (is_stored_as client e r ≡ true)

find?-extend :
    (p : OutboxRow → Bool) (rows more : List OutboxRow) (r : OutboxRow)
    → find? p rows ≡ some r
    → find? p (rows ++ more) ≡ some r
find?-extend p [] more r h = ground arith
find?-extend p (x ∷ rows) more r h = ground (arith, find?-extend p rows more r)

find?-added :
    (p : OutboxRow → Bool) (rows : List OutboxRow) (r : OutboxRow)
    → find? p rows ≡ none
    → p r ≡ true
    → find? p (rows ++ r ∷ []) ≡ some r
find?-added p [] r h k = ground arith
find?-added p (x ∷ rows) r h k = ground (arith, find?-added p rows r)

-- An insertion appends: no stored row changes.
unfoldable pub Appends : List OutboxRow → List OutboxRow → Type 0
Appends rows rows' = (more : List OutboxRow) × (rows' ≡ rows ++ more)

append_nil : (rows : List OutboxRow) → rows ≡ rows ++ []
append_nil [] = refl
append_nil (r ∷ rows) = ap (λ x. r ∷ x) (append_nil rows)

append_assoc : (xs ys zs : List OutboxRow) → (xs ++ ys) ++ zs ≡ xs ++ (ys ++ zs)
append_assoc [] ys zs = refl
append_assoc (x ∷ xs) ys zs = ap (λ r. x ∷ r) (append_assoc xs ys zs)

new_row_id :
    (client : String) (e : NormalizedEvent) (now : ℕ)
    → ((new_row client e now).id == uuid_of e.wire.id) ≡ true
unfolding new_row
new_row_id client e now = beq_refl (uuid_of e.wire.id)

new_row_stored :
    (client : String) (e : NormalizedEvent) (now : ℕ)
    → is_stored_as client e (new_row client e now) ≡ true
unfolding is_stored_as new_row
new_row_stored client e now = ground (
  arith,
  beq_refl (uuid_of e.wire.id),
  beq_refl e.wire.type,
  beq_refl client,
  beq_refl e.wire.payload,
  beq_refl e.version,
)

pub Appends-trans : (xs ys zs : List OutboxRow) → Appends xs ys → Appends ys zs → Appends xs zs
unfolding Appends
Appends-trans xs ys zs (more, e) (tail, f) =
    (more ++ tail, f ∙ (ap (λ x. x ++ tail) e ∙ append_assoc xs more tail))

insert_row-Appends :
    (now : ℕ) (client : String) (rows : List OutboxRow) (e : NormalizedEvent)
    (rows' : List OutboxRow)
    → insert_row now client rows e ≡ ok rows'
    → Appends rows rows' × IsKept rows' client e
unfolding insert_row Appends IsKept is_stored_as
insert_row-Appends now client rows e rows' h =
    elim (Option-cases (find? (λ r. r.id == uuid_of e.wire.id) rows)) [
      | inl fresh ↦
          let run : insert_row now client rows e ≡ ok (rows ++ new_row client e now ∷ []) =
            ground arith in
          subst (λ x. Appends rows x × IsKept x client e) (ok-injective (sym run ∙ h))
            (
              (new_row client e now ∷ [], refl),
              (
                new_row client e now,
                find?-added (λ r. r.id == uuid_of e.wire.id) rows (new_row client e now) fresh
                    (new_row_id client e now),
                new_row_stored client e now,
              ),
            )
      | inr (r, found) ↦ elim (Bool-cases (is_stored_as client e r)) [
        | inr differs ↦ ground arith
        | inl alike ↦
            let run : insert_row now client rows e ≡ ok rows = ground arith in
            subst (λ x. Appends rows x × IsKept x client e) (ok-injective (sym run ∙ h))
              (([], append_nil rows), (r, found, alike))
      ]
    ]

IsKept-Appends :
    (rows rows' : List OutboxRow) (client : String) (e : NormalizedEvent)
    → Appends rows rows'
    → IsKept rows client e
    → IsKept rows' client e
unfolding Appends IsKept
IsKept-Appends rows rows' client e (more, same) (r, found, alike) = (
  r,
  subst (λ x. find? (λ y. y.id == uuid_of e.wire.id) x ≡ some r) (sym same)
      (find?-extend (λ y. y.id == uuid_of e.wire.id) rows more r found),
  alike,
)

insert_rows-Appends :
    (now : ℕ) (client : String) (rows : List OutboxRow) (es : List NormalizedEvent)
    (rows' : List OutboxRow)
    → insert_rows now client rows es ≡ ok rows'
    → Appends rows rows' × All (IsKept rows' client) es
unfolding insert_rows Appends
insert_rows-Appends now client rows [] rows' h = (([], sym (ok-injective h) ∙ append_nil rows), tt)
insert_rows-Appends now client rows (e ∷ es) rows' h =
    let (mid, first, h₁) = >>=-eq-ok (insert_row now client rows e) _ h in
    let (grown, stored) = insert_row-Appends now client rows e mid first in
    let (later, rest) = insert_rows-Appends now client mid es rows' h₁ in
    (
      Appends-trans rows mid rows' grown later,
      (IsKept-Appends mid rows' client e later stored, rest),
    )

insert_row_again :
    (now : ℕ) (client : String) (rows : List OutboxRow) (e : NormalizedEvent)
    → IsKept rows client e
    → insert_row now client rows e ≡ ok rows
unfolding insert_row IsKept
insert_row_again now client rows e (r, found, alike) = ground arith

insert_rows_again :
    (now : ℕ) (client : String) (rows : List OutboxRow) (es : List NormalizedEvent)
    → All (IsKept rows client) es
    → insert_rows now client rows es ≡ ok rows
unfolding insert_rows
insert_rows_again now client rows [] h = refl
insert_rows_again now client rows (e ∷ es) h =
    rw (insert_row_again now client rows e h.0) (insert_rows_again now client rows es h.1)

lock_if_any-rows :
    (now : ℕ) (q : Queue) (client : String) (es : List NormalizedEvent)
    → (lock_if_any now q client es).rows ≡ q.rows
unfolding lock_destination
lock_if_any-rows now q client [] = refl
lock_if_any-rows now q client (e ∷ es) = elim (Option-cases (q.destinations client)) [
  | inl missing ↦ ground arith
  | inr (d, found) ↦ ground arith
]

-- The row of an event holds what was given: the id, or the drawn one, the type, the client, the payload's
-- text and the version, 0 where there is none.
pub record IsStored (stringify : Json → Option String) (rows : List OutboxRow) (client : String)
    (given : OutboundEvent × String) : Type 0 where
  pub row : OutboxRow
  pub stored : find? (λ r. r.id == uuid_of (get_or given.0.id given.1)) rows ≡ some row
  pub same_id : row.id ≡ uuid_of (get_or given.0.id given.1)
  pub same_type : row.kind ≡ given.0.type
  pub same_client : row.target ≡ client
  pub same_payload : stringify given.0.payload ≡ some row.payload
  pub same_version : parse_version (get_or given.0.version "0") ≡ some row.version

five :
    (a b c d e : Bool)
    → (a && b && c && d && e) ≡ true
    → (a ≡ true) × (b ≡ true) × (c ≡ true) × (d ≡ true) × (e ≡ true)
five a b c d e h = (ground arith, ground arith, ground arith, ground arith, ground arith)

-- What an event becomes.
normalized_event-fields :
    (bytes : List WireEvent → ℕ) (stringify : Json → Option String) (event : OutboundEvent)
    (random : String) (e : NormalizedEvent)
    → normalized_event bytes stringify event random ≡ ok e
    → (e.wire.id ≡ get_or event.id random)
      × (e.wire.type ≡ event.type)
      × (stringify event.payload ≡ some e.wire.payload)
      × (parse_version (get_or event.version "0") ≡ some e.version)
unfolding normalized_event
normalized_event-fields bytes stringify event random e h =
    let (formed, h₁) = fail_if-ok _ _ _ h in
    let (version, read, h₂) = or_fail-ok (parse_version (get_or event.version "0")) _ _ h₁ in
    let (payload, written, h₃) = or_fail-ok (stringify event.payload) _ _ h₂ in
    let (small, h₄) = fail_if-ok _ _ _ h₃ in
    let made = ok-injective h₄ in
    (
      sym (ap (λ (n : NormalizedEvent). n.wire.id) made),
      sym (ap (λ (n : NormalizedEvent). n.wire.type) made),
      written ∙ ap (λ (n : NormalizedEvent). some n.wire.payload) made,
      read ∙ ap (λ (n : NormalizedEvent). some n.version) made,
    )

kept-IsStored :
    (bytes : List WireEvent → ℕ) (stringify : Json → Option String) (rows : List OutboxRow)
    (client : String) (event : OutboundEvent) (random : String) (e : NormalizedEvent)
    → normalized_event bytes stringify event random ≡ ok e
    → IsKept rows client e
    → IsStored stringify rows client (event, random)
unfolding IsKept is_stored_as
kept-IsStored bytes stringify rows client event random e read (r, found, alike) =
    let (id, type, payload, version) =
      normalized_event-fields bytes stringify event random e read in
    let tests =
      five (r.id == uuid_of e.wire.id) (r.kind == e.wire.type) (r.target == client)
        (r.payload == e.wire.payload) (r.version == e.version) alike in
    record {
      row = r;
      stored = subst (λ i. find? (λ x. x.id == uuid_of i) rows ≡ some r) id found;
      same_id = (list_eq.beq_iff r.id (uuid_of e.wire.id)).0 tests.0 ∙ ap uuid_of id;
      same_type = (eq_iff r.kind e.wire.type).0 tests.1 ∙ type;
      same_client = (eq_iff r.target client).0 tests.2;
      same_payload = payload ∙ ap some (sym ((eq_iff r.payload e.wire.payload).0 tests.3));
      same_version = version ∙ ap some (sym ((nat_eq.beq_iff r.version e.version).0 tests.4));
    }

all-IsStored :
    (bytes : List WireEvent → ℕ) (stringify : Json → Option String) (rows : List OutboxRow)
    (client : String) (events : List (OutboundEvent × String)) (es : List NormalizedEvent)
    → normalized_events bytes stringify events ≡ ok es
    → All (IsKept rows client) es
    → All (IsStored stringify rows client) events
      × (map (λ e. e.wire.id) es ≡ map (λ given. get_or given.0.id given.1) events)
unfolding normalized_events
all-IsStored bytes stringify rows client [] es h kept =
    (tt, ap (map (λ (e : NormalizedEvent). e.wire.id)) (sym (ok-injective h)))
all-IsStored bytes stringify rows client ((event, random) ∷ rest) es h kept =
    let (e, read, h₁) = >>=-eq-ok (normalized_event bytes stringify event random) _ h in
    let (others, later, h₂) = >>=-eq-ok (normalized_events bytes stringify rest) _ h₁ in
    let made = ok-injective h₂ in
    let both = subst (All (IsKept rows client)) (sym made) kept in
    let (stored, ids) = all-IsStored bytes stringify rows client rest others later both.1 in
    let id = (normalized_event-fields bytes stringify event random e read).0 in
    (
      (kept-IsStored bytes stringify rows client event random e read both.0, stored),
      ap (map (λ (x : NormalizedEvent). x.wire.id)) (sym made)
          ∙ ap (λ i. i ∷ map (λ (x : NormalizedEvent). x.wire.id) others) id
          ∙ ap (λ is. get_or event.id random ∷ is) ids,
    )

-- A successful enqueueing only appends rows. Afterwards every event of the call has a row under its id,
-- or the drawn one, with its type, its client, the text of its payload and its version; and the call
-- returns these ids in order.
pub insert_events-IsStored :
    (bytes : List WireEvent → ℕ) (stringify : Json → Option String) (now : ℕ) (q : Queue)
    (client : String) (events : List (OutboundEvent × String)) (q' : Queue) (ids : List String)
    → insert_events bytes stringify now q client events ≡ ok (q', ids)
    → Appends q.rows q'.rows
      × All (IsStored stringify q'.rows client) events
      × (ids ≡ map (λ given. get_or given.0.id given.1) events)
unfolding insert_events
insert_events-IsStored bytes stringify now q client events q' ids h =
    let (es, read, h₁) = >>=-eq-ok (normalized_events bytes stringify events) _ h in
    let (rows', run, h₂) =
      >>=-eq-ok (insert_rows now client (lock_if_any now q client es).rows es) _ h₁ in
    let done = ok-injective h₂ in
    let (grown, kept) = insert_rows-Appends now client q.rows es rows' (
      subst (λ r. insert_rows now client r es ≡ ok rows') (lock_if_any-rows now q client es) run) in
    let (stored, named) = all-IsStored bytes stringify rows' client events es read kept in
    (
      subst (λ r. Appends q.rows r) (ap (λ p. p.0.rows) done) grown,
      subst (λ r. All (IsStored stringify r client) events) (ap (λ p. p.0.rows) done) stored,
      ap (λ p. p.1) (sym done) ∙ named,
    )
