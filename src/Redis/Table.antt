-- ===== src/Redis/Table.antt =====
-- A table of values and the ends of their lives is a Redis.
use dreamsso.Common.{
  ℕ, ◌+◌, ◌*◌, ◌≤◌, String, true, Option, none, some, ◌≡◌, ◌==◌, is_some, ltb, if◌then◌else◌,
  string_eq, arith,
}
use dreamsso.Redis.{Redis}

pub record Entry (V : Type 0) : Type 0 where
  pub value : V
  pub until : Option ℕ

abbrev pub Entries : Type 0 → Type 0
Entries V = String → Option (Entry V)

abbrev pub live_at : {V : Type 0} → ℕ → Option (Entry V) → Option V
live_at t none = none
live_at t (some x) = elim x.until [
  | none ↦ some x.value
  | some u ↦ if ltb t u then some x.value else none
]

abbrev pub kept_until : {V : Type 0} → ℕ → Option (Entry V) → Option ℕ
kept_until now none = none
kept_until now (some x) = if is_some (live_at now (some x)) then x.until else none

abbrev pub put : {V : Type 0} → Entries V → String → Option (Entry V) → Entries V
put db key entry other = if key == other then entry else db other

pub live_keep :
    {V : Type 0} (now t : ℕ) (o : Option (Entry V)) (v : V)
    → now ≤ t
    → is_some (live_at now o) ≡ true
    → live_at t (some (record { value = v; until = kept_until now o }))
      ≡ (if is_some (live_at t o) then some v else none)
live_keep now t none v h k = ground arith
live_keep now t (some x) v h k = ground arith

pub live_new :
    {V : Type 0} (now t : ℕ) (o : Option (Entry V)) (v : V)
    → now ≤ t
    → live_at now o ≡ none
    → live_at t (some (record { value = v; until = kept_until now o })) ≡ some v
live_new now t none v h k = ground arith
live_new now t (some x) v h k = ground arith

pub live_earlier :
    {V : Type 0} (s t : ℕ) (o : Option (Entry V)) (v : V)
    → s ≤ t
    → live_at t o ≡ some v
    → live_at s o ≡ some v
live_earlier s t none v h k = ground arith
live_earlier s t (some x) v h k = ground arith

abbrev pub table : (V : Type 0) → Redis V
table V = record {
  Db = Entries V;
  get = λ db t key. live_at t (db key);
  set_ex =
      λ db now key v ttl. put db key (some (record { value = v; until = some (now + ttl * 1000) }));
  set_keep =
      λ db now key v. put db key (some (record { value = v; until = kept_until now (db key) }));
  del = λ db key. put db key none;
  get-set_ex = λ db now key v ttl t other h. ground arith;
  get-set_keep = λ db now key v t other h k. ground (arith, live_keep now t (db key) v h k);
  get-set_keep_new = λ db now key v t other h k. ground (arith, live_new now t (db key) v h k);
  get-del = λ db key t other. ground arith;
  get_earlier = λ db s t key v h k. live_earlier s t (db key) v h k;
}
