-- ===== src/Pricing/Registry/Misses.antt =====
-- The bounded record of the names that no price was found for.
use cc_otel.Prelude.{
  ℕ, ◌+◌, ◌≤◌, ◌≡◌, ◌≢◌, refl, ◌∙◌, sym, inl, inr, true, false, ◌||◌, leb, leb→le, if◌then◌else◌,
  none, some, List, [], ◌∷◌, ◌++◌, length, length-append, Bool-cases, arith,
}
use cc_otel.Prelude.Text.{Text, text_eq, text_eq_iff}
use cc_otel.Prelude.Table.{Table, contains, lookup, erase, lookup-insert, lookup-erase}
use cc_otel.Pricing.Registry.{Registry, has, bump, oldest, all_but_oldest, miss_limit, record_miss}

abbrev pub Distinct : List Text → Type 0
Distinct [] = Unit
Distinct (k ∷ ks) = (contains k ks ≡ false) × Distinct ks

-- The order holds each counted name once, and at most 64 of them.
pub record Tracks (order : List Text) (counts : Table ℕ) : Type 0 where
  pub distinct : Distinct order
  pub counted : (k : Text) → has (lookup k counts) ≡ contains k order
  pub bounded : length order ≤ miss_limit

contains-snoc :
    (j k : Text) (ks : List Text) → contains j (ks ++ k ∷ []) ≡ (contains j ks || text_eq k j)
unfolding contains
contains-snoc j k [] = ground arith
contains-snoc j k (i ∷ ks) = ground (arith, contains-snoc j k ks)

Distinct-snoc :
    (k : Text) (ks : List Text) → Distinct ks → contains k ks ≡ false → Distinct (ks ++ k ∷ [])
unfolding contains
Distinct-snoc k [] d n = (refl, tt)
Distinct-snoc k (i ∷ ks) d n = (
  ground (arith, contains-snoc i k ks, d.0, text_eq_iff i k, text_eq_iff k i),
  Distinct-snoc k ks d.1 (ground arith),
)

lookup-bump :
    (k j : Text) (counts : Table ℕ)
    → lookup j (bump k counts) ≡ (
        if text_eq k j
        then some (elim (lookup k counts) [ none ↦ 1 | some n ↦ n + 1 ])
        else lookup j counts)
unfolding bump
lookup-bump k j counts =
    lookup-insert k j (elim (lookup k counts) [ none ↦ 1 | some n ↦ n + 1 ]) counts

has-bump :
    (k j : Text) (counts : Table ℕ)
    → has (lookup j (bump k counts)) ≡ (text_eq k j || has (lookup j counts))
unfolding bump
has-bump k j counts =
    ground (arith, lookup-insert k j (elim (lookup k counts) [ none ↦ 1 | some n ↦ n + 1 ]) counts)

track_known :
    (k : Text) (order : List Text) (counts : Table ℕ)
    → Tracks order counts
    → contains k order ≡ true
    → Tracks order (bump k counts)
track_known k order counts t m = record {
  distinct = t.distinct;
  counted = λ j. ground (arith, has-bump k j counts, t.counted j, text_eq_iff k j);
  bounded = t.bounded;
}

track_new :
    (k : Text) (order : List Text) (counts : Table ℕ)
    → Tracks order counts
    → contains k order ≡ false
    → length order + 1 ≤ miss_limit
    → Tracks (order ++ k ∷ []) (bump k counts)
track_new k order counts t m room = record {
  distinct = Distinct-snoc k order t.distinct m;
  counted = λ j. ground (arith, has-bump k j counts, t.counted j, contains-snoc j k order);
  bounded = omega (arith, length-append order (k ∷ []));
}

forget_oldest :
    (order : List Text) (counts : Table ℕ)
    → 0 ≢ length order
    → Tracks order counts
    → Tracks (all_but_oldest order) (erase (oldest order) counts)
unfolding contains
forget_oldest [] counts ne t = absurd (ne refl)
forget_oldest (o ∷ os) counts ne t = record {
  distinct = t.distinct.1;
  counted =
      λ j. ground (arith, lookup-erase o j counts, t.counted j, text_eq_iff o j, t.distinct.0);
  bounded = omega (arith, t.bounded);
}

fewer :
    (k : Text) (order : List Text)
    → contains k order ≡ false
    → contains k (all_but_oldest order) ≡ false
unfolding contains
fewer k [] h = h
fewer k (o ∷ os) h = ground arith

length-fewer :
    (order : List Text) → 0 ≢ length order → length (all_but_oldest order) + 1 ≡ length order
length-fewer [] h = absurd (h refl)
length-fewer (o ∷ os) h = omega arith

module _ {F : Type 0} where
  -- Recording a miss keeps the record: each name stands once in the order, the counts are of the
  -- names in the order, and there are at most 64.
  pub record_miss-Tracks :
      (model : Text) (r : Registry F)
      → Tracks r.miss_order r.miss_counts
      → Tracks (record_miss model r).miss_order (record_miss model r).miss_counts
  unfolding record_miss
  record_miss-Tracks model r t = elim (Bool-cases (has (lookup model r.miss_counts))) [
    | inl e ↦ rw e (track_known model r.miss_order r.miss_counts t (sym (t.counted model) ∙ e))
    | inr e ↦
        let new = sym (t.counted model) ∙ e in
        elim (Bool-cases (leb miss_limit (length r.miss_order))) [
          | inl full ↦
              let ne : 0 ≢ length r.miss_order = omega (arith, leb→le _ _ full) in
              rw (e, full)
                (track_new model (all_but_oldest r.miss_order)
                  (erase (oldest r.miss_order) r.miss_counts)
                  (forget_oldest r.miss_order r.miss_counts ne t) (fewer model r.miss_order new)
                  (omega (arith, length-fewer r.miss_order ne, t.bounded)))
          | inr room ↦
              rw (e, room) (track_new model r.miss_order r.miss_counts t new (ground arith))
        ]
  ]

  -- How often a name was missed, as far as the record goes.
  abbrev pub misses : Text → Registry F → ℕ
  misses k r = elim (lookup k r.miss_counts) [ none ↦ 0 | some n ↦ n ]

  -- Recording a miss adds one to the count of the name, and changes no other count but that of the
  -- oldest name where the name is new and the record is full, which then leaves the record.
  pub record_miss_counts :
      (model k : Text) (r : Registry F)
      → lookup k (record_miss model r).miss_counts ≡ (
          if text_eq model k
          then some (misses model r + 1)
          else if has (lookup model r.miss_counts)
          then lookup k r.miss_counts
          else if leb miss_limit (length r.miss_order)
          then (if text_eq (oldest r.miss_order) k then none else lookup k r.miss_counts)
          else lookup k r.miss_counts)
  unfolding record_miss
  record_miss_counts model k r = ground (
    arith,
    lookup-bump model k r.miss_counts,
    lookup-bump model k (erase (oldest r.miss_order) r.miss_counts),
    lookup-erase (oldest r.miss_order) k r.miss_counts,
    lookup-erase (oldest r.miss_order) model r.miss_counts,
  )
