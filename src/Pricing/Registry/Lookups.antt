-- ===== src/Pricing/Registry/Lookups.antt =====
-- What Lookup answers on an indexed registry.
use cc_otel.Prelude.{
  ◌≡◌, ◌≢◌, refl, ◌∙◌, sym, inl, inr, true, false, none, some, List, [], ◌∷◌, Bool-cases,
  Option-cases, arith,
}
use mathlib.Core.Path.{subst}
use mathlib.Core.Bool.{false≢true}
use cc_otel.Prelude.Text.{Text, text_eq, text_eq_iff, contains_byte}
use cc_otel.Prelude.Table.{Table, contains, lookup}
use cc_otel.Pricing.Name.{normalize, strip_variants}
use cc_otel.Pricing.Name.Normal.{normalize_idem}
use cc_otel.Pricing.Price.{Entry}
use cc_otel.Pricing.Match.{MatchKind, exact, alias, prefix, basename, miss, first_key, match_key}
use cc_otel.Pricing.Match.Resolution.{Resolves, match_key-Resolves}
use cc_otel.Pricing.Basename.{basename_candidates, pick_basename_winner}
use cc_otel.Pricing.Basename.Candidates.{basename_winner-Falls}
use cc_otel.Pricing.Registry.{
  Registry, is_miss, is_empty, resolve, key_source_rank, record_miss, not_found, answer,
  by_basename, find_key, lookup_model,
}
use cc_otel.Pricing.Registry.Index.{IsIndexed, Named-lookup}

first_variant :
    (q : Text) (ks : List Text) → contains q ks ≡ true → first_key (strip_variants q) ks ≡ some q
unfolding strip_variants first_key
first_variant q ks h = rw h

-- A key is matched exactly by its own name.
match_key_self :
    (q : Text) (ks : List Text) (index : Table Text)
    → normalize q ≡ q
    → text_eq q [] ≡ false
    → contains q ks ≡ true
    → match_key q ks index ≡ (q, exact)
unfolding match_key
match_key_self q ks index n ne h = rw (n, ne, first_variant q ks h)

provider_named :
    (q : Text) (ks : List Text)
    → contains_byte q b'/' ≡ true
    → is_empty (basename_candidates q ks) ≡ true
unfolding basename_candidates
provider_named q ks h = rw h

module _ {F : Type 0} where
  find_key_self :
      (r : Registry F) (q : Text)
      → normalize q ≡ q
      → text_eq q [] ≡ false
      → contains q r.key_set ≡ true
      → find_key r q ≡ (q, exact)
  unfolding find_key by_basename
  find_key_self r q n ne h = rw (match_key_self q r.key_set r.alias_index n ne h)

  answer_found :
      (r : Registry F) (q k : Text) (kind : MatchKind) (e : Entry F)
      → is_miss kind ≡ false
      → resolve r k ≡ some e
      → answer r q (k, kind) ≡ (record { entry = some e; kind = kind; matched_key = k }, r)
  unfolding answer
  answer_found r q k kind e m h = rw (m, h)

  lookup_model_self :
      (model : Text) (r : Registry F) (e : Entry F)
      → normalize model ≢ []
      → contains (normalize model) r.key_set ≡ true
      → resolve r (normalize model) ≡ some e
      → lookup_model model r
        ≡ (record { entry = some e; kind = exact; matched_key = normalize model }, r)
  unfolding lookup_model
  lookup_model_self model r e ne m h =
      let q = normalize model in
      let nz : text_eq q [] ≡ false = ground (arith, text_eq_iff q []) in
      rw (nz, find_key_self r q (normalize_idem model) nz m) (answer_found r q q exact e refl h)

  -- A name that is a key of the user's layer is priced by the user's entry, with an exact match,
  -- whatever the table holds; the registry stays as it is.
  pub user_entry_wins :
      (model : Text) (r : Registry F) (e : Entry F)
      → IsIndexed r
      → normalize model ≢ []
      → lookup (normalize model) r.user_by_key ≡ some e
      → lookup_model model r
        ≡ (record { entry = some e; kind = exact; matched_key = normalize model }, r)
  user_entry_wins model r e v ne h =
      lookup_model_self model r e ne (v.keys_exact (normalize model) ∙ (rw h))
        (unfold resolve in ground arith)

  -- A name that is a key of the table and of no override is priced by its row, with an exact match.
  pub table_entry_found :
      (model : Text) (r : Registry F) (e : Entry F)
      → IsIndexed r
      → normalize model ≢ []
      → lookup (normalize model) r.user_by_key ≡ none
      → lookup (normalize model) r.table_by_key ≡ some e
      → lookup_model model r
        ≡ (record { entry = some e; kind = exact; matched_key = normalize model }, r)
  table_entry_found model r e v ne u h =
      lookup_model_self model r e ne (v.keys_exact (normalize model) ∙ (rw (u, h)))
        (unfold resolve in ground arith)

  -- A key has an entry.
  resolve-key :
      (r : Registry F) (k : Text)
      → IsIndexed r
      → contains k r.key_set ≡ true
      → (e : Entry F) × (resolve r k ≡ some e) × (e.model ≡ k)
  unfolding resolve
  resolve-key r k v m = elim (Option-cases (lookup k r.user_by_key)) [
    | inr (e, h) ↦ (e, ground arith, Named-lookup k e r.user_by_key v.named_user h)
    | inl n ↦ elim (Option-cases (lookup k r.table_by_key)) [
      | inr (e, h) ↦ (e, ground arith, Named-lookup k e r.table_by_key v.named_table h)
      | inl z ↦ absurd (false≢true (sym (v.keys_exact k ∙ (ground arith)) ∙ m))
    ]
  ]

  matched-known :
      (r : Registry F) (q : Text) (m : Text × MatchKind)
      → IsIndexed r
      → Resolves q r.key_set r.alias_index m
      → is_miss m.1 ≡ false
      → contains m.0 r.key_set ≡ true
  matched-known r q (k, exact) v s h = (s.when_exact refl).1
  matched-known r q (k, alias) v s h =
      let (n, (a, w, l)) = s.when_alias refl in v.aliases_known a k l
  matched-known r q (k, prefix) v s h = (s.when_prefix refl).2
  matched-known r q (k, basename) v s h = absurd (s.never_basename refl)
  matched-known r q (k, miss) v s h = cc

  winner-known :
      (r : Registry F) (q : Text) (m : Text × MatchKind) (cands : List Text)
      → basename_candidates q r.key_set ≡ cands
      → is_empty cands ≡ false
      → contains (pick_basename_winner cands (key_source_rank r)) r.key_set ≡ true
  winner-known r q m [] e h = cc
  winner-known r q m (d ∷ ds) e h = elim (Bool-cases (contains_byte q b'/')) [
    | inl slash ↦ absurd (false≢true (cc (e, provider_named q r.key_set slash)))
    | inr bare ↦
        rw (← e) (((basename_winner-Falls (key_source_rank r) q r.key_set bare).winner d ds e).0)
  ]

  by_basename-known :
      (r : Registry F) (q : Text) (m : Text × MatchKind)
      → IsIndexed r
      → Resolves q r.key_set r.alias_index m
      → is_miss (by_basename r q m).1 ≡ false
      → contains (by_basename r q m).0 r.key_set ≡ true
  unfolding by_basename
  by_basename-known r q m v s h = elim (Bool-cases (is_miss m.1)) [
    | inr e ↦ rw e (matched-known r q m v s e)
    | inl e ↦ elim (Bool-cases (is_empty (basename_candidates q r.key_set))) [
      | inl z ↦ absurd (false≢true (sym (rw (e, z) at h) ∙ e))
      | inr z ↦ rw (e, z) (winner-known r q m (basename_candidates q r.key_set) refl z)
    ]
  ]

  -- The key that find_key returns with any kind but a miss.
  find_key-known :
      (r : Registry F) (model : Text)
      → IsIndexed r
      → is_miss (find_key r (normalize model)).1 ≡ false
      → contains (find_key r (normalize model)).0 r.key_set ≡ true
  unfolding find_key
  find_key-known r model v h =
      by_basename-known r (normalize model) (match_key (normalize model) r.key_set r.alias_index) v
        (subst
          (λ q.
            Resolves q r.key_set r.alias_index
              (match_key (normalize model) r.key_set r.alias_index))
          (normalize_idem model) (match_key-Resolves (normalize model) r.key_set r.alias_index))
        h

  -- What Lookup answers to a name that is not empty.
  pub record Answers (model : Text) (r : Registry F) : Type 0 where
    pub found :
        is_miss (find_key r (normalize model)).1 ≡ false
        → (e : Entry F) × (lookup_model model r ≡ (
          record {
            entry = some e;
            kind = (find_key r (normalize model)).1;
            matched_key = (find_key r (normalize model)).0;
          },
          r,
        ))
          × (e.model ≡ (find_key r (normalize model)).0)
          × (resolve r e.model ≡ some e)
    pub missed :
        is_miss (find_key r (normalize model)).1 ≡ true
        → lookup_model model r ≡ (not_found, record_miss (normalize model) r)

  answers :
      (model : Text) (r : Registry F)
      → IsIndexed r
      → text_eq (normalize model) [] ≡ false
      → Answers model r
  unfolding lookup_model
  answers model r v nz =
      let q = normalize model in
      let m = find_key r q in
      record {
        found = λ h.
            let (e, x, n) = resolve-key r m.0 v (find_key-known r model v h) in
            (e, rw nz (answer_found r q m.0 m.1 e h x), n, rw n x);
        missed = λ h. rw nz (unfold answer in rw h);
      }

  -- Lookup finds an entry exactly when a key matches: no match dangles. The entry stands under the
  -- key that is reported, and then the registry stays as it is; otherwise the answer is a miss,
  -- and nothing but the record of misses changes.
  pub lookup_model-Answers :
      (model : Text) (r : Registry F) → IsIndexed r → normalize model ≢ [] → Answers model r
  lookup_model-Answers model r v ne =
      answers model r v (ground (arith, text_eq_iff (normalize model) []))
