-- ===== src/Pricing/Match/Resolution.antt =====
-- What each kind of match says of the key that is returned.
use cc_otel.Prelude.{
  ℕ, ◌≤◌, ◌≡◌, ◌≢◌, refl, ap, ◌∙◌, sym, ◌⊎◌, inl, inr, true, false, if◌then◌else◌, none, some, List,
  [], ◌∷◌, length, Bool-cases, Option-cases, arith,
}
use mathlib.Core.Bool.{false≢true}
use cc_otel.Prelude.Text.{Text, text_eq, text_eq_iff}
use cc_otel.Prelude.Table.{Table, contains, lookup}
use cc_otel.Pricing.Name.{normalize, strip_variants}
use cc_otel.Pricing.Match.{
  MatchKind, exact, alias, prefix, basename, miss, first_key, first_alias, longest_prefix,
  match_key,
}
use cc_otel.Pricing.Match.Prefixes.{
  Extends, SameKeys, qualifies, qualifies→Extends, Extends→qualifies, longest_prefix_from,
  longest_prefix_longest, longest_prefix_any_order,
}

-- None of the names is a key.
abbrev pub NoKey : List Text → List Text → Type 0
NoKey vs keys = (v : Text) → contains v vs ≡ true → contains v keys ≡ false

abbrev pub NoAlias : List Text → Table Text → Type 0
NoAlias vs index = (v : Text) → contains v vs ≡ true → lookup v index ≡ none

first_key_found :
    (vs keys : List Text) (k : Text)
    → first_key vs keys ≡ some k
    → (contains k vs ≡ true) × (contains k keys ≡ true)
unfolding first_key contains
first_key_found [] keys k h = cc
first_key_found (v ∷ vs) keys k h = ground (arith, first_key_found vs keys k, text_eq_iff v k)

first_key-none : (vs keys : List Text) → first_key vs keys ≡ none → NoKey vs keys
unfolding first_key contains
first_key-none [] keys h w m = cc
first_key-none (v ∷ vs) keys h w m =
    ground (arith, λ (e : first_key vs keys ≡ none). first_key-none vs keys e w, text_eq_iff v w)

first_alias_found :
    (vs : List Text) (index : Table Text) (k : Text)
    → first_alias vs index ≡ some k
    → (v : Text) × (contains v vs ≡ true) × (lookup v index ≡ some k)
unfolding first_alias contains
first_alias_found [] index k h = cc
first_alias_found (v ∷ vs) index k h = elim (Option-cases (lookup v index)) [
  | inl e ↦
      let (w, m, l) = first_alias_found vs index k (rw (e, first_alias) at h) in
      (w, ground arith, l)
  | inr (c, e) ↦ (v, ground (arith, text_eq_iff v v), ground arith)
]

first_alias-none :
    (vs : List Text) (index : Table Text) → first_alias vs index ≡ none → NoAlias vs index
unfolding first_alias contains
first_alias-none [] index h w m = cc
first_alias-none (v ∷ vs) index h w m =
    ground
      (arith, λ (e : first_alias vs index ≡ none). first_alias-none vs index e w, text_eq_iff v w)

length_zero : (k : Text) → length k ≤ 0 → k ≡ []
length_zero [] h = refl
length_zero (c ∷ k) h = absurd (omega arith)

-- What a result says of the query q, normalized, and of the registry.
pub record Resolves (q : Text) (keys : List Text) (index : Table Text) (r : Text × MatchKind)
    : Type 0 where
  pub when_exact :
      r.1 ≡ exact → (contains r.0 (strip_variants q) ≡ true) × (contains r.0 keys ≡ true)
  pub when_alias :
      r.1 ≡ alias
      → NoKey (strip_variants q) keys
        × ((v : Text) × ((v ≡ q) ⊎ (contains v (strip_variants q) ≡ true))
            × (lookup v index ≡ some r.0))
  pub when_prefix :
      r.1 ≡ prefix
      → NoKey (strip_variants q) keys
        × NoAlias (strip_variants q) index
        × (contains r.0 keys ≡ true)
        × Extends q r.0
        × ((k : Text) → contains k keys ≡ true → Extends q k → length k ≤ length r.0)
  pub when_miss :
      r.1 ≡ miss
      → (r.0 ≡ [])
        × ((q ≡ [])
            ⊎ (NoKey (strip_variants q) keys
                × NoAlias (strip_variants q) index
                × ((k : Text) → contains k keys ≡ true → ¬ Extends q k)))
  pub never_basename : r.1 ≢ basename

module _ (q : Text) (keys : List Text) (index : Table Text) where
  resolve_miss :
      (q ≡ [])
        ⊎ (NoKey (strip_variants q) keys
            × NoAlias (strip_variants q) index
            × ((k : Text) → contains k keys ≡ true → ¬ Extends q k))
      → Resolves q keys index ([], miss)
  resolve_miss h = record {
    when_exact = λ e. cc;
    when_alias = λ e. cc;
    when_prefix = λ e. cc;
    when_miss = λ e. (refl, h);
    never_basename = λ e. cc;
  }

  resolve_exact :
      (k : Text) → first_key (strip_variants q) keys ≡ some k → Resolves q keys index (k, exact)
  resolve_exact k h = record {
    when_exact = λ e. first_key_found (strip_variants q) keys k h;
    when_alias = λ e. cc;
    when_prefix = λ e. cc;
    when_miss = λ e. cc;
    never_basename = λ e. cc;
  }

  resolve_alias :
      (k v : Text)
      → NoKey (strip_variants q) keys
      → (v ≡ q) ⊎ (contains v (strip_variants q) ≡ true)
      → lookup v index ≡ some k
      → Resolves q keys index (k, alias)
  resolve_alias k v n w h = record {
    when_exact = λ e. cc;
    when_alias = λ e. (n, (v, w, h));
    when_prefix = λ e. cc;
    when_miss = λ e. cc;
    never_basename = λ e. cc;
  }

  resolve_last :
      NoKey (strip_variants q) keys
      → NoAlias (strip_variants q) index
      → Resolves q keys index (
          if text_eq (longest_prefix q [] keys) []
          then ([], miss)
          else (longest_prefix q [] keys, prefix))
  resolve_last n a = elim (Bool-cases (text_eq best [])) [
    | inl e ↦ rw e (
        resolve_miss (
          inr (
            n,
            a,
            λ k m x. empty_extends x (
                omega (
                  arith,
                  longest_prefix_longest q [] keys k m (Extends→qualifies q k x),
                  ap (length {A = ℕ}) ((text_eq_iff best []).0 e),
                )),
          )))
    | inr e ↦ rw e (found (longest_prefix_from q [] keys) e)
  ]
    where
      best : Text
      best = longest_prefix q [] keys

      empty_extends : {k : Text} → Extends q k → length k ≤ 0 → ⊥
      empty_extends {k} x h = x.not_empty (length_zero k h)

      found :
          (best ≡ []) ⊎ ((contains best keys ≡ true) × (qualifies q best ≡ true))
          → text_eq best [] ≡ false
          → Resolves q keys index (best, prefix)
      found (inl z) ne = absurd (false≢true (sym ne ∙ (text_eq_iff best []).1 z))
      found (inr (m, h)) ne = record {
        when_exact = λ e. cc;
        when_alias = λ e. cc;
        when_prefix = λ e. (
          n,
          a,
          m,
          qualifies→Extends q best h,
          λ k c x. longest_prefix_longest q [] keys k c (Extends→qualifies q k x),
        );
        when_miss = λ e. cc;
        never_basename = λ e. cc;
      }

resolve-match_key :
    (query : Text) (keys : List Text) (index : Table Text)
    → text_eq (normalize query) [] ≡ false
    → Resolves (normalize query) keys index (match_key query keys index)
unfolding match_key
resolve-match_key query keys index ne =
    elim (Option-cases (first_key (strip_variants (normalize query)) keys)) [
      | inr (v, e) ↦ rw (ne, e) (resolve_exact q keys index v e)
      | inl e ↦ elim (Option-cases (lookup (normalize query) index)) [
        | inr (v, a) ↦
            rw (ne, e, a)
              (resolve_alias q keys index v q (first_key-none (strip_variants q) keys e) (inl refl)
                a)
        | inl a ↦ elim (Option-cases (first_alias (strip_variants (normalize query)) index)) [
          | inr (v, b) ↦
              let (w, m, l) = first_alias_found (strip_variants q) index v b in
              rw (ne, e, a, b)
                (resolve_alias q keys index v w (first_key-none (strip_variants q) keys e) (inr m)
                  l)
          | inl b ↦
              rw (ne, e, a, b)
                (resolve_last q keys index (first_key-none (strip_variants q) keys e)
                  (first_alias-none (strip_variants q) index b))
        ]
      ]
    ]
  where
    q : Text
    q = normalize query

-- What matchKey returns, whatever the query and the registry. A match called exact is a key and the
-- query or a stripped variant of it. An alias match is the key of an alias, the query or a variant,
-- and no variant is a key. A prefix match is a key, and the longest one, which the query extends
-- behind a separator, and no variant is a key or an alias. A miss returns no key: the query is
-- empty, or no variant is a key or an alias and no key is extended. There is no basename match.
pub match_key-Resolves :
    (query : Text) (keys : List Text) (index : Table Text)
    → Resolves (normalize query) keys index (match_key query keys index)
match_key-Resolves query keys index = elim (Bool-cases (text_eq (normalize query) [])) [
  | inl e ↦
      unfold match_key in
      rw e
        (resolve_miss (normalize query) keys index (inl ((text_eq_iff (normalize query) []).0 e)))
  | inr e ↦ resolve-match_key query keys index e
]

first_key_any_order : (vs ks js : List Text) → SameKeys ks js → first_key vs ks ≡ first_key vs js
unfolding first_key
first_key_any_order [] ks js same = refl
first_key_any_order (v ∷ vs) ks js same = rw (same v, first_key_any_order vs ks js same)

-- Go visits a map in no fixed order: in every order of the same keys the result is the same.
pub match_key_any_order :
    (query : Text) (ks js : List Text) (index : Table Text)
    → SameKeys ks js
    → match_key query ks index ≡ match_key query js index
unfolding match_key
match_key_any_order query ks js index same = ground (
  arith,
  first_key_any_order (strip_variants (normalize query)) ks js same,
  longest_prefix_any_order (normalize query) ks js same,
)
