-- ===== src/Receiver/Codex/Tracker/Lookups.antt =====
-- Which request a later record completes.
use mathlib.Core.Bool.{false≢true}
use mathlib.Core.Option.{some-injective}
use cc_otel.Tokens.{InRange, sub64_exact}
use cc_otel.Prelude.{
  not, ◌||◌, ◌&&◌, refl, ap, ◌∙◌, Bool, true, false, Option, none, some, [], ◌∷◌, ◌≡◌, arith, ◌⊎◌,
  inl, inr, Bool-cases, Option-cases, if◌then◌else◌, subst, sym,
}
use cc_otel.Prelude.Int.{ℤ, pos, ltb_ℤ, ◌≤ℤ◌, ◌-ℤ◌}
use cc_otel.Prelude.Text.{Text, text_eq, text_eq_iff}
use cc_otel.Prelude.Table.{Table, lookup}
use cc_otel.Receiver.Attrs.{is_set}
use cc_otel.Receiver.Codex.Tracker.{
  SpanInfo, CodexTracker, no_span, is_better, eligible, newest, newest_request, exact_request,
  lookup_request,
}

-- No entry passes the test.
unfoldable pub AllRefused : (SpanInfo → Bool) → Table SpanInfo → Type 0
AllRefused ok [] = Unit
AllRefused ok ((k, i) ∷ m) = (ok i ≡ false) × AllRefused ok m

-- Every entry that passes the test started at `start` or before.
unfoldable pub NoneNewer : (SpanInfo → Bool) → ℤ → Table SpanInfo → Type 0
NoneNewer ok start [] = Unit
NoneNewer ok start ((k, i) ∷ m) = (ok i ≡ true → i.start_nanos ≤ℤ start) × NoneNewer ok start m

-- The keys are span ids and numbers of requests, and so are not empty.
unfoldable pub AllKeyed : Table SpanInfo → Type 0
AllKeyed [] = Unit
AllKeyed ((k, i) ∷ m) = (is_set k ≡ true) × AllKeyed m

newest_unset :
    (ok : SpanInfo → Bool) (m : Table SpanInfo) (b : Text × SpanInfo)
    → AllKeyed m
    → is_set (newest ok m b).0 ≡ false
    → (is_set b.0 ≡ false) × AllRefused ok m
unfolding newest AllRefused AllKeyed is_better
newest_unset ok [] b keyed h = (h, tt)
newest_unset ok ((k, i) ∷ m) b keyed h = elim (Bool-cases (is_better ok b i)) [
  | inl e ↦
      let h' = subst (λ c. is_set (newest ok m (if c then (k, i) else b)).0 ≡ false) e h in
      cc (keyed.0, (newest_unset ok m (k, i) keyed.1 h').0)
  | inr e ↦
      let h' = subst (λ c. is_set (newest ok m (if c then (k, i) else b)).0 ≡ false) e h in
      let (unset, refused) = newest_unset ok m b keyed.1 h' in
      (unset, (ground (arith, unset, e), refused))
]

better_passes :
    (ok : SpanInfo → Bool) (b : Text × SpanInfo) (i : SpanInfo)
    → is_better ok b i ≡ true
    → (ok i ≡ true) × (is_set b.0 ≡ true → b.1.start_nanos ≤ℤ i.start_nanos)
unfolding is_better
better_passes ok b i h = (ground (arith, h), λ s. ground (arith, h))

not_better :
    (ok : SpanInfo → Bool) (b : Text × SpanInfo) (i : SpanInfo)
    → is_better ok b i ≡ false
    → ok i ≡ true
    → (is_set b.0 ≡ true) × (i.start_nanos ≤ℤ b.1.start_nanos)
unfolding is_better
not_better ok b i h p = ground (arith, h)

newest_passes :
    (ok : SpanInfo → Bool) (m : Table SpanInfo) (b : Text × SpanInfo)
    → (is_set b.0 ≡ true → ok b.1 ≡ true)
    → is_set (newest ok m b).0 ≡ true
    → ok (newest ok m b).1 ≡ true
unfolding newest
newest_passes ok [] b h = h
newest_passes ok ((k, i) ∷ m) b h = elim (Bool-cases (is_better ok b i)) [
  | inl e ↦ rw (newest, e) (newest_passes ok m (k, i) (λ _. (better_passes ok b i e).0))
  | inr e ↦ rw (newest, e) (newest_passes ok m b h)
]

-- The entry `r` is no older than the best one so far, nor than any that passes.
abbrev Bounds : (SpanInfo → Bool) → Table SpanInfo → Text × SpanInfo → SpanInfo → Type 0
Bounds ok m b r =
    (is_set b.0 ≡ true → b.1.start_nanos ≤ℤ r.start_nanos) × NoneNewer ok r.start_nanos m

newest_bound :
    (ok : SpanInfo → Bool) (m : Table SpanInfo) (b : Text × SpanInfo)
    → AllKeyed m
    → Bounds ok m b (newest ok m b).1
unfolding newest NoneNewer AllKeyed
newest_bound ok [] b keyed = (λ _. omega arith, tt)
newest_bound ok ((k, i) ∷ m) b keyed = elim (Bool-cases (is_better ok b i)) [
  | inl e ↦
      let (up, rest) = newest_bound ok m (k, i) keyed.1 in
      let le = up keyed.0 in
      subst (λ c. Bounds ok ((k, i) ∷ m) b (newest ok m (if c then (k, i) else b)).1) (sym e)
        (λ s. let ge = (better_passes ok b i e).1 s in omega (arith, le, ge), (λ _. le, rest))
  | inr e ↦
      let (up, rest) = newest_bound ok m b keyed.1 in
      subst (λ c. Bounds ok ((k, i) ∷ m) b (newest ok m (if c then (k, i) else b)).1) (sym e)
        (
          up,
          (
            λ p. let (set, ge) = not_better ok b i e p in let le = up set in omega (arith, le, ge),
            rest,
          ),
        )
]

-- What makes an entry one that a record of this session and model may complete: it has a start, not
-- after the record was observed and at most `max_age` before, and its session and model are the
-- record's, where the record names them.
pub record MayComplete (session_id model : Text) (observed max_age : ℤ) (i : SpanInfo)
    : Type 0 where
  pub started : pos 1 ≤ℤ i.start_nanos
  pub not_later : i.start_nanos ≤ℤ observed
  pub recent : observed -ℤ max_age ≤ℤ i.start_nanos
  pub same_session : (session_id ≡ []) ⊎ (i.session_id ≡ session_id)
  pub same_model : (model ≡ []) ⊎ (i.model ≡ model)

unset_or_same : (s t : Text) → (not (is_set s) || text_eq t s) ≡ true → (s ≡ []) ⊎ (t ≡ s)
unset_or_same [] t h = inl refl
unset_or_same (c ∷ s) t h = inr ((text_eq_iff t (c ∷ s)).0 h)

same_or_unset : (s t : Text) → (s ≡ []) ⊎ (t ≡ s) → (not (is_set s) || text_eq t s) ≡ true
same_or_unset [] t h = refl
same_or_unset (c ∷ s) t (inl e) = cc e
same_or_unset (c ∷ s) t (inr e) = (text_eq_iff t (c ∷ s)).1 e

module _ (session_id model : Text) (observed max_age : ℤ) (r : InRange (observed -ℤ max_age)) where
  eligible-MayComplete :
      (i : SpanInfo)
      → eligible session_id model observed max_age i ≡ true
      → MayComplete session_id model observed max_age i
  unfolding eligible
  eligible-MayComplete i h =
      let h' =
        subst
          (λ e.
            (ltb_ℤ (pos 0) i.start_nanos
              && not (ltb_ℤ observed i.start_nanos)
              && not (ltb_ℤ i.start_nanos e)
              && (not (is_set session_id) || text_eq i.session_id session_id)
              && (not (is_set model) || text_eq i.model model))
            ≡ true)
          (sub64_exact observed max_age r) h in
      record {
        started = ground arith;
        not_later = ground arith;
        recent = ground arith;
        same_session = unset_or_same session_id i.session_id (ground arith);
        same_model = unset_or_same model i.model (ground arith);
      }

  MayComplete-eligible :
      (i : SpanInfo)
      → MayComplete session_id model observed max_age i
      → eligible session_id model observed max_age i ≡ true
  unfolding eligible
  MayComplete-eligible i m =
      let a = m.started in
      let b = m.not_later in
      let c = m.recent in
      let s = same_or_unset session_id i.session_id m.same_session in
      let t = same_or_unset model i.model m.same_model in
      rw (sub64_exact observed max_age r) (ground (arith, a, b, c, s, t))

-- An entry of the map.
unfoldable pub Listed : Text × SpanInfo → Table SpanInfo → Type 0
Listed e [] = ⊥
Listed e (x ∷ m) = (x ≡ e) ⊎ Listed e m

lookup-Listed :
    (k : Text) (i : SpanInfo) (m : Table SpanInfo) → lookup k m ≡ some i → Listed (k, i) m
unfolding lookup Listed
lookup-Listed k i [] h = cc
lookup-Listed k i ((j, x) ∷ m) h = elim (Bool-cases (text_eq j k)) [
  | inl e ↦
      let same : x ≡ i = some-injective _ _ (rw e at h) in inl (cc ((text_eq_iff j k).0 e, same))
  | inr e ↦ inr (lookup-Listed k i m (rw e at h))
]

-- An entry of the map, or the one that the search began with.
abbrev IsFrom : Text × SpanInfo → Table SpanInfo → Text × SpanInfo → Type 0
IsFrom b m r = (r ≡ b) ⊎ Listed r m

IsFrom-next : (b x r : Text × SpanInfo) (m : Table SpanInfo) → IsFrom b m r → IsFrom b (x ∷ m) r
unfolding Listed
IsFrom-next b x r m (inl e) = inl e
IsFrom-next b x r m (inr l) = inr (inr l)

IsFrom-here : (b x r : Text × SpanInfo) (m : Table SpanInfo) → IsFrom x m r → IsFrom b (x ∷ m) r
unfolding Listed
IsFrom-here b x r m (inl e) = inr (inl (sym e))
IsFrom-here b x r m (inr l) = inr (inr l)

newest-Listed :
    (ok : SpanInfo → Bool) (m : Table SpanInfo) (b : Text × SpanInfo) → IsFrom b m (newest ok m b)
unfolding newest
newest-Listed ok [] b = inl refl
newest-Listed ok ((k, i) ∷ m) b = elim (Bool-cases (is_better ok b i)) [
  | inl e ↦
      subst (λ c. IsFrom b ((k, i) ∷ m) (newest ok m (if c then (k, i) else b))) (sym e)
        (IsFrom-here b (k, i) _ m (newest-Listed ok m (k, i)))
  | inr e ↦
      subst (λ c. IsFrom b ((k, i) ∷ m) (newest ok m (if c then (k, i) else b))) (sym e)
        (IsFrom-next b (k, i) _ m (newest-Listed ok m b))
]

refused-Listed :
    (ok : SpanInfo → Bool) (m : Table SpanInfo) (k : Text) (i : SpanInfo)
    → AllRefused ok m
    → Listed (k, i) m
    → ok i ≡ false
unfolding AllRefused Listed
refused-Listed ok [] k i none_so x = elim x [ ]
refused-Listed ok ((l, j) ∷ m) k i (none_so, rest) (inl e) = sym (ap (λ x. ok x.1) e) ∙ none_so
refused-Listed ok ((l, j) ∷ m) k i (none_so, rest) (inr x) = refused-Listed ok m k i rest x

newer-Listed :
    (ok : SpanInfo → Bool) (start : ℤ) (m : Table SpanInfo) (k : Text) (i : SpanInfo)
    → NoneNewer ok start m
    → Listed (k, i) m
    → ok i ≡ true
    → i.start_nanos ≤ℤ start
unfolding NoneNewer Listed
newer-Listed ok start [] k i none_so x h = elim x [ ]
newer-Listed ok start ((l, j) ∷ m) k i (none_so, rest) (inl e) h =
    subst (λ x. x.1.start_nanos ≤ℤ start) e (none_so (ap (λ x. ok x.1) e ∙ h))
newer-Listed ok start ((l, j) ∷ m) k i (none_so, rest) (inr x) h =
    newer-Listed ok start m k i rest x h

-- The entry of the record's own span, if it may be completed.
abbrev pub IsOwn : (SpanInfo → Type 0) → Text → Table SpanInfo → SpanInfo → Type 0
IsOwn may span_id m j = (is_set span_id ≡ true) × (lookup span_id m ≡ some j) × may j

-- What a lookup answers among the entries that may be completed: nothing if there is none, or the
-- one of the record's own span, or, if there is no such entry, one that started no earlier than any.
unfoldable pub Answers :
    (SpanInfo → Type 0) → Text → Table SpanInfo → Option (Text × SpanInfo) → Type 0
Answers may span_id m none = (k : Text) (i : SpanInfo) → Listed (k, i) m → may i → ⊥
Answers may span_id m (some (k, i)) =
    Listed (k, i) m
    × may i
    × ((j : SpanInfo) → IsOwn may span_id m j → (k ≡ span_id) × (i ≡ j))
    × (((j : SpanInfo) → IsOwn may span_id m j → ⊥)
        → (l : Text) (j : SpanInfo) → Listed (l, j) m
        → may j
        → j.start_nanos ≤ℤ i.start_nanos)

module _ (ok : SpanInfo → Bool) (may : SpanInfo → Type 0) (span_id : Text) (m : Table SpanInfo)
    (sound : (i : SpanInfo) → ok i ≡ true → may i)
    (full : (i : SpanInfo) → may i → ok i ≡ true) where
  no_own : exact_request ok span_id m ≡ none → (j : SpanInfo) → IsOwn may span_id m j → ⊥
  unfolding exact_request
  no_own e j (set, found, can) = cc (e, set, found, full j can)

  found_own :
      (k : Text) (i : SpanInfo)
      → exact_request ok span_id m ≡ some (k, i)
      → (k ≡ span_id) × (is_set span_id ≡ true) × (lookup span_id m ≡ some i) × (ok i ≡ true)
  unfolding exact_request
  found_own k i h = elim (Bool-cases (is_set span_id)) [
    | inr s ↦ cc (h, s)
    | inl s ↦ elim (Option-cases (lookup span_id m)) [
      | inl e ↦ cc (h, s, e)
      | inr (j, e) ↦ elim (Bool-cases (ok j)) [
        | inl p ↦ (cc (h, s, e, p), s, cc (h, s, e, p), cc (h, s, e, p))
        | inr p ↦ cc (h, s, e, p)
      ]
    ]
  ]

  exact-Answers :
      (k : Text) (i : SpanInfo)
      → exact_request ok span_id m ≡ some (k, i)
      → Answers may span_id m (some (k, i))
  unfolding Answers
  exact-Answers k i h =
      let (same, set, found, passes) = found_own k i h in
      let can = sound i passes in
      (
        subst (λ x. Listed (x, i) m) (sym same) (lookup-Listed span_id i m found),
        can,
        λ j (s, f, c). (same, some-injective _ _ (sym found ∙ f)),
        λ none_so l j x c. absurd (none_so i (set, found, can)),
      )

  newest-Answers :
      AllKeyed m → exact_request ok span_id m ≡ none → Answers may span_id m (newest_request ok m)
  unfolding Answers newest_request
  newest-Answers keyed e = elim (Bool-cases (is_set (newest ok m ([], no_span)).0)) [
    | inl s ↦ rw s (
      elim (newest-Listed ok m ([], no_span)) [ inl same ↦ absurd (cc (s, same)) | inr x ↦ x ],
      sound _ (newest_passes ok m ([], no_span) (λ h. cc) s),
      λ j own. absurd (no_own e j own),
      λ none_so l j x c.
          newer-Listed ok _ m l j (newest_bound ok m ([], no_span) keyed).1 x (full j c),
    )
    | inr s ↦ rw s (λ k i x c.
        false≢true
          (sym (refused-Listed ok m k i (newest_unset ok m ([], no_span) keyed s).1 x) ∙ full i c))
  ]

-- A lookup at a positive time answers with the entry of the record's own span if it may be completed,
-- or else with a newest one of the entries that may be, and with nothing only if no entry may be
-- completed. The keys are not empty and the oldest time allowed is in the range of int64.
pub lookup_request-Answers :
    (span_id session_id model : Text) (observed max_age : ℤ) (t : CodexTracker)
    → AllKeyed t.spans
    → ltb_ℤ (pos 0) observed ≡ true
    → InRange (observed -ℤ max_age)
    → Answers
        (MayComplete session_id model observed max_age)
        span_id
        t.spans
        (lookup_request span_id session_id model observed max_age t)
unfolding lookup_request
lookup_request-Answers span_id session_id model observed max_age t keyed h r =
    let ok = eligible session_id model observed max_age in
    let may = MayComplete session_id model observed max_age in
    let sound = eligible-MayComplete session_id model observed max_age r in
    let full = MayComplete-eligible session_id model observed max_age r in
    elim (Option-cases (exact_request ok span_id t.spans)) [
      | inl e ↦ rw (h, e) (newest-Answers ok may span_id t.spans sound full keyed e)
      | inr ((k, i), e) ↦ rw (h, e) (exact-Answers ok may span_id t.spans sound full k i e)
    ]
