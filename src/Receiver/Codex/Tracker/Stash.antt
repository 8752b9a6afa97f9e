-- ===== src/Receiver/Codex/Tracker/Stash.antt =====
-- The observations that wait for their row, and which of them a row receives.
use cc_otel.Prelude.{
  ℕ, Bool, true, false, not, ltb, ltb→lt, ◌≤◌, ◌&&◌, List, [], ◌∷◌, ◌+◌, ◌≡◌, ◌⊎◌, inl, inr,
  Bool-cases, subst, refl, arith, if◌then◌else◌,
}
use cc_otel.Prelude.Int.{ℤ, pos, pos_part, neg_part, ltb_ℤ, ◌≤ℤ◌, ◌+ℤ◌, int_laws}
use cc_otel.Tokens.{InRange, add64, wrap64_fit}
use cc_otel.Prelude.Text.{Text, text_eq_self}
use cc_otel.Prelude.Table.{lookup-insert, lookup-erase}
use cc_otel.Receiver.Codex.Tracker.{
  TurnTtftObs, CodexTracker, stashed, set_stash, belongs, belonging, left_over, insert_obs,
  sort_obs, drain_turn_ttft, drain_list, hour, turn_ttft_key,
}

-- How many observations pass a test.
unfoldable pub count_obs : (TurnTtftObs → Bool) → List TurnTtftObs → ℕ
count_obs p [] = 0
count_obs p (o ∷ os) = (if p o then 1 else 0) + count_obs p os

-- In the order of their times.
unfoldable pub Ascending : List TurnTtftObs → Type 0
Ascending [] = Unit
Ascending (o ∷ []) = Unit
Ascending (o ∷ p ∷ os) = (o.ts_unix_nano ≤ℤ p.ts_unix_nano) × Ascending (p ∷ os)

insert_obs-Ascending :
    (o : TurnTtftObs) (os : List TurnTtftObs) → Ascending os → Ascending (insert_obs o os)
unfolding insert_obs Ascending
insert_obs-Ascending o [] h = tt
insert_obs-Ascending o (p ∷ []) h = ground arith
insert_obs-Ascending o (p ∷ q ∷ os) h = ground (arith, insert_obs-Ascending o (q ∷ os) h.1)

sort_obs-Ascending : (os : List TurnTtftObs) → Ascending (sort_obs os)
unfolding sort_obs Ascending
sort_obs-Ascending [] = tt
sort_obs-Ascending (o ∷ os) = insert_obs-Ascending o (sort_obs os) (sort_obs-Ascending os)

count_obs-insert_obs :
    (p : TurnTtftObs → Bool) (o : TurnTtftObs) (os : List TurnTtftObs)
    → count_obs p (insert_obs o os) ≡ count_obs p (o ∷ os)
unfolding insert_obs count_obs
count_obs-insert_obs p o [] = refl
count_obs-insert_obs p o (q ∷ os) = ground (arith, count_obs-insert_obs p o os)

count_obs-sort_obs :
    (p : TurnTtftObs → Bool) (os : List TurnTtftObs) → count_obs p (sort_obs os) ≡ count_obs p os
unfolding sort_obs count_obs
count_obs-sort_obs p [] = refl
count_obs-sort_obs p (o ∷ os) =
    omega (arith, count_obs-insert_obs p o (sort_obs os), count_obs-sort_obs p os)

stashed-set_stash :
    (key : Text) (os : List TurnTtftObs) (t : CodexTracker) → stashed key (set_stash key os t) ≡ os
unfolding stashed set_stash
stashed-set_stash key [] t = rw (stashed, lookup-erase key key t.turn_ttft, text_eq_self key) refl
stashed-set_stash key (o ∷ os) t =
    rw (stashed, lookup-insert key key (o ∷ os) t.turn_ttft, text_eq_self key) refl

count_obs_split :
    (p : TurnTtftObs → Bool) (lo : ℤ) (os : List TurnTtftObs)
    → count_obs p (belonging lo os) + count_obs p (left_over lo os) ≡ count_obs p os
unfolding belonging left_over count_obs
count_obs_split p lo [] = refl
count_obs_split p lo (o ∷ os) = ground (arith, count_obs_split p lo os)

-- Each observation is of the hour from `anchor` on, both ends included.
unfoldable pub InHour : ℤ → List TurnTtftObs → Type 0
InHour anchor [] = Unit
InHour anchor (o ∷ os) =
    (anchor ≤ℤ o.ts_unix_nano) × (o.ts_unix_nano ≤ℤ anchor +ℤ pos 3600000000000) × InHour anchor os

-- Each observation is from before or after that hour.
unfoldable pub OutOfHour : ℤ → List TurnTtftObs → Type 0
OutOfHour anchor [] = Unit
OutOfHour anchor (o ∷ os) =
    ((o.ts_unix_nano +ℤ pos 1 ≤ℤ anchor) ⊎ (anchor +ℤ pos 3600000000001 ≤ℤ o.ts_unix_nano))
    × OutOfHour anchor os

add_hour :
    (anchor : ℤ)
    → InRange (anchor +ℤ pos 3600000000000)
    → add64 anchor hour ≡ anchor +ℤ pos 3600000000000
unfolding add64
add_hour anchor r = wrap64_fit (anchor +ℤ pos 3600000000000) r

not_ltb : (a b : ℕ) → ltb a b ≡ false → b ≤ a
not_ltb a b h = ground arith

belongs-in :
    (anchor : ℤ) (o : TurnTtftObs)
    → InRange (anchor +ℤ pos 3600000000000)
    → belongs anchor o ≡ true
    → (anchor ≤ℤ o.ts_unix_nano) × (o.ts_unix_nano ≤ℤ anchor +ℤ pos 3600000000000)
unfolding belongs
belongs-in anchor o r h =
    let h' =
      subst (λ e. (not (ltb_ℤ o.ts_unix_nano anchor) && not (ltb_ℤ e o.ts_unix_nano)) ≡ true)
        (add_hour anchor r) h in
    (not_ltb _ _ (ground arith), not_ltb _ _ (ground arith))

belongs-out :
    (anchor : ℤ) (o : TurnTtftObs)
    → InRange (anchor +ℤ pos 3600000000000)
    → belongs anchor o ≡ false
    → (o.ts_unix_nano +ℤ pos 1 ≤ℤ anchor) ⊎ (anchor +ℤ pos 3600000000001 ≤ℤ o.ts_unix_nano)
unfolding belongs
belongs-out anchor o r h =
    let h' =
      subst (λ e. (not (ltb_ℤ o.ts_unix_nano anchor) && not (ltb_ℤ e o.ts_unix_nano)) ≡ false)
        (add_hour anchor r) h in
    elim (Bool-cases (ltb_ℤ o.ts_unix_nano anchor)) [
      | inl e ↦ let lt = ltb→lt _ _ e in inl (omega (int_laws, lt))
      | inr e ↦
          let lt =
            ltb→lt (pos_part (anchor +ℤ pos 3600000000000) + neg_part o.ts_unix_nano)
              (pos_part o.ts_unix_nano + neg_part (anchor +ℤ pos 3600000000000)) (ground arith) in
          inr (omega (int_laws, lt))
    ]

belonging-InHour :
    (anchor : ℤ) (os : List TurnTtftObs)
    → InRange (anchor +ℤ pos 3600000000000)
    → InHour anchor (belonging anchor os)
unfolding belonging InHour
belonging-InHour anchor [] r = tt
belonging-InHour anchor (o ∷ os) r = elim (Bool-cases (belongs anchor o)) [
  | inl e ↦ let (lo, hi) = belongs-in anchor o r e in rw e (lo, hi, belonging-InHour anchor os r)
  | inr e ↦ rw e (belonging-InHour anchor os r)
]

left_over-OutOfHour :
    (anchor : ℤ) (os : List TurnTtftObs)
    → InRange (anchor +ℤ pos 3600000000000)
    → OutOfHour anchor (left_over anchor os)
unfolding left_over OutOfHour
left_over-OutOfHour anchor [] r = tt
left_over-OutOfHour anchor (o ∷ os) r = elim (Bool-cases (belongs anchor o)) [
  | inl e ↦ rw e (left_over-OutOfHour anchor os r)
  | inr e ↦ rw e (belongs-out anchor o r e, left_over-OutOfHour anchor os r)
]

insert_obs-InHour :
    (anchor : ℤ) (o : TurnTtftObs) (os : List TurnTtftObs)
    → InHour anchor (o ∷ os)
    → InHour anchor (insert_obs o os)
unfolding insert_obs InHour
insert_obs-InHour anchor o [] h = h
insert_obs-InHour anchor o (p ∷ os) (lo, hi, (lo', hi', rest)) =
    elim (Bool-cases (ltb_ℤ p.ts_unix_nano o.ts_unix_nano)) [
      | inl e ↦ rw e (lo', hi', insert_obs-InHour anchor o os (lo, hi, rest))
      | inr e ↦ rw e (lo, hi, (lo', hi', rest))
    ]

sort_obs-InHour :
    (anchor : ℤ) (os : List TurnTtftObs) → InHour anchor os → InHour anchor (sort_obs os)
unfolding sort_obs InHour
sort_obs-InHour anchor [] h = tt
sort_obs-InHour anchor (o ∷ os) (lo, hi, rest) =
    insert_obs-InHour anchor o (sort_obs os) (lo, hi, sort_obs-InHour anchor os rest)

-- What a row receives, of the observations `os` that waited, and what `left` waits on.
pub record Drained (anchor : ℤ) (os out left : List TurnTtftObs) : Type 0 where
  pub ascending : Ascending out
  pub complete : (p : TurnTtftObs → Bool) → count_obs p out + count_obs p left ≡ count_obs p os
  pub all_own : InHour anchor out
  pub no_own_left : OutOfHour anchor left

drain_list-Drained :
    (key : Text) (anchor : ℤ) (os : List TurnTtftObs) (t : CodexTracker)
    → InRange (anchor +ℤ pos 3600000000000)
    → stashed key t ≡ os
    → Drained anchor os (drain_list key anchor os t).0 (stashed key (drain_list key anchor os t).1)
unfolding drain_list Ascending count_obs InHour OutOfHour
drain_list-Drained key anchor [] t r e = record {
  ascending = tt;
  complete = λ p. rw e refl;
  all_own = tt;
  no_own_left = rw e tt;
}
drain_list-Drained key anchor (o ∷ os) t r e =
    let out = belonging anchor (o ∷ os) in
    let left = left_over anchor (o ∷ os) in
    let waits = stashed-set_stash key left t in
    record {
      ascending = sort_obs-Ascending out;
      complete = λ p. rw (waits, count_obs-sort_obs p out) (count_obs_split p anchor (o ∷ os));
      all_own = sort_obs-InHour anchor out (belonging-InHour anchor (o ∷ os) r);
      no_own_left = rw waits (left_over-OutOfHour anchor (o ∷ os) r);
    }

-- A row receives the waiting observations from its anchor to an hour after it, both included, all of
-- them, each as often as it waited and the earliest first; those before and after go on waiting. The
-- hour ends within the range of int64.
pub drain_turn_ttft-Drained :
    (conversation_id model : Text) (anchor : ℤ) (t : CodexTracker)
    → InRange (anchor +ℤ pos 3600000000000)
    → let key = turn_ttft_key conversation_id model in
      let (out, t') = drain_turn_ttft conversation_id model anchor t in
      Drained anchor (stashed key t) out (stashed key t')
unfolding drain_turn_ttft
drain_turn_ttft-Drained conversation_id model anchor t r =
    let key = turn_ttft_key conversation_id model in
    drain_list-Drained key anchor (stashed key t) t r refl
