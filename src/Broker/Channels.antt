-- ===== src/Broker/Channels.antt =====
-- Buffered channels of capacity 1, and the set of registered ones.
use cc_otel.Prelude.{
  ℕ, ◌≡◌, refl, Bool, true, false, ◌||◌, ◌==◌, if◌then◌else◌, Option, none, some, List, [], ◌∷◌,
  Option-cases, ap, ◌∙◌, inl, inr, arith,
}
use cc_otel.Prelude.Text.{Text}
use mathlib.Core.Path.{fun_ext}

pub record Chan : Type 0 where
  pub is_closed : Bool
  pub buffer : Option Text

abbrev pub Chans : Type 0
Chans = ℕ → Chan

unfoldable pub update : Chans → ℕ → Chan → Chans
update f k v j = if k == j then v else f j

-- `select { case ch <- source: default: }`; `none` is the panic of a closed channel.
unfoldable pub try_send : Text → ℕ → Chans → Option Chans
unfolding update
try_send tag c chans = if (chans c).is_closed then none else elim (chans c).buffer [
  | none ↦ some (update chans c (record (chans c) { buffer = some tag }))
  | some _ ↦ some chans
]

-- The loop of NotifySource over the clients.
unfoldable pub send_all : Text → List ℕ → Chans → Option Chans
unfolding try_send
send_all tag [] chans = some chans
send_all tag (c ∷ cs) chans = elim (try_send tag c chans) [
  | none ↦ none
  | some chans' ↦ send_all tag cs chans'
]

-- close(ch)
unfoldable pub close_chan : Chans → ℕ → Option Chans
unfolding update
close_chan chans c =
    if (chans c).is_closed
    then none
    else some (update chans c (record (chans c) { is_closed = true }))

abbrev pub member : ℕ → List ℕ → Bool
member c [] = false
member c (d ∷ ds) = d == c || member c ds

abbrev pub remove : ℕ → List ℕ → List ℕ
remove c [] = []
remove c (d ∷ ds) = let rest = remove c ds in if d == c then rest else d ∷ rest

abbrev pub Distinct : List ℕ → Type 0
Distinct [] = Unit
Distinct (c ∷ cs) = (member c cs ≡ false) × Distinct cs

-- What one broadcast makes of one channel.
unfoldable pub offered : Text → Chan → Chan
offered tag ch = elim ch.buffer [ none ↦ record ch { buffer = some tag } | some _ ↦ ch ]

-- The state of all channels after a broadcast to `cs`.
unfoldable pub after_send : Text → List ℕ → Chans → Chans
unfolding offered
after_send tag cs chans j = if member j cs then offered tag (chans j) else chans j

-- One send on an open channel.
offer_one : Text → ℕ → Chans → Chans
unfolding offered
offer_one tag c chans j = if c == j then offered tag (chans j) else chans j

try_send_lem :
    (tag : Text) (c : ℕ) (chans : Chans)
    → (chans c).is_closed ≡ false
    → try_send tag c chans ≡ some (offer_one tag c chans)
unfolding try_send offer_one
try_send_lem tag c chans h = elim (Option-cases (chans c).buffer) [
  | inl e ↦ rw (h, e) (ap some (fun_ext λ j. ground arith))
  | inr (t, e) ↦ rw (h, e) (ap some (fun_ext λ j. ground arith))
]

after-offer_one :
    (tag : Text) (c : ℕ) (cs : List ℕ) (chans : Chans)
    → after_send tag cs (offer_one tag c chans) ≡ after_send tag (c ∷ cs) chans
unfolding after_send offer_one
after-offer_one tag c cs chans = fun_ext λ j. ground arith

open-offer_one :
    (tag : Text) (c : ℕ) (chans : Chans) (d : ℕ)
    → (offer_one tag c chans d).is_closed ≡ (chans d).is_closed
unfolding offer_one
open-offer_one tag c chans d = ground arith

-- Over open channels the loop ends, and each channel of the list was offered the tag.
pub send_all_lem :
    (tag : Text) (cs : List ℕ) (chans : Chans)
    → ((c : ℕ) → member c cs ≡ true → (chans c).is_closed ≡ false)
    → send_all tag cs chans ≡ some (after_send tag cs chans)
unfolding send_all
send_all_lem tag [] chans h = unfold after_send in refl
send_all_lem tag (c ∷ cs) chans h =
    rw (try_send_lem tag c chans (h c (ground arith)), send_all, ← after-offer_one tag c cs chans)
      (send_all_lem tag cs (offer_one tag c chans)
        (λ d m. open-offer_one tag c chans d ∙ h d (ground arith)))
