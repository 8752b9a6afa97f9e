-- ===== src/Broker/Traces.antt =====
-- Interleavings of the broker's methods and its clients' receives, as lists of steps.
use cc_otel.Prelude.{
  ℕ, ◌≡◌, sym, ◌∙◌, Bool, true, false, not, ◌&&◌, ◌==◌, Option, none, some, List, [], ◌∷◌,
  Option-cases, inl, inr, arith,
}
use cc_otel.Prelude.Text.{Text}
use cc_otel.Broker.{
  Broker, IsValid, new_broker, subscribe, unsubscribe, notify_source, receive, update, close_chan,
  member,
}
use cc_otel.Broker.Channels.{after_send, offered}
use cc_otel.Broker.Delivery.{
  new_broker-IsValid, subscribe-IsValid, tag_of, notified, notify_source_lem, unsubscribed,
  unsubscribed-IsValid, member-remove,
}

pub data Step : Type 0 where
  join : Step
  leave : ℕ → Step
  broadcast : ℕ → Text → Step
  take_tag : ℕ → Step

unfoldable pub step : Step → Broker → Option Broker
step join b = some (subscribe b).0
step (leave c) b = unsubscribe b c
step (broadcast now source) b = notify_source now source b
step (take_tag c) b = some (receive b c).0

-- The steps in turn; `none` once one of them panics.
unfoldable pub run : List Step → Broker → Option Broker
run [] b = some b
run (s ∷ ss) b = elim (step s b) [ none ↦ none | some b' ↦ run ss b' ]

-- The step is no receive and no leave of the client.
abbrev pub spares : ℕ → Step → Bool
spares c join = true
spares c (leave d) = not (d == c)
spares c (broadcast _ _) = true
spares c (take_tag d) = not (d == c)

abbrev pub all_spare : ℕ → List Step → Bool
all_spare c [] = true
all_spare c (s ∷ ss) = spares c s && all_spare c ss

-- A leave that returns found its channel open.
leave_lem :
    (b b' : Broker) (c : ℕ)
    → unsubscribe b c ≡ some b'
    → ((b.chans c).is_closed ≡ false) × (b' ≡ unsubscribed b c)
unfolding unsubscribe close_chan unsubscribed
leave_lem b b' c h = ground arith

receive-IsValid : (b : Broker) (c : ℕ) → IsValid b → IsValid (receive b c).0
unfolding receive update
receive-IsValid b c v = record {
  open_clients = λ d m. ground (arith, v.open_clients d);
  distinct = v.distinct;
}

notified-IsValid :
    (now : ℕ) (source : Text) (b : Broker) → IsValid b → IsValid (notified now source b)
unfolding notified after_send offered
notified-IsValid now source b v = record {
  open_clients = λ d m. ground (arith, v.open_clients d);
  distinct = v.distinct;
}

some_eq : {b b' : Broker} → some b ≡ some b' → b ≡ b'
some_eq h = cc

step-IsValid : (s : Step) (b b' : Broker) → IsValid b → step s b ≡ some b' → IsValid b'
unfolding step
step-IsValid join b b' v h = rw (← some_eq h) (subscribe-IsValid b v)
step-IsValid (leave c) b b' v h = rw ((leave_lem b b' c h).1) (unsubscribed-IsValid b c v)
step-IsValid (broadcast now source) b b' v h =
    rw (← some_eq (sym (notify_source_lem now source b v) ∙ h)) (notified-IsValid now source b v)
step-IsValid (take_tag c) b b' v h = rw (← some_eq h) (receive-IsValid b c v)

-- A tag that waits for a registered client.
abbrev Waits : ℕ → Text → Broker → Type 0
Waits c t b = (member c b.clients ≡ true) × ((b.chans c).buffer ≡ some t)

step-Waits :
    (s : Step) (c : ℕ) (t : Text) (b b' : Broker)
    → IsValid b
    → spares c s ≡ true
    → step s b ≡ some b'
    → Waits c t b
    → Waits c t b'
unfolding step
step-Waits join c t b b' v p h w =
    rw (← some_eq h) (unfold subscribe update in (ground arith, ground (arith, v.open_clients c)))
step-Waits (leave d) c t b b' v p h w =
    rw ((leave_lem b b' d h).1)
      (unfold unsubscribed update in (ground (arith, member-remove d c b.clients), ground arith))
step-Waits (broadcast now source) c t b b' v p h w =
    rw (← some_eq (sym (notify_source_lem now source b v) ∙ h))
      (unfold notified after_send offered in (ground arith, ground arith))
step-Waits (take_tag d) c t b b' v p h w =
    rw (← some_eq h) (unfold receive update in (ground arith, ground arith))

run-Waits :
    (ss : List Step) (c : ℕ) (t : Text) (b b' : Broker)
    → IsValid b
    → all_spare c ss ≡ true
    → run ss b ≡ some b'
    → Waits c t b
    → Waits c t b'
unfolding run
run-Waits [] c t b b' v p h w = rw (← some_eq h) w
run-Waits (s ∷ ss) c t b b' v p h w = elim (Option-cases (step s b)) [
  | inl e ↦ cc
  | inr (b₁, e) ↦
      run-Waits ss c t b₁ b' (step-IsValid s b b₁ v e) (ground arith) (rw (e, run) at h)
        (step-Waits s c t b b₁ v (ground arith) e w)
]

run-IsValid : (ss : List Step) (b b' : Broker) → IsValid b → run ss b ≡ some b' → IsValid b'
unfolding run
run-IsValid [] b b' v h = rw (← some_eq h) v
run-IsValid (s ∷ ss) b b' v h = elim (Option-cases (step s b)) [
  | inl e ↦ cc
  | inr (b₁, e) ↦ run-IsValid ss b₁ b' (step-IsValid s b b₁ v e) (rw (e, run) at h)
]

-- In every interleaving of joins, leaves, receives and broadcasts that starts from the new broker,
-- the registered channels are distinct and open.
pub reachable-IsValid : (ss : List Step) (b : Broker) → run ss new_broker ≡ some b → IsValid b
reachable-IsValid ss b h = run-IsValid ss new_broker b new_broker-IsValid h

-- After a broadcast a tag waits for every client, an older one where the client is slow.
pending :
    (now : ℕ) (source : Text) (b : Broker) (c : ℕ)
    → member c b.clients ≡ true
    → (t : Text) × (((notified now source b).chans c).buffer ≡ some t)
unfolding notified after_send offered
pending now source b c m = elim (Option-cases (b.chans c).buffer) [
  | inl e ↦ (tag_of source, ground arith)
  | inr (t, e) ↦ (t, ground arith)
]

-- No update is lost: from any reachable broker, after a broadcast a registered client finds a tag
-- waiting, however many other steps follow, until it receives or leaves.
pub no_lost_wakeup :
    (before after : List Step) (now : ℕ) (source : Text) (c : ℕ) (b b' : Broker)
    → run before new_broker ≡ some b
    → member c b.clients ≡ true
    → run (broadcast now source ∷ after) b ≡ some b'
    → all_spare c after ≡ true
    → (t : Text) × ((b'.chans c).buffer ≡ some t)
no_lost_wakeup before after now source c b b' r m h p =
    let v = reachable-IsValid before b r in
    let n = notified now source b in
    let (t, e) = pending now source b c m in
    (
      t,
      (run-Waits after c t n b' (notified-IsValid now source b v) p
          (unfold run step in rw (notify_source_lem now source b v, run) at h)
          (unfold notified in m, e)).1,
    )
