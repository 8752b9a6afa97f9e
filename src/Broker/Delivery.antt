-- ===== src/Broker/Delivery.antt =====
-- What a broadcast does to every channel, and that no method panics on a well-formed broker.
use cc_otel.Prelude.{
  ℕ, ◌+◌, ◌≡◌, refl, Bool, true, false, ◌==◌, if◌then◌else◌, Option, none, some, List, [], ◌∷◌,
  length, Bool-cases, inl, inr, arith,
}
use cc_otel.Prelude.Text.{Text, codes, text_eq}
use cc_otel.Broker.{
  Broker, IsValid, new_broker, subscribe, unsubscribe, notify_source, update, member, remove,
}
use cc_otel.Broker.Channels.{send_all_lem, after_send, offered, Distinct}

abbrev pub tag_of : Text → Text
tag_of source = if text_eq source [] then codes "claude" else source

-- The broker after a broadcast.
unfoldable pub notified : ℕ → Text → Broker → Broker
notified now source b = record b {
  last = some now;
  last_source = tag_of source;
  notify_n = b.notify_n + 1;
  chans = after_send (tag_of source) b.clients b.chans;
}

pub notify_source_lem :
    (now : ℕ) (source : Text) (b : Broker)
    → IsValid b
    → notify_source now source b ≡ some (notified now source b)
unfolding notify_source notified
notify_source_lem now source b v =
    rw (send_all_lem (tag_of source) b.clients b.chans (λ c m. (v.open_clients c m).1))

-- The tag that waits in a client's channel after a broadcast.
abbrev pub waiting : Option Text → Text → Text
waiting none tag = tag
waiting (some t) tag = t

offered_buffer :
    (tag : Text) (closed : Bool) (o : Option Text)
    → offered tag (record { is_closed = closed; buffer = o })
      ≡ record { is_closed = closed; buffer = some (waiting o tag) }
unfolding offered
offered_buffer tag closed none = refl
offered_buffer tag closed (some t) = refl

after_send_lem :
    (tag : Text) (c : ℕ) (b : Broker)
    → after_send tag b.clients b.chans c ≡ record (b.chans c) {
      buffer =
          if member c b.clients then some (waiting (b.chans c).buffer tag) else (b.chans c).buffer;
    }
unfolding after_send
after_send_lem tag c b = elim (Bool-cases (member c b.clients)) [
  | inl m ↦ rw m (offered_buffer tag (b.chans c).is_closed (b.chans c).buffer)
  | inr m ↦ rw m
]

-- A broadcast on a well-formed broker never panics and never blocks: it returns a broker with the
-- same clients, the counter one higher and the time and tag stored (the tag is "claude" if none is
-- given); each client whose channel was empty finds the tag there, each client whose channel was
-- full keeps the tag that waited, and the channel of nobody else is touched.
pub notify_delivers :
    (now : ℕ) (source : Text) (b : Broker)
    → IsValid b
    → (b' : Broker) × (notify_source now source b ≡ some b')
      × (b'.clients ≡ b.clients)
      × (b'.notify_n ≡ b.notify_n + 1)
      × (b'.last ≡ some now)
      × (b'.last_source ≡ tag_of source)
      × ((c : ℕ)
          → b'.chans c ≡ record (b.chans c) {
            buffer =
                if member c b.clients
                then some (waiting (b.chans c).buffer (tag_of source))
                else (b.chans c).buffer;
          })
unfolding notified after_send offered
notify_delivers now source b v = (
  notified now source b,
  notify_source_lem now source b v,
  refl,
  refl,
  refl,
  refl,
  λ c. after_send_lem (tag_of source) c b,
)

pub new_broker-IsValid : IsValid new_broker
new_broker-IsValid = record { open_clients = λ c m. cc; distinct = tt }

member-fresh : (b : Broker) → IsValid b → member b.next b.clients ≡ false
member-fresh b v = elim (Bool-cases (member b.next b.clients)) [
  | inl m ↦ absurd (omega (arith, (v.open_clients b.next m).0))
  | inr e ↦ e
]

pub subscribe-IsValid : (b : Broker) → IsValid b → IsValid (subscribe b).0
unfolding subscribe
subscribe-IsValid b v = record {
  open_clients = λ c m. ground (arith, v.open_clients c);
  distinct = (member-fresh b v, v.distinct);
}

pub member-remove :
    (c d : ℕ) (cs : List ℕ) → member d (remove c cs) ≡ (if c == d then false else member d cs)
member-remove c d [] = ground arith
member-remove c d (e ∷ cs) = ground (arith, member-remove c d cs)

remove-Distinct : (c : ℕ) (cs : List ℕ) → Distinct cs → Distinct (remove c cs)
remove-Distinct c [] h = tt
remove-Distinct c (d ∷ cs) h = elim (Bool-cases (d == c)) [
  | inl e ↦ rw e (remove-Distinct c cs h.1)
  | inr e ↦ rw e (ground (arith, member-remove c d cs, h.0), remove-Distinct c cs h.1)
]

length-remove_absent :
    (c : ℕ) (cs : List ℕ) → member c cs ≡ false → length (remove c cs) ≡ length cs
length-remove_absent c [] h = refl
length-remove_absent c (d ∷ cs) h = ground (arith, length-remove_absent c cs)

length-remove :
    (c : ℕ) (cs : List ℕ) → Distinct cs → member c cs ≡ true → length (remove c cs) + 1 ≡ length cs
length-remove c [] h m = cc
length-remove c (d ∷ cs) h m =
    ground (arith, length-remove c cs h.1, length-remove_absent c cs, h.0)

unfoldable pub unsubscribed : Broker → ℕ → Broker
unsubscribed b ch = record b {
  clients = remove ch b.clients;
  chans = update b.chans ch (record (b.chans ch) { is_closed = true });
}

pub unsubscribe_lem :
    (b : Broker) (ch : ℕ)
    → (b.chans ch).is_closed ≡ false
    → unsubscribe b ch ≡ some (unsubscribed b ch)
unfolding unsubscribe unsubscribed
unsubscribe_lem b ch e = rw e

pub unsubscribed-IsValid : (b : Broker) (ch : ℕ) → IsValid b → IsValid (unsubscribed b ch)
unfolding unsubscribed update
unsubscribed-IsValid b ch v = record {
  open_clients = λ c m. ground (arith, member-remove ch c b.clients, v.open_clients c);
  distinct = remove-Distinct ch b.clients v.distinct;
}

-- Leaving a well-formed broker, a registered client is gone for good: nothing panics, the client
-- count falls by one, the broker stays well-formed, a broadcast after it leaves the channel as it
-- is, and a second leave of the same client panics.
pub unsubscribe_leaves :
    (b : Broker) (ch : ℕ)
    → IsValid b
    → member ch b.clients ≡ true
    → (b' : Broker) × (unsubscribe b ch ≡ some b')
      × IsValid b'
      × (length b'.clients + 1 ≡ length b.clients)
      × (member ch b'.clients ≡ false)
      × ((now : ℕ) (source : Text)
          → (b'' : Broker) × (notify_source now source b' ≡ some b'')
            × (b''.chans ch ≡ b'.chans ch))
      × (unsubscribe b' ch ≡ none)
unfolding unsubscribed notified after_send
unsubscribe_leaves b ch v m = (
  unsubscribed b ch,
  unsubscribe_lem b ch (v.open_clients ch m).1,
  unsubscribed-IsValid b ch v,
  length-remove ch b.clients v.distinct m,
  ground (arith, member-remove ch ch b.clients),
  λ now source. (
    notified now source (unsubscribed b ch),
    notify_source_lem now source (unsubscribed b ch) (unsubscribed-IsValid b ch v),
    ground (arith, member-remove ch ch b.clients),
  ),
  unfold unsubscribe update in ground arith,
)
