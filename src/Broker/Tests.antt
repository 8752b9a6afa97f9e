-- ===== src/Broker/Tests.antt =====
-- The broker with two clients, one of them slow.
use mathlib.Core.Option
use cc_otel.Prelude.{ℕ, ◌+◌, ◌≡◌, refl, Option, none, some, List, [], ◌∷◌, if◌then◌else◌}
use cc_otel.Prelude.Text.{Text, codes, text_eq}
use cc_otel.Broker.{
  Broker, IsValid, new_broker, subscribe, unsubscribe, notify_source, receive, member,
}
use cc_otel.Broker.Delivery.{
  notify_delivers, tag_of, waiting, subscribe-IsValid, new_broker-IsValid,
}
use cc_otel.Broker.Traces.{
  Step, join, leave, broadcast, take_tag, step, run, reachable-IsValid, no_lost_wakeup,
}

abbrev one_client : Broker
one_client = (subscribe new_broker).0

one_client-IsValid : IsValid one_client
one_client-IsValid = subscribe-IsValid new_broker new_broker-IsValid

notify_delivers_example :
    (b' : Broker) × (notify_source 7 (codes "codex") one_client ≡ some b')
    × (b'.clients ≡ one_client.clients)
    × (b'.notify_n ≡ one_client.notify_n + 1)
    × (b'.last ≡ some 7)
    × (b'.last_source ≡ tag_of (codes "codex"))
    × ((c : ℕ)
        → b'.chans c ≡ record (one_client.chans c) {
          buffer =
              if member c one_client.clients
              then some (waiting (one_client.chans c).buffer (tag_of (codes "codex")))
              else (one_client.chans c).buffer;
        })
notify_delivers_example = notify_delivers 7 (codes "codex") one_client one_client-IsValid

abbrev slow_client : List Step
slow_client = join ∷ join ∷ broadcast 1 (codes "codex") ∷ take_tag 1 ∷ broadcast 2 [] ∷ leave 1 ∷ []

-- The first tag waits in channel 0 all along.
slow_client_keeps :
    Option.map (λ (b : Broker). (b.chans 0).buffer) (run slow_client new_broker)
    ≡ some (some (codes "codex"))
unfolding run step subscribe unsubscribe notify_source receive text_eq
slow_client_keeps = refl

abbrev two_clients : Broker
two_clients = (subscribe one_client).0

two_joins : run (join ∷ join ∷ []) new_broker ≡ some two_clients
unfolding run step
two_joins = refl

reachable-IsValid_example : IsValid two_clients
reachable-IsValid_example = reachable-IsValid (join ∷ join ∷ []) two_clients two_joins

abbrev or_two : Option Broker → Broker
or_two none = two_clients
or_two (some b) = b

abbrev served : Broker
served = or_two (run (broadcast 1 (codes "codex") ∷ take_tag 1 ∷ leave 1 ∷ []) two_clients)

served_runs :
    run (broadcast 1 (codes "codex") ∷ take_tag 1 ∷ leave 1 ∷ []) two_clients ≡ some served
unfolding run step subscribe unsubscribe notify_source receive text_eq
served_runs = refl

no_lost_wakeup_example : (t : Text) × ((served.chans 0).buffer ≡ some t)
unfolding subscribe
no_lost_wakeup_example =
    no_lost_wakeup (join ∷ join ∷ []) (take_tag 1 ∷ leave 1 ∷ []) 1 (codes "codex") 0 two_clients
      served two_joins refl served_runs refl
