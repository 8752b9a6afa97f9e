-- ===== src/Broker.antt =====
-- internal/api/broker.go: the broker that tells the dashboards connected by SSE that there is new
-- data. What a method does to the state it does under the mutex, so a method is one step; the close
-- of a channel, which Unsubscribe leaves until it has unlocked, is part of its step. The count of
-- notifications, an int64, has no bound here. A `chan
-- string` of capacity 1 is a cell with at most one tag; a channel is named by a number, and the
-- state holds all channels ever made, those of clients that have left among them.
mod Channels
pub mod Delivery
pub mod Traces
mod Tests
use mathlib.Core.Option
use cc_otel.Prelude.{
  ℕ, ◌+◌, ◌<◌, ◌≡◌, Bool, true, false, not, ◌&&◌, ◌==◌, if◌then◌else◌, Option, none, some, List, [],
  ◌∷◌, length,
}
use cc_otel.Prelude.Text.{Text, codes, text_eq}
pub use Channels.{Chan, remove, member}
unfoldable pub use Channels.{update, try_send, send_all, close_chan}

pub record Broker : Type 0 where
  pub clients : List ℕ
  pub chans : ℕ → Chan
  pub next : ℕ  -- the name of the next channel
  pub last : Option ℕ  -- `none` for the zero time
  pub last_source : Text
  pub notify_n : ℕ

-- NewBroker
abbrev pub new_broker : Broker
new_broker = record {
  clients = [];
  chans = λ _. record { is_closed = false; buffer = none };
  next = 0;
  last = none;
  last_source = [];
  notify_n = 0;
}

-- Subscribe: make(chan string, 1), which nobody else has
unfoldable pub subscribe : Broker → Broker × ℕ
unfolding update
subscribe b = (
  record b {
    clients = b.next ∷ b.clients;
    chans = update b.chans b.next (record { is_closed = false; buffer = none });
    next = b.next + 1;
  },
  b.next,
)

-- Unsubscribe; `none` is the panic of closing a closed channel.
unfoldable pub unsubscribe : Broker → ℕ → Option Broker
unfolding close_chan
unsubscribe b ch =
    Option.map (λ chans. record b { clients = remove ch b.clients; chans = chans })
      (close_chan b.chans ch)

-- NotifySource at the time `now`; `none` is the panic of sending on a closed channel.
unfoldable pub notify_source : ℕ → Text → Broker → Option Broker
unfolding send_all
notify_source now source b =
    let tag = if text_eq source [] then codes "claude" else source in
    Option.map
      (λ chans. record b {
        last = some now;
        last_source = tag;
        notify_n = b.notify_n + 1;
        chans = chans;
      })
      (send_all tag b.clients b.chans)

-- Notify
unfoldable pub notify : ℕ → Broker → Option Broker
unfolding notify_source
notify now b = notify_source now (codes "claude") b

-- A client's receive, which takes the tag that waits in its channel.
unfoldable pub receive : Broker → ℕ → Broker × Option Text
unfolding update
receive b ch = (
  record b { chans = update b.chans ch (record (b.chans ch) { buffer = none }) },
  (b.chans ch).buffer,
)

-- ClientCount, LastNotifyUnix, NotifyCount and LastSource
abbrev pub client_count : Broker → ℕ
client_count b = length b.clients

abbrev pub last_notify_unix : Broker → ℕ
last_notify_unix b = elim b.last [ none ↦ 0 | some t ↦ t ]

-- Every registered channel was made and is open, once.
pub record IsValid (b : Broker) : Type 0 where
  pub open_clients :
      (c : ℕ) → member c b.clients ≡ true → (c < b.next) × ((b.chans c).is_closed ≡ false)
  pub distinct : Channels.Distinct b.clients
