-- ===== src/Ws/Connection/Steps.antt =====
-- The steps of the loop, each at its await, between steps of other tasks on the cell.
pub mod Histories
pub mod Receipts
pub mod Retries
pub mod Ends
pub mod Evidence
pub mod Queue
use rspm.Common.{ℕ, Bool, Option, none, some, List, ◌≡◌, ◌⊎◌}
use rspm.Ws.Frame.{FrameReceipt}
use rspm.Ws.StateCell.Run.{Call, perform}
use rspm.Ws.Connection.{
  Config, Connection, Phase, top, connects, waits, subscribes, proves, live, begin, wait_over,
  connect_failed, connect_interrupted, connect_succeeded, subscribe_interrupted, subscribe_failed,
  subscribe_sent, ping_interrupted, ping_failed, ping_sent, live_shutdown, consumer_gone,
  heartbeat_tick,
}
use rspm.Ws.Connection.Receive.{Message, receive}

module _ {Wire Event : Type 0} (deserialize : List ℕ → Option (List Wire))
    (try_from : Wire → Option Event) (config : Config) where
  pub data Step : Connection Event → Connection Event → Type 0 where
    begins : (l : Connection Event) → l.phase ≡ top → Step l (begin l)
    waited :
        (l : Connection Event) (told : Bool) → l.phase ≡ waits → Step l (wait_over config told l)
    connect_fails : (l : Connection Event) → l.phase ≡ connects → Step l (connect_failed config l)
    connect_stops :
        (l : Connection Event) (gone : Bool)
        → l.phase ≡ connects
        → Step l (connect_interrupted gone l)
    connects_to : (l : Connection Event) → l.phase ≡ connects → Step l (connect_succeeded l)
    subscribe_stops :
        (l : Connection Event) (g : ℕ) (gone : Bool)
        → l.phase ≡ subscribes g
        → Step l (subscribe_interrupted gone l)
    subscribe_fails :
        (l : Connection Event) (g : ℕ) → l.phase ≡ subscribes g → Step l (subscribe_failed config l)
    subscribe_writes :
        (l : Connection Event) (g : ℕ) → l.phase ≡ subscribes g → Step l (subscribe_sent g l)
    ping_stops :
        (l : Connection Event) (g : ℕ) (gone : Bool)
        → l.phase ≡ proves g
        → Step l (ping_interrupted config gone l)
    ping_fails : (l : Connection Event) (g : ℕ) → l.phase ≡ proves g → Step l (ping_failed config l)
    ping_writes :
        (l : Connection Event) (g now : ℕ) → l.phase ≡ proves g → Step l (ping_sent config g now l)
    shuts_down :
        (l : Connection Event) (g : ℕ) (ping : Option ℕ) (in_time : Bool)
        → l.phase ≡ live g ping
        → Step l (live_shutdown config in_time l)
    consumer_leaves :
        (l : Connection Event) (g : ℕ) (ping : Option ℕ)
        → l.phase ≡ live g ping
        → Step l (consumer_gone config l)
    ticks :
        (l : Connection Event) (g : ℕ) (ping : Option ℕ) (now : ℕ) (sent : Bool)
        → l.phase ≡ live g ping
        → Step l (heartbeat_tick config g ping now sent l)
    receives :
        (l m : Connection Event) (g : ℕ) (ping : Option ℕ) (receipt : Option FrameReceipt)
        (pong_sent in_time : Bool) (message : Message)
        → l.phase ≡ live g ping
        → receive deserialize try_from config g ping receipt pong_sent in_time message l ≡ some m
        → Step l m
    -- A task that shares the cell, or the owner of the watch channel.
    shares : (l : Connection Event) (call : Call) → Step l (record l { cell = perform call l.cell })
    tells : (l : Connection Event) (value : Bool) → Step l (record l { shutdown = value })

  pub data Runs : Connection Event → Connection Event → Type 0 where
    still : (l : Connection Event) → Runs l l
    then_step : {l m n : Connection Event} → Runs l m → Step m n → Runs l n
