-- ===== src/Ws/Connection/Steps/Ends.antt =====
-- auth/ws/connection.rs: the channel after the loop has left a socket.
use rspm.Ws.StateCell.Run.{Reach.here}
use rspm.Ws.StateCell.Run.Safety.{IsUnrecovered}
use rspm.Ws.Connection.{Connection}

module _ {Event : Type 0} where
  abbrev Unready : Connection Event → Type 0
  Unready l = IsUnrecovered l.cell.state
