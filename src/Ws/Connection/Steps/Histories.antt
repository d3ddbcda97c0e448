-- ===== src/Ws/Connection/Steps/Histories.antt =====
-- auth/ws/connection.rs: the ends of an await as histories of the cell.
use rspm.Common.{
  ℕ, Bool, true, false, not, Option, none, some, ◌∷◌, ◌≡◌, ◌⊎◌, inl, inr, refl, if_elim,
  Option-cases, is_some, leb, ◌-◌, if◌then◌else◌,
}
use rspm.Ws.Frame.{
  FrameReceipt, RawFrame, EventBatch, sequence_width, with_transport_context, raw_evidence,
}
use rspm.Ws.Frame.Laws.{reserved_frame_is_sequenced}
use rspm.Ws.State.{CounterExhaustion}
use rspm.Ws.StateCell.{Cell, TransportSequenceRange, snapshot}
use rspm.Ws.StateCell.Marks.{
  ConnectResult, ok, err, try_mark_connected, mark_disconnected, mark_evidence_gap, mark_schema_gap,
  mark_delivery_gap, reserve_transport_sequences,
}
use rspm.Ws.StateCell.RawFrames.{release_permit, reserve_raw_frame_sequence, retain_raw_frame}
use rspm.Ws.StateCell.Ledger.{mark_enqueued}
use rspm.Ws.StateCell.Run.{
  perform, Reach, Reach.next, connecting, connected, disconnected, schema_gap, delivery_gap,
  evidence_gap, reserves_transport_sequences, releases_capacity, reserves_frame_sequence, retains,
  reads_snapshot, enqueues,
}
use rspm.Ws.Connection.Receive.{close_and_leave, deliver, accept}
use rspm.Ws.Connection.{
  Config, Connection, stop, begin, retry, wait_over, connect_failed, connect_succeeded,
  after_session, leave, heartbeat_tick, next_reconnect_attempt, reconnect_exhausted, doubled_delay,
}

ConnectResult-cases :
    (r : ConnectResult) → ((g : ℕ) × (r ≡ ok g)) ⊎ ((x : CounterExhaustion) × (r ≡ err x))
ConnectResult-cases (ok g) = inl (g, refl)
ConnectResult-cases (err x) = inr (x, refl)

pub context_evidence :
    {Event : Type 0} (b : EventBatch Event) (d : Cell) (range : TransportSequenceRange)
    (receipt : FrameReceipt) (f g gap_version : ℕ)
    → (reserve_transport_sequences (sequence_width b) d).1 ≡ some range
    → (e : RawFrame) × (raw_evidence (with_transport_context b receipt f range.first g gap_version)
        ≡ some e)
context_evidence b d range receipt f g gap_version h =
    let ((e, found, _, _, _), _) =
      reserved_frame_is_sequenced b d range receipt f g gap_version h in
    (e, found)

module _ {c : Cell} where
  pub disconnect : {d : Cell} → Reach c d → Reach c (mark_disconnected d)
  unfolding perform
  disconnect r = next r disconnected

  pub lose_evidence : {d : Cell} → Reach c d → Reach c (mark_evidence_gap d)
  unfolding perform
  lose_evidence r = next r evidence_gap

  pub maybe_disconnect :
      (gone : Bool) {d : Cell} → Reach c d → Reach c (if gone then mark_disconnected d else d)
  maybe_disconnect true r = disconnect r
  maybe_disconnect false r = r

  pub maybe_late :
      (in_time : Bool) {d : Cell} → Reach c d → Reach c (if in_time then d else mark_disconnected d)
  maybe_late true r = r
  maybe_late false r = disconnect r

module _ {Event : Type 0} (c : Cell) where
  -- The loop's cell is one that a history from `c` leads to.
  abbrev pub Led : Connection Event → Type 0
  Led l = Reach c l.cell

  pub stop-Led : (l : Connection Event) → Led l → Led (stop l)
  unfolding stop
  stop-Led l r = disconnect r

  pub begin-Led : (l : Connection Event) → Led l → Led (begin l)
  unfolding begin perform
  begin-Led l r = if_elim Led l.shutdown (λ _. stop-Led l r) (λ _. next r connecting)

  retry-Led : (config : Config) (l : Connection Event) → Led l → Led (retry config l)
  unfolding retry
  retry-Led config l r = elim (Option-cases (next_reconnect_attempt l.reconnect_attempt)) [
    | inl e ↦
        rw (e, retry) (stop-Led (record l { cell = mark_evidence_gap l.cell }) (lose_evidence r))
    | inr (next_attempt, e) ↦
        rw (e, retry)
          (if_elim Led (reconnect_exhausted config.max_reconnect_attempts next_attempt)
            (λ _. stop-Led (record l { reconnect_attempt = next_attempt }) r) (λ _. r))
  ]

  pub wait_over-Led :
      (config : Config) (told : Bool) (l : Connection Event) → Led l → Led (wait_over config told l)
  unfolding wait_over
  wait_over-Led config told l r =
      elim (Option-cases (doubled_delay l.reconnect_delay config.max_reconnect_delay)) [
        | inl e ↦
            rw (e, wait_over)
              (if_elim Led told (λ _. stop-Led l r)
                (λ _. stop-Led (record l { cell = mark_evidence_gap l.cell }) (lose_evidence r)))
        | inr (delay, e) ↦ rw (e, wait_over) (if_elim Led told (λ _. stop-Led l r) (λ _. r))
      ]

  pub after_session-Led :
      (config : Config) (l : Connection Event) → Led l → Led (after_session config l)
  unfolding after_session
  after_session-Led config l r =
      if_elim Led l.shutdown (λ _. stop-Led l r) (λ _. retry-Led config l r)

  pub leave-Led : (config : Config) (l : Connection Event) → Led l → Led (leave config l)
  unfolding leave
  leave-Led config l r =
      after_session-Led config (record l { cell = mark_disconnected l.cell }) (disconnect r)

  pub connect_failed-Led :
      (config : Config) (l : Connection Event) → Led l → Led (connect_failed config l)
  unfolding connect_failed
  connect_failed-Led config l r =
      if_elim Led l.shutdown (λ _. stop-Led l r)
        (λ _. retry-Led config (record l { cell = mark_disconnected l.cell }) (disconnect r))

  pub connect_succeeded-Led : (l : Connection Event) → Led l → Led (connect_succeeded l)
  unfolding connect_succeeded perform
  connect_succeeded-Led l r =
      let made : Reach c (try_mark_connected l.cell).0 = next r connected in
      elim (ConnectResult-cases (try_mark_connected l.cell).1) [
        | inl (g, e) ↦ rw (e, connect_succeeded) made
        | inr (x, e) ↦
            rw (e, connect_succeeded)
              (stop-Led (record l { cell = (try_mark_connected l.cell).0 }) made)
      ]

  pub heartbeat_tick-Led :
      (config : Config) (g : ℕ) (ping : Option ℕ) (now : ℕ) (sent : Bool) (l : Connection Event)
      → Led l
      → Led (heartbeat_tick config g ping now sent l)
  unfolding heartbeat_tick
  heartbeat_tick-Led config g none now sent l r =
      if_elim Led sent (λ _. r) (λ _. leave-Led config l r)
  heartbeat_tick-Led config g (some sent_at) now sent l r =
      if_elim Led (leb config.heartbeat_timeout (now - sent_at)) (λ _. leave-Led config l r)
        (λ _. r)

  close_and_leave-Led :
      (config : Config) (in_time : Bool) (l : Connection Event)
      → Led l
      → Led (close_and_leave config in_time l)
  unfolding close_and_leave
  close_and_leave-Led config true l r = leave-Led config l r
  close_and_leave-Led config false l r =
      leave-Led config (record l { cell = mark_disconnected l.cell }) (disconnect r)

  deliver-Led :
      (config : Config) (in_time : Bool) (range : TransportSequenceRange) (batch : EventBatch Event)
      (evidence : RawFrame) (l : Connection Event)
      → raw_evidence batch ≡ some evidence
      → Led l
      → (m : Connection Event) × (deliver config in_time range batch l ≡ some m) × Led m
  unfolding deliver perform
  deliver-Led config in_time range batch evidence l e r =
      let kept : Reach c (retain_raw_frame evidence l.cell).0 = next r (retains evidence) in
      let d = mark_enqueued range (retain_raw_frame evidence l.cell).0 in
      let queued : Reach c d = next kept (enqueues range) in
      rw (e, deliver)
        (
          _,
          refl,
          if_elim Led (not (retain_raw_frame evidence l.cell).1)
              (λ _.
                leave-Led config
                  (record l { cell = mark_evidence_gap (retain_raw_frame evidence l.cell).0 })
                  (lose_evidence kept))
              (λ _.
                if_elim Led (is_some batch.frame_gap)
                  (λ _.
                    close_and_leave-Led config in_time
                      (record l { cell = mark_schema_gap d; queue = batch ∷ l.queue })
                      (next queued schema_gap))
                  (λ _. queued)),
        )

  pub accept-Led :
      (config : Config) (g : ℕ) (receipt : FrameReceipt) (in_time : Bool) (batch : EventBatch Event)
      (l : Connection Event)
      → Led l
      → (m : Connection Event) × (accept config g receipt in_time batch l ≡ some m) × Led m
  unfolding accept perform
  accept-Led config g receipt in_time batch l r =
      let width = sequence_width batch in
      let d = (reserve_transport_sequences width l.cell).0 in
      let ranged : Reach c d = next r (reserves_transport_sequences width) in
      let numbered : Reach c (reserve_raw_frame_sequence d).0 =
        next ranged reserves_frame_sequence in
      elim (Option-cases (reserve_transport_sequences width l.cell).1) [
        | inl e ↦
            rw (e, accept)
              (
                _,
                refl,
                close_and_leave-Led config in_time
                    (record l { cell = release_permit (mark_delivery_gap d) })
                    (next (next ranged delivery_gap) releases_capacity),
              )
        | inr (range, e) ↦ elim (Option-cases (reserve_raw_frame_sequence d).1) [
          | inl n ↦
              rw (e, n, accept)
                (
                  _,
                  refl,
                  leave-Led config
                      (record l {
                        cell = release_permit (mark_evidence_gap (reserve_raw_frame_sequence d).0);
                      })
                      (next (lose_evidence numbered) releases_capacity),
                )
          | inr (f, n) ↦
              let read = snapshot (reserve_raw_frame_sequence d).0 in
              let t = with_transport_context batch receipt f range.first g read.1.gap_version in
              let (evidence, found) =
                context_evidence batch l.cell range receipt f g read.1.gap_version e in
              rw (e, n, accept)
                (deliver-Led config in_time range t evidence (record l { cell = read.0 }) found
                  (next numbered reads_snapshot))
        ]
      ]
