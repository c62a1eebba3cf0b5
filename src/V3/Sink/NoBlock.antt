-- ===== src/V3/Sink/NoBlock.antt =====
-- Sending with QoS 1 without waiting (src/v3/sink.rs, `send_at_least_once_no_block`).
use mathlib.Core.Option.{Option, none, some}
use mathlib.Core.Path.{subst}
use ntex_mqtt.Base.{
  ℕ, ◌+◌, ◌<◌, ◌≤◌, ◌≡◌, refl, sym, ap, ◌∙◌, Bool, true, false, List, [], ◌∷◌, ◌++◌, leb, ◌==◌,
  length, length-append, Result, ok, err, panic, arith, Bool-cases, inl, inr, ◌⊎◌,
}
use ntex_mqtt.Wire.{EncodeError}
use ntex_mqtt.Types.{QoS}
use ntex_mqtt.V3.Packet.{Packet, Publish}
use ntex_mqtt.V3.Shared.State.{
  Waiting, publish_type, Effect, encoded, MqttShared, has_id, next_id, is_ready, credit,
}
use ntex_mqtt.V3.Shared.Operations.{wait_packet_response_no_block}
use ntex_mqtt.V3.Sink.{
  Progress, on_readiness, on_ack, finished, Started, choose_id, with_id, with_qos, no_block_with,
  send_at_least_once_no_block,
}
use ntex_mqtt.V3.Sink.Refines.{written}

abbrev pub unanswered : ℕ → Waiting
unanswered id = record { id = id; tx = none; tp = publish_type }

-- The id that is chosen, and a state with the same queues, limit and callback.
record IsChosen (id : Option ℕ) (s : MqttShared) : Type 0 where
  state : MqttShared
  number : ℕ
  chosen : choose_id id s ≡ ok (state, number)
  queue : state.inflight ≡ s.inflight
  ids : state.inflight_ids ≡ s.inflight_ids
  limit : state.cap ≡ s.cap
  flag : state.on_publish_ack_flag ≡ s.on_publish_ack_flag

choose_id-IsChosen : (id : Option ℕ) (s : MqttShared) → s.inflight_idx < 65535 → IsChosen id s
unfolding next_id
choose_id-IsChosen (some id) s h = record {
  state = s;
  number = id;
  chosen = refl;
  queue = refl;
  ids = refl;
  limit = refl;
  flag = refl;
}
choose_id-IsChosen none s h =
    let fits : leb 65536 (s.inflight_idx + 1) ≡ false = ground arith in
    elim (Bool-cases (s.inflight_idx + 1 == 65535)) [
      | inl last ↦ record {
        state = record s { inflight_idx = 0 };
        number = 65535;
        chosen = rw (fits, last) refl;
        queue = refl;
        ids = refl;
        limit = refl;
        flag = refl;
      }
      | inr more ↦ record {
        state = record s { inflight_idx = s.inflight_idx + 1 };
        number = s.inflight_idx + 1;
        chosen = rw (fits, more) refl;
        queue = refl;
        ids = refl;
        limit = refl;
        flag = refl;
      }
    ]

-- What a call has done, by how it ended. A panic has one of the two reasons that the documentation
-- of the method names, or it is one of `io.encode`.
module _ (io_encode : Packet → Result EncodeError (Unit {0})) where
  abbrev pub Ends : Publish → MqttShared → Started (Unit {0}) → Progress (Unit {0}) → Type 0
  Ends p s o (finished (ok u)) =
      (id : ℕ) × (has_id id s.inflight_ids ≡ false)
      × (o.effects ≡ encoded (with_id io_encode id p) (ok tt) ∷ [])
      × (o.shared.inflight ≡ s.inflight ++ (unanswered id ∷ []))
      × (length o.shared.inflight ≤ s.cap)
  Ends p s o (finished (err e)) = (written o.effects ≡ []) × (o.shared.inflight ≡ s.inflight)
  Ends p s o (finished panic) =
      (is_ready s ≡ false)
      ⊎ (s.on_publish_ack_flag ≡ false)
      ⊎ ((id : ℕ) × (io_encode (with_id io_encode id p) ≡ panic))
  Ends p s o (on_readiness tx) = ⊥
  Ends p s o (on_ack tx) = ⊥

  abbrev tried : ℕ → Publish → Result EncodeError (Unit {0}) → List Effect
  tried id p a = encoded (with_id io_encode id p) a ∷ []

  encoded-Ends :
      (p : Publish) (s t : MqttShared) (id : ℕ)
      → t.inflight ≡ s.inflight
      → t.inflight_ids ≡ s.inflight_ids
      → t.on_publish_ack_flag ≡ s.on_publish_ack_flag
      → length s.inflight < s.cap
      → let o = no_block_with io_encode p (ok (t, id)) s in Ends p s o o.progress
  unfolding wait_packet_response_no_block
  encoded-Ends p s t id queue ids flag room = elim (Bool-cases (has_id id t.inflight_ids)) [
    | inl used ↦ rw used (refl, queue)
    | inr free ↦
        let free_here : has_id id s.inflight_ids ≡ false = rw (← ids) free in
        let joined : t.inflight ++ (unanswered id ∷ []) ≡ s.inflight ++ (unanswered id ∷ []) =
          ap (λ (l : List Waiting). l ++ (unanswered id ∷ [])) queue in
        let bound : length (t.inflight ++ (unanswered id ∷ [])) ≤ s.cap =
          rw joined (omega (arith, room, length-append s.inflight (unanswered id ∷ []))) in
        elim (io_encode (with_id io_encode id p))
            as (λ r.
              io_encode (with_id io_encode id p) ≡ r
              → let o = no_block_with io_encode p (ok (t, id)) s in Ends p s o o.progress) [
                | ok u ↦ λ e. elim (Bool-cases t.on_publish_ack_flag) [
                  | inl set ↦ rw (free, e, set) (id, free_here, ap (tried id p) e, joined, bound)
                  | inr unset ↦ rw (free, e, unset) (inr (inl (sym flag ∙ unset)))
                ]
                | err x ↦ λ e. rw (free, e) (ap (λ a. written (tried id p a)) e, queue)
                | panic ↦ λ e. rw (free, e) (inr (inr (id, e)))
              ]
          refl
  ]

  ready_room : (s : MqttShared) → is_ready s ≡ true → length s.inflight < s.cap
  unfolding is_ready credit
  ready_room s h = ground arith

  chosen-Ends :
      (p : Publish) (s : MqttShared)
      → IsChosen p.packet_id s
      → length s.inflight < s.cap
      → let o = no_block_with io_encode p (choose_id p.packet_id s) s in Ends p s o o.progress
  chosen-Ends p s c room =
      subst
        (λ (r : Result (Unit {0}) (MqttShared × ℕ)).
          Ends p s (no_block_with io_encode p r s) (no_block_with io_encode p r s).progress)
        (sym c.chosen) (encoded-Ends p s c.state c.number c.queue c.ids c.flag room)

  -- While the last id that was given out is below 65535, a call that sends a QoS 1 packet without
  -- waiting ends at once. When it succeeds, the packet was encoded, once and with an id that was
  -- free, an entry for the callback joined the queue under that id behind the entries that are
  -- there, and the limit on packets in flight is still kept. When it answers an error, no call of
  -- `io.encode` succeeded and the entries in flight are as they were. It panics only when the sink
  -- is not ready, the callback is not set, or `io.encode` panics at the packet.
  pub send_at_least_once_no_block-Ends :
      (closed : Bool) (p : Publish) (s : MqttShared)
      → s.inflight_idx < 65535
      → let o = send_at_least_once_no_block io_encode closed p s in
        Ends (with_qos QoS.at_least_once p) s o o.progress
  unfolding send_at_least_once_no_block
  send_at_least_once_no_block-Ends true p s h = (refl, refl)
  send_at_least_once_no_block-Ends false p s h = elim (Bool-cases (is_ready s)) [
    | inl ready ↦ rw ready (
        chosen-Ends (with_qos QoS.at_least_once p) s (choose_id-IsChosen p.packet_id s h)
          (ready_room s ready))
    | inr busy ↦ rw busy (inl busy)
  ]
