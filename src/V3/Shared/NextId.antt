-- ===== src/V3/Shared/NextId.antt =====
-- The packet ids that `next_id` makes (src/v3/shared.rs).
use ntex_mqtt.Base.{
  ℕ, suc, zero, ◌+◌, ◌%◌, ◌<◌, ◌≡◌, ◌≢◌, refl, ap, ◌∙◌, Bool, false, leb, ◌==◌, arith, Result, ok,
  and_then, Bool-cases, inl, inr,
}
use ntex_mqtt.V3.Shared.State.{MqttShared, new, next_id}

-- One call, at an index below 65535.
next_id-ok :
    (s : MqttShared)
    → s.inflight_idx < 65535
    → next_id s ≡ ok (record s { inflight_idx = (s.inflight_idx + 1) % 65535 }, s.inflight_idx + 1)
unfolding next_id
next_id-ok s h = elim (Bool-cases (s.inflight_idx + 1 == 65535)) [
  | inl last ↦
      let start : (s.inflight_idx + 1) % 65535 ≡ 0 = ground arith in
      let is : s.inflight_idx + 1 ≡ 65535 = ground arith in
      let fits : leb 65536 (s.inflight_idx + 1) ≡ false = ground arith in
      rw (fits, last, start, is) refl
  | inr more ↦
      let up : (s.inflight_idx + 1) % 65535 ≡ s.inflight_idx + 1 = ground arith in
      let fits : leb 65536 (s.inflight_idx + 1) ≡ false = ground arith in rw (fits, more, up) refl
]

-- The id that the call behind `n` other calls answers.
abbrev pub nth_id : ℕ → MqttShared → Result (Unit {0}) ℕ
nth_id zero s = and_then (next_id s) (λ p. ok p.1)
nth_id (suc n) s = and_then (next_id s) (λ p. nth_id n p.0)

nth_id-ok :
    (n : ℕ) (s : MqttShared)
    → s.inflight_idx < 65535
    → nth_id n s ≡ ok ((s.inflight_idx + n) % 65535 + 1)
nth_id-ok zero s h = rw (next_id-ok s h) (ap (λ (k : ℕ). ok k) (omega arith))
nth_id-ok (suc n) s h =
    let t : MqttShared = record s { inflight_idx = (s.inflight_idx + 1) % 65535 } in
    rw (next_id-ok s h) (nth_id-ok n t (omega arith) ∙ ap (λ (k : ℕ). ok k) (omega arith))

-- On a new connection `next_id` never panics and answers 1, 2, … up to 65535, and then the same
-- again: call number `n`, from 0, answers `n` modulo 65535 plus 1. Any two of 65535 calls in a row
-- answer different ids.
pub nth_id-cycle :
    (client : Bool) (m n : ℕ)
    → m < n
    → n < m + 65535
    → (nth_id n (new client) ≡ ok (n % 65535 + 1)) × (nth_id m (new client) ≢ nth_id n (new client))
unfolding new
nth_id-cycle client m n h k =
    let first = nth_id-ok m (new client) (omega arith) in
    let second = nth_id-ok n (new client) (omega arith) in
    (
      second ∙ ap (λ (k : ℕ). ok k) (omega arith),
      λ e.
          let same : (0 + m) % 65535 + 1 ≡ (0 + n) % 65535 + 1 = cc (first, second, e) in
          absurd (omega arith),
    )
