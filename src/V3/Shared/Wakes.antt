-- ===== src/V3/Shared/Wakes.antt =====
-- The tasks that wait for readiness (src/v3/shared.rs).
use mathlib.Core.Option.{none, some}
use ntex_mqtt.Base.{
  ℕ, suc, zero, ◌-◌, ◌≡◌, refl, ap, ◌∙◌, Bool, List, [], ◌∷◌, ◌++◌, map, ltb, if◌then◌else◌, length,
  take, drop, arith, Bool-cases, inl, inr,
}
use ntex_mqtt.V3.Shared.State.{
  Effect, woken, MqttShared, credit, is_ready, wake_one, wake_many, set_cap,
  disable_wr_backpressure,
}
use ntex_mqtt.V3.Shared.Operations.{wait_readiness}

module _ (alive : ℕ → Bool) where
  -- The tasks that still wait.
  abbrev pub live : List ℕ → List ℕ
  live [] = []
  live (w ∷ ws) = let rest = live ws in if alive w then w ∷ rest else rest

  wake_many_effects :
      (n : ℕ) (ws : List ℕ) → (wake_many alive n ws).1 ≡ map woken (take n (live ws))
  unfolding wake_many
  wake_many_effects zero ws = refl
  wake_many_effects (suc n) [] = refl
  wake_many_effects (suc n) (w ∷ ws) = elim (Bool-cases (alive w)) [
    | inl here ↦ rw here (ap (◌∷◌ (woken w)) (wake_many_effects n ws))
    | inr gone ↦ rw gone (wake_many_effects (suc n) ws)
  ]

  wake_many_left : (n : ℕ) (ws : List ℕ) → live (wake_many alive n ws).0 ≡ drop n (live ws)
  unfolding wake_many
  wake_many_left zero ws = refl
  wake_many_left (suc n) [] = refl
  wake_many_left (suc n) (w ∷ ws) = elim (Bool-cases (alive w)) [
    | inl here ↦ rw here (wake_many_left n ws)
    | inr gone ↦ rw gone (wake_many_left (suc n) ws)
  ]

  wake_one-wake_many : (ws : List ℕ) → wake_one alive ws ≡ wake_many alive 1 ws
  unfolding wake_one wake_many
  wake_one-wake_many [] = refl
  wake_one-wake_many (w ∷ ws) = elim (Bool-cases (alive w)) [
    | inl here ↦ rw here refl
    | inr gone ↦ rw gone (wake_one-wake_many ws)
  ]

  pub wake_one_effects : (ws : List ℕ) → (wake_one alive ws).1 ≡ map woken (take 1 (live ws))
  wake_one_effects ws =
      ap (λ (r : List ℕ × List Effect). r.1) (wake_one-wake_many ws) ∙ wake_many_effects 1 ws

  -- Of the tasks that still wait, `set_cap` wakes as many as the new limit, however many packets
  -- are in flight, and `disable_wr_backpressure` as many as there is credit for: the ones that have
  -- waited longest, in their order. The others go on waiting, in their order, and no other task is
  -- woken.
  pub set_cap-disable_wr_backpressure :
      (cap : ℕ) (s : MqttShared)
      → ((set_cap alive cap s).1 ≡ map woken (take cap (live s.waiters)))
        × (live (set_cap alive cap s).0.waiters ≡ drop cap (live s.waiters))
        × ((disable_wr_backpressure alive s).1 ≡ map woken (take (credit s) (live s.waiters)))
        × (live (disable_wr_backpressure alive s).0.waiters ≡ drop (credit s) (live s.waiters))
  unfolding set_cap disable_wr_backpressure credit
  set_cap-disable_wr_backpressure cap s = (
    wake_many_effects cap s.waiters,
    wake_many_left cap s.waiters,
    elim (Bool-cases (ltb (length s.inflight) s.cap)) [
      | inl room ↦ rw room (wake_many_effects (s.cap - length s.inflight) s.waiters)
      | inr full ↦
          let none_free : s.cap - length s.inflight ≡ 0 = ground arith in rw (full, none_free) refl
    ],
    elim (Bool-cases (ltb (length s.inflight) s.cap)) [
      | inl room ↦ rw room (wake_many_left (s.cap - length s.inflight) s.waiters)
      | inr full ↦
          let none_free : s.cap - length s.inflight ≡ 0 = ground arith in rw (full, none_free) refl
    ],
  )

-- `wait_readiness` makes a task wait exactly when `is_ready` answers false, behind all the others.
pub wait_readiness-is_ready :
    (tx : ℕ) (s : MqttShared)
    → wait_readiness tx s
      ≡ (if is_ready s then (s, none) else (record s { waiters = s.waiters ++ (tx ∷ []) }, some tx))
unfolding wait_readiness is_ready credit
wait_readiness-is_ready tx s = ground arith
