-- ===== src/InFlight.antt =====
-- The limit on concurrent requests (src/inflight.rs).
-- `u16` and `usize` (64 bits) keep their wrap-around. The `LocalWaker` is not modelled: an
-- operation says whether it registers the task or wakes it.
pub mod Limits
mod Tests
use ntex_mqtt.Base.{
  ℕ, suc, ◌+◌, ◌-◌, ◌%◌, ◌^◌, ◌<◌, ◌≡◌, refl, Bool, true, false, ◌&&◌, ◌||◌, List, [], ◌∷◌, ◌++◌,
  ltb, leb, ◌==◌, if◌then◌else◌,
}

pub record CounterInner : Type 0 where
  pub max_cap : ℕ
  pub cur_cap : ℕ
  pub max_size : ℕ
  pub cur_size : ℕ

-- What an operation does to the task that waits for readiness.
pub data Waker : Type 0 where
  idle register wake : Waker

-- `Counter::new`.
pub new : ℕ → ℕ → CounterInner
new max_cap max_size = record { max_cap = max_cap; cur_cap = 0; max_size = max_size; cur_size = 0 }

pub inc : CounterInner → ℕ → CounterInner
inc c size = record c {
  cur_cap = (c.cur_cap + 1) % 2 ^ 16;
  cur_size = (c.cur_size + size) % 2 ^ 64;
}

pub dec : CounterInner → ℕ → CounterInner × Waker
dec c size =
    let num = c.cur_cap in
    let cur_size = c.cur_size in
    let new_size = (cur_size + 2 ^ 64 - size) % 2 ^ 64 in
    (
      record c { cur_cap = (num + 2 ^ 16 - 1) % 2 ^ 16; cur_size = new_size },
      if num == c.max_cap || (ltb c.max_size cur_size && leb new_size c.max_size)
          then wake
          else idle,
    )

pub available : CounterInner → Bool × Waker
available c =
    if (c.max_cap == 0 || ltb c.cur_cap c.max_cap) && (c.max_size == 0 || leb c.cur_size c.max_size)
    then (true, idle)
    else (false, register)

-- `InFlightService`: the counter, and the sizes of the guards that its running calls hold.
pub record InFlightService : Type 0 where
  pub count : CounterInner
  pub guards : List ℕ

-- The size that `call` counts for a request of this size.
pub counted_size : CounterInner → ℕ → ℕ
counted_size c size = if ltb 0 c.max_size then size else 0

-- A call starts when `ready` has returned, and its guard is dropped when it ends, in any order.
-- `SizedRequest::size` is a `u32`.
pub data Step : InFlightService → InFlightService → Type 0 where
  call :
      (s : InFlightService) (size : ℕ)
      → size < 2 ^ 32
      → (available s.count).0 ≡ true
      → Step s (record {
        count = inc s.count (counted_size s.count size);
        guards = counted_size s.count size ∷ s.guards;
      })
  finish :
      (s : InFlightService) (before after : List ℕ) (size : ℕ)
      → s.guards ≡ before ++ (size ∷ after)
      → Step s (record { count = (dec s.count size).0; guards = before ++ after })

pub data Reach (s : InFlightService) : InFlightService → Type 0 where
  here : Reach s s
  next : {t u : InFlightService} → Reach s t → Step t u → Reach s u
