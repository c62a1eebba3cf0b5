-- ===== src/Dispatch.antt =====
-- The queue of responses of the I/O dispatcher (src/io.rs).
-- A service answers with a packet, with nothing, or with an error. `usize` has 64 bits, and the
-- index arithmetic wraps, as `wrapping_add` and `wrapping_sub` do. What `io.encode` answers is
-- `io_encode`: an error, or none.
pub mod Released
pub mod Answers
pub mod Order
mod Tests
use mathlib.Core.Option.{Option, none, some}
use ntex_mqtt.Base.{
  ℕ, ◌+◌, ◌-◌, ◌%◌, ◌^◌, ◌&&◌, Bool, true, false, List, [], ◌∷◌, ◌++◌, ltb, ◌==◌, if◌then◌else◌,
  length, is_empty, Result, ok, err, panic,
}

module _ (E X I : Type 0) where
  -- `Result<S::Response, S::Error>`.
  pub data Answer : Type 0 where
    failed : E → Answer
    silent : Answer
    reply : I → Answer

  pub data ServiceResult : Type 0 where
    pending : ServiceResult
    ready : Answer → ServiceResult

  pub data IoDispatcherError : Type 0 where
    encoder : X → IoDispatcherError
    service : E → IoDispatcherError

  -- The last error, and the packets that were encoded into the connection, in order.
  pub record Output : Type 0 where
    pub error : Option IoDispatcherError
    pub written : List I

  -- `DispatcherState`.
  pub record DispatcherState : Type 0 where
    pub output : Output
    pub base : ℕ
    pub queue : List ServiceResult

  abbrev pub new_output : Output
  new_output = record { error = none; written = [] }

  pub new : DispatcherState
  new = record { output = new_output; base = 0; queue = [] }

  abbrev pub wrapping_add : ℕ → ℕ → ℕ
  wrapping_add a b = (a + b) % 2 ^ 64

  abbrev pub wrapping_sub : ℕ → ℕ → ℕ
  wrapping_sub a b = (a + 2 ^ 64 - b) % 2 ^ 64

  abbrev pub set_at : ℕ → ServiceResult → List ServiceResult → List ServiceResult
  set_at n r [] = []
  set_at ℕ.zero r (x ∷ xs) = r ∷ xs
  set_at (ℕ.suc n) r (x ∷ xs) = x ∷ set_at n r xs

  abbrev pub pop_front : List ServiceResult → List ServiceResult
  pop_front [] = []
  pop_front (x ∷ xs) = xs

  module _ (io_encode : I → Option X) where
    abbrev pub handle_item : Answer → Output → Output
    handle_item (failed e) o = record o { error = some (service e) }
    handle_item silent o = o
    handle_item (reply i) o = elim (io_encode i) [
      | none ↦ record o { written = o.written ++ (i ∷ []) }
      | some x ↦ record o { error = some (encoder x) }
    ]

    -- `while let Some(item) = self.queue.front_mut().and_then(|v| v.take())`.
    pub check_remaining : List ServiceResult → ℕ → Output → DispatcherState
    check_remaining [] base o = record { output = o; base = base; queue = [] }
    check_remaining (pending ∷ q) base o = record { output = o; base = base; queue = pending ∷ q }
    check_remaining (ready r ∷ q) base o = check_remaining q (wrapping_add base 1) (handle_item r o)

    -- The state, and whether the connection's task is woken.
    pub handle_result :
        Answer → ℕ → Bool → DispatcherState → Result (Unit {0}) (DispatcherState × Bool)
    unfolding check_remaining
    handle_result item response_idx wake s =
        let idx = wrapping_sub response_idx s.base in
        let rest =
          check_remaining (pop_front s.queue) (wrapping_add s.base 1) (handle_item item s.output) in
        if idx == 0
        then ok (rest, wake && is_empty rest.queue)
        else if ltb idx (length s.queue)
        then ok (record s { queue = set_at idx (ready item) s.queue }, false)
        else panic

    -- `call_service`: a call whose future answers at the first poll, when no other future is held;
    -- any other call is pending, and its answer comes to `handle_result` with the index.
    pub call_answered : Answer → DispatcherState → DispatcherState
    call_answered r s =
        if is_empty s.queue
        then record s { output = handle_item r s.output }
        else record s { queue = s.queue ++ (ready r ∷ []) }

    pub call_pending : DispatcherState → DispatcherState × ℕ
    call_pending s =
        (record s { queue = s.queue ++ (pending ∷ []) }, wrapping_add s.base (length s.queue))
