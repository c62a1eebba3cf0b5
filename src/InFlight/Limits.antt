-- ===== src/InFlight/Limits.antt =====
-- The counter of running calls and its limits (src/inflight.rs).
use ntex_mqtt.Base.{
  ℕ, suc, ◌+◌, ◌*◌, ◌^◌, ◌<◌, ◌≤◌, ◌≡◌, refl, true, false, List, [], ◌∷◌, ◌++◌, length,
  length-append, arith, ◌⊎◌, All,
}
use ntex_mqtt.InFlight.{
  CounterInner, wake, new, inc, dec, available, InFlightService, counted_size, Step, call, finish,
  Reach, here, next,
}

-- When `available` answers false of a counter whose `cur_cap` is a `u16`, and true of what `dec`
-- makes of it, then `dec` wakes the waiting task.
pub dec_wakes :
    (c : CounterInner) (size : ℕ)
    → c.cur_cap < 2 ^ 16
    → (available c).0 ≡ false
    → (available (dec c size).0).0 ≡ true
    → (dec c size).1 ≡ wake
unfolding available dec
dec_wakes c size h before after = ground arith

abbrev pub sum : List ℕ → ℕ
sum [] = 0
sum (x ∷ xs) = x + sum xs

sum-append : (xs ys : List ℕ) → sum (xs ++ ys) ≡ sum xs + sum ys
sum-append [] ys = omega arith
sum-append (x ∷ xs) ys = omega (arith, sum-append xs ys)

-- The calls but the newest, which stands first.
abbrev pub older : List ℕ → ℕ
older [] = 0
older (x ∷ xs) = sum xs

older-remove : (xs : List ℕ) (x : ℕ) (ys : List ℕ) → older (xs ++ ys) ≤ older (xs ++ (x ∷ ys))
older-remove [] x [] = omega arith
older-remove [] x (y ∷ ys) = omega arith
older-remove (a ∷ xs) x ys = omega (arith, sum-append xs ys, sum-append xs (x ∷ ys))

-- The sizes are `u32`, the limit is a positive `u16`.
pub record Inv (max_cap max_size : ℕ) (s : InFlightService) : Type 0 where
  pub cap_kept : s.count.max_cap ≡ max_cap
  pub size_kept : s.count.max_size ≡ max_size
  pub cap_counts : s.count.cur_cap ≡ length s.guards
  pub size_counts : s.count.cur_size ≡ sum s.guards
  pub cap_bound : length s.guards ≤ max_cap
  pub size_bound : (max_size ≡ 0) ⊎ (older s.guards ≤ max_size)
  pub all_small : All (λ g. g < 2 ^ 32) s.guards

sum-le : (xs : List ℕ) → All (λ g. g < 2 ^ 32) xs → sum xs ≤ 2 ^ 32 * length xs
sum-le [] h = omega arith
sum-le (x ∷ xs) h = omega (arith, sum-le xs h.1)

All-remove :
    (xs : List ℕ) (x : ℕ) (ys : List ℕ)
    → All (λ g. g < 2 ^ 32) (xs ++ (x ∷ ys))
    → All (λ g. g < 2 ^ 32) (xs ++ ys)
All-remove [] x ys h = h.1
All-remove (a ∷ xs) x ys h = (h.0, All-remove xs x ys h.1)

module _ (max_cap max_size : ℕ) (positive : 0 < max_cap) (small : max_cap < 2 ^ 16) where
  call-Inv :
      {s : InFlightService} (size : ℕ)
      → size < 2 ^ 32
      → (available s.count).0 ≡ true
      → Inv max_cap max_size s
      → Inv max_cap max_size (record {
        count = inc s.count (counted_size s.count size);
        guards = counted_size s.count size ∷ s.guards;
      })
  unfolding inc counted_size available
  call-Inv {s} size h free v = record {
    cap_kept = v.cap_kept;
    size_kept = v.size_kept;
    cap_counts = ground arith;
    size_counts = ground (arith, sum-le s.guards v.all_small);
    cap_bound = ground arith;
    size_bound = ground arith;
    all_small = ground arith;
  }

  finish-Inv :
      {s : InFlightService} (before after : List ℕ) (size : ℕ)
      → s.guards ≡ before ++ (size ∷ after)
      → Inv max_cap max_size s
      → Inv max_cap max_size (record { count = (dec s.count size).0; guards = before ++ after })
  unfolding dec
  finish-Inv {s} before after size e v = record {
    cap_kept = v.cap_kept;
    size_kept = v.size_kept;
    cap_counts = omega (arith, count);
    size_counts = omega (arith, total, sum-le s.guards v.all_small);
    cap_bound = omega (arith, count);
    size_bound = omega (arith, rw e at v.size_bound, older-remove before size after);
    all_small = All-remove before size after (rw e at v.all_small);
  }
    where
      count : length s.guards ≡ suc (length (before ++ after))
      count = rw e (omega (arith, length-append before (size ∷ after), length-append before after))

      total : sum s.guards ≡ size + sum (before ++ after)
      total = rw e (omega (arith, sum-append before (size ∷ after), sum-append before after))

  Step-Inv : {s t : InFlightService} → Step s t → Inv max_cap max_size s → Inv max_cap max_size t
  Step-Inv (call s size h free) v = call-Inv size h free v
  Step-Inv (finish s before after size e) v = finish-Inv before after size e v

  new-Inv : Inv max_cap max_size (record { count = new max_cap max_size; guards = [] })
  unfolding new
  new-Inv = record {
    cap_kept = refl;
    size_kept = refl;
    cap_counts = refl;
    size_counts = refl;
    cap_bound = omega arith;
    size_bound = omega arith;
    all_small = tt;
  }

  Reach-Inv : {s t : InFlightService} → Inv max_cap max_size s → Reach s t → Inv max_cap max_size t
  Reach-Inv v here = v
  Reach-Inv v (next r st) = Step-Inv st (Reach-Inv v r)

  -- From a new service with a positive `u16` limit on calls, in every state that calls which wait
  -- for `ready` and guards dropped in any order can reach: `cur_cap` is the number of the running
  -- calls and stays within the limit, `cur_size` is the sum of their sizes, and with a size limit
  -- the sizes of the running calls but the newest add up to no more than it.
  pub Reach-limits :
      {t : InFlightService}
      → Reach (record { count = new max_cap max_size; guards = [] }) t
      → (t.count.cur_cap ≡ length t.guards)
        × (length t.guards ≤ max_cap)
        × (t.count.cur_size ≡ sum t.guards)
        × ((max_size ≡ 0) ⊎ (older t.guards ≤ max_size))
  Reach-limits r =
      let v = Reach-Inv new-Inv r in (v.cap_counts, v.cap_bound, v.size_counts, v.size_bound)

  -- From a new service with a positive `u16` limit on calls, in every state that calls which wait
  -- for `ready` and guards dropped in any order can reach: when no call is running, the service is
  -- ready, whatever the calls and their order were.
  pub Reach-drained :
      {t : InFlightService}
      → Reach (record { count = new max_cap max_size; guards = [] }) t
      → t.guards ≡ []
      → (available t.count).0 ≡ true
  unfolding available
  Reach-drained {t} r e =
      let v = Reach-Inv new-Inv r in
      let none_running : length t.guards ≡ 0 = rw e refl in
      let no_size : sum t.guards ≡ 0 = rw e refl in
      ground (arith, v.cap_counts, v.size_counts, v.cap_kept, v.size_kept)
