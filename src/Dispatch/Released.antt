-- ===== src/Dispatch/Released.antt =====
-- The answers that may leave: those before the first call that still waits.
use mathlib.Core.Option.{Option}
use ntex_mqtt.Base.{
  ℕ, ◌+◌, ◌%◌, ◌^◌, ◌<◌, ◌≡◌, refl, sym, ap, ◌∙◌, Bool, true, false, ◌&&◌, List, [], ◌∷◌, ◌++◌, map,
  not, length, is_empty, arith,
}
use ntex_mqtt.Dispatch.{
  Answer, ServiceResult, pending, ready, Output, wrapping_add, set_at, handle_item, check_remaining,
}

module _ {E X I : Type 0} where
  -- The answers before the first call that is pending.
  abbrev pub released : List (ServiceResult E X I) → List (Answer E X I)
  released [] = []
  released (pending ∷ cs) = []
  released (ready r ∷ cs) = r ∷ released cs

  abbrev pub starts_pending : List (ServiceResult E X I) → Bool
  starts_pending [] = true
  starts_pending (pending ∷ cs) = true
  starts_pending (ready r ∷ cs) = false

  abbrev pub unreleased : List (ServiceResult E X I) → List (ServiceResult E X I)
  unreleased [] = []
  unreleased (pending ∷ cs) = pending ∷ cs
  unreleased (ready r ∷ cs) = unreleased cs

  pub unreleased_front : (q : List (ServiceResult E X I)) → starts_pending (unreleased q) ≡ true
  unreleased_front [] = refl
  unreleased_front (pending ∷ q) = refl
  unreleased_front (ready r ∷ q) = unreleased_front q

  pub released-unreleased :
      (q : List (ServiceResult E X I)) → q ≡ map ready (released q) ++ unreleased q
  released-unreleased [] = refl
  released-unreleased (pending ∷ q) = refl
  released-unreleased (ready r ∷ q) = ap (◌∷◌ (ready r)) (released-unreleased q)

  pub map_ready_append :
      (xs ys : List (Answer E X I))
      → ◌≡◌ {A = List (ServiceResult E X I)} (map ready (xs ++ ys)) (map ready xs ++ map ready ys)
  map_ready_append [] ys = refl
  map_ready_append (x ∷ xs) ys = ap (◌∷◌ (ready x)) (map_ready_append xs ys)

  pub length-map-ready :
      (xs : List (Answer E X I)) → length {A = ServiceResult E X I} (map ready xs) ≡ length xs
  length-map-ready [] = refl
  length-map-ready (x ∷ xs) = omega (arith, length-map-ready xs)

  pub released_past :
      (past : List (Answer E X I)) (q : List (ServiceResult E X I))
      → starts_pending q ≡ true
      → released (map ready past ++ q) ≡ past
  released_past [] [] h = refl
  released_past [] (pending ∷ q) h = refl
  released_past [] (ready r ∷ q) h = cc
  released_past (x ∷ past) q h = ap (◌∷◌ x) (released_past past q h)

  -- The pending call stands behind the answers that have left.
  pub locate :
      (past : List (Answer E X I)) (q before after : List (ServiceResult E X I))
      → map ready past ++ q ≡ before ++ (pending ∷ after)
      → (mid : List (ServiceResult E X I)) × (before ≡ map ready past ++ mid)
        × (q ≡ mid ++ (pending ∷ after))
  locate [] q before after e = (before, refl, e)
  locate (r ∷ past) q [] after e = cc
  locate (r ∷ past) q (b ∷ before) after e =
      let head : ready r ≡ b = cc e in
      let tail : map ready past ++ q ≡ before ++ (pending ∷ after) = cc e in
      let (mid, front, back) = locate past q before after tail in
      (
        mid,
        ap (λ (c : ServiceResult E X I). c ∷ before) (sym head) ∙ ap (◌∷◌ (ready r)) front,
        back,
      )

  pub starts_pending_head :
      (m : ServiceResult E X I) (xs ys : List (ServiceResult E X I))
      → starts_pending (m ∷ xs) ≡ starts_pending (m ∷ ys)
  starts_pending_head pending xs ys = refl
  starts_pending_head (ready r) xs ys = refl

  pub set_at_append :
      (mid after : List (ServiceResult E X I)) (x : ServiceResult E X I)
      → set_at E X I (length mid) x (mid ++ (pending ∷ after)) ≡ mid ++ (x ∷ after)
  set_at_append [] after x = refl
  set_at_append (m ∷ mid) after x = ap (◌∷◌ m) (set_at_append mid after x)

  pub starts_pending_append :
      (q : List (ServiceResult E X I)) (c : ServiceResult E X I)
      → starts_pending q ≡ true
      → (is_empty q && not (starts_pending (c ∷ []))) ≡ false
      → starts_pending (q ++ (c ∷ [])) ≡ true
  starts_pending_append [] c h k = ground arith
  starts_pending_append (pending ∷ q) c h k = refl
  starts_pending_append (ready r ∷ q) c h k = cc

module _ {E X I : Type 0} (io_encode : I → Option X) where
  abbrev pub handle_all : List (Answer E X I) → Output E X I → Output E X I
  handle_all [] o = o
  handle_all (r ∷ rs) o = handle_all rs (handle_item E X I io_encode r o)

  pub check_remaining_output :
      (q : List (ServiceResult E X I)) (base : ℕ) (o : Output E X I)
      → (check_remaining E X I io_encode q base o).output ≡ handle_all (released q) o
  unfolding check_remaining
  check_remaining_output [] base o = refl
  check_remaining_output (pending ∷ q) base o = refl
  check_remaining_output (ready r ∷ q) base o = check_remaining_output q _ _

  pub check_remaining_queue :
      (q : List (ServiceResult E X I)) (base : ℕ) (o : Output E X I)
      → (check_remaining E X I io_encode q base o).queue ≡ unreleased q
  unfolding check_remaining
  check_remaining_queue [] base o = refl
  check_remaining_queue (pending ∷ q) base o = refl
  check_remaining_queue (ready r ∷ q) base o = check_remaining_queue q _ _

  pub check_remaining_base :
      (q : List (ServiceResult E X I)) (base : ℕ) (o : Output E X I)
      → base < 2 ^ 64
      → (check_remaining E X I io_encode q base o).base ≡ (base + length (released q)) % 2 ^ 64
  unfolding check_remaining
  check_remaining_base [] base o h = omega arith
  check_remaining_base (pending ∷ q) base o h = omega arith
  check_remaining_base (ready r ∷ q) base o h =
      check_remaining_base q (wrapping_add E X I base 1) (handle_item E X I io_encode r o)
        (omega arith)
      ∙ omega arith

  pub handle_all_append :
      (xs ys : List (Answer E X I)) (o : Output E X I)
      → handle_all (xs ++ ys) o ≡ handle_all ys (handle_all xs o)
  handle_all_append [] ys o = refl
  handle_all_append (x ∷ xs) ys o = handle_all_append xs ys (handle_item E X I io_encode x o)
