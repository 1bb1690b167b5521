-- ===== src/Adapter/Ticks/Counted.antt =====
-- No admitted tick is lost or doubled, and the queue keeps its bound.
use xiaoy_md.Prelude.{
  ℕ, ◌+◌, ◌≤◌, ◌≡◌, refl, ap, Bool, List, [], ◌∷◌, none, some, length, length-append, count_if,
  count_if-append, arith,
}
use xiaoy_md.Adapter.Ticks.{
  Bridge, on_tick, admitted, Step, ticked, put, got, disconnected, loop_set, Reached, begun,
  stepped,
}

-- how many ticks of the bridge pass a test
abbrev pub count_in : {A : Type 0} → (A → Bool) → Bridge A → ℕ
count_in p b =
    count_if p b.received + count_if p b.cleared + count_if p b.queue + count_if p b.scheduled

module _ {A : Type 0} (maxsize : ℕ) where
  Step-bound :
      {more : List A} {b b' : Bridge A}
      → Step maxsize more b b'
      → length b.queue ≤ maxsize
      → length b'.queue ≤ maxsize
  unfolding on_tick
  Step-bound (ticked none b) le = le
  Step-bound (ticked (some tick) b) le = ground arith
  Step-bound (put before tick behind b e room) le =
      ground (arith, length-append b.queue (tick ∷ []))
  Step-bound (got tick rest b e) le = ground (arith, ap length e)
  Step-bound (disconnected b) le = omega arith
  Step-bound (loop_set open_now b) le = le

  Step-count_in :
      {more : List A} {b b' : Bridge A} (p : A → Bool)
      → Step maxsize more b b'
      → count_in p b' ≡ count_in p b + count_if p more
  unfolding on_tick admitted
  Step-count_in p (ticked none b) = ground arith
  Step-count_in p (ticked (some tick) b) = ground (arith, count_if-append p b.scheduled (tick ∷ []))
  Step-count_in p (put before tick behind b e room) = ground (
    arith,
    ap (count_if p) e,
    count_if-append p b.queue (tick ∷ []),
    count_if-append p before (tick ∷ behind),
    count_if-append p before behind,
  )
  Step-count_in p (got tick rest b e) =
      ground (arith, ap (count_if p) e, count_if-append p b.received (tick ∷ []))
  Step-count_in p (disconnected b) = ground (arith, count_if-append p b.cleared b.queue)
  Step-count_in p (loop_set open_now b) = ground arith

  -- Along every interleaving of the two threads the queue keeps its bound, and of the ticks that
  -- `on_tick` admitted each is handed out, cleared by a disconnect, queued or scheduled, exactly
  -- once.
  pub Step-Reached :
      (p : A → Bool) (ticks : List A) (b : Bridge A)
      → Reached maxsize ticks b
      → (length b.queue ≤ maxsize) × (count_in p b ≡ count_if p ticks)
  Step-Reached p ticks b begun = (omega arith, refl)
  Step-Reached p ticks b (stepped {ticks = old} {more = more} {b = a} r step) =
      let (le, count) = Step-Reached p old a r in
      (Step-bound step le, ground (arith, count, Step-count_in p step, count_if-append p old more))
