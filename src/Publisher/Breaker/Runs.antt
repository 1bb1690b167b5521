-- ===== src/Publisher/Breaker/Runs.antt =====
-- How a breaker opens, recovers, and stays open.
use xiaoy_md.Prelude.{
  ℕ, ◌+◌, ◌-◌, ◌≤◌, ◌<◌, ◌≡◌, refl, Bool, inl, inr, Bool-cases, ltb, leb, length, false, List, [],
  ◌∷◌, arith, All, if◌then◌else◌,
}
use xiaoy_md.Publisher.Breaker.{
  closed, open_, Config, Breaker, initial, can_execute, record_failure, attempt_refused,
}

-- failures at the given times, one behind the other
unfoldable pub fail_at : Config → List ℕ → Breaker → Breaker
fail_at c [] b = b
fail_at c (t ∷ times) b = fail_at c times (record_failure c t b)

-- a failure of a closed breaker below the threshold, and of an open one
fail_at_open :
    (c : Config) (times : List ℕ) (b : Breaker)
    → b.state ≡ open_
    → (fail_at c times b).state ≡ open_
unfolding fail_at
fail_at_open c [] b h = h
fail_at_open c (t ∷ times) b h =
    fail_at_open c times (record_failure c t b) (unfold record_failure in ground arith)

record_failure_below :
    (c : Config) (t : ℕ) (b : Breaker)
    → b.state ≡ closed
    → leb c.failure_threshold (b.failure_count + 1) ≡ false
    → ((record_failure c t b).state ≡ closed)
      × ((record_failure c t b).failure_count ≡ b.failure_count + 1)
unfolding record_failure
record_failure_below c t b h e = ground arith

record_failure_time :
    (c : Config) (t : ℕ) (b : Breaker) → (record_failure c t b).last_failure_time ≡ t
unfolding record_failure
record_failure_time c t b = ground arith

-- A closed breaker below its threshold is open after a row of failures exactly when the failures
-- before and in the row reach the threshold.
fail_at-state :
    (c : Config) (times : List ℕ) (b : Breaker)
    → b.state ≡ closed
    → b.failure_count < c.failure_threshold
    → (fail_at c times b).state
      ≡ (if leb c.failure_threshold (b.failure_count + length times) then open_ else closed)
unfolding fail_at
fail_at-state c [] b h lt = ground arith
fail_at-state c (t ∷ times) b h lt =
    elim (Bool-cases (leb c.failure_threshold (b.failure_count + 1))) [
      | inl e ↦
          let opened =
            fail_at_open c times (record_failure c t b) (unfold record_failure in ground arith) in
          ground (arith, opened)
      | inr e ↦
          let (still, count) = record_failure_below c t b h e in
          let rest = fail_at-state c times (record_failure c t b) still (ground (arith, count)) in
          ground (arith, rest, count)
    ]

-- the time of the last failure of a row
unfoldable pub last_time : ℕ → List ℕ → ℕ
last_time t [] = t
last_time t (u ∷ times) = last_time u times

fail_at-last_failure_time :
    (c : Config) (times : List ℕ) (b : Breaker)
    → (fail_at c times b).last_failure_time ≡ last_time b.last_failure_time times
unfolding fail_at last_time
fail_at-last_failure_time c [] b = refl
fail_at-last_failure_time c (t ∷ times) b =
    rw (fail_at-last_failure_time c times (record_failure c t b)) (rw (record_failure_time c t b))

-- The answers to a row of refused or allowed attempts.
unfoldable pub attempt_all : Config → List ℕ → Breaker → List Bool × Breaker
attempt_all c [] b = ([], b)
attempt_all c (t ∷ times) b =
    let (allowed, b') = attempt_refused c t b in
    let (answers, b'') = attempt_all c times b' in (allowed ∷ answers, b'')

-- no two neighbours lie further apart than the gap
abbrev pub IsClose : ℕ → ℕ → List ℕ → Type 0
IsClose gap t [] = Unit
IsClose gap t (u ∷ times) = (u ≤ t + gap) × IsClose gap u times

attempt_refused_open :
    (c : Config) (t : ℕ) (b : Breaker)
    → b.state ≡ open_
    → t ≤ b.last_failure_time + c.recovery_timeout
    → attempt_refused c t b
      ≡ (false, record b { failure_count = b.failure_count + 1; last_failure_time = t })
unfolding attempt_refused can_execute record_failure
attempt_refused_open c t b h le = ground arith

-- An open breaker refuses every attempt of a row in which each attempt comes within the recovery
-- timeout of the one before it, the first within that of the last failure, and it is open
-- afterwards: a refused attempt counts as a failure and starts the wait again.
pub attempt_all_refused :
    (c : Config) (times : List ℕ) (b : Breaker)
    → b.state ≡ open_
    → IsClose c.recovery_timeout b.last_failure_time times
    → All (λ allowed. allowed ≡ false) (attempt_all c times b).0
      × ((attempt_all c times b).1.state ≡ open_)
unfolding attempt_all
attempt_all_refused c [] b h k = (tt, h)
attempt_all_refused c (t ∷ times) b h k = rw (attempt_refused_open c t b h k.0) (
    let rest =
      attempt_all_refused c times
        (record b { failure_count = b.failure_count + 1; last_failure_time = t }) h k.1 in
    ((refl, rest.0), rest.1))

-- A fresh breaker, after a row of failures that reaches its threshold, allows an attempt exactly
-- when more than the recovery timeout has passed since the last failure of the row.
can_execute-fail_at :
    (c : Config) (t : ℕ) (times : List ℕ) (now : ℕ)
    → 0 < c.failure_threshold
    → c.failure_threshold ≤ length (t ∷ times)
    → (can_execute c now (fail_at c (t ∷ times) initial)).0
      ≡ ltb c.recovery_timeout (now - last_time t times)
unfolding can_execute last_time
can_execute-fail_at c t times now pos reached =
    let opened = fail_at-state c (t ∷ times) initial refl pos in
    let since : (fail_at c (t ∷ times) initial).last_failure_time ≡ last_time t times =
      fail_at-last_failure_time c (t ∷ times) initial in
    ground (arith, opened, since)
