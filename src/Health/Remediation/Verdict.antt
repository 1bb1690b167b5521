-- ===== src/Health/Remediation/Verdict.antt =====
-- What a run of the health check ends with (src/operations/check_feed_health.py).
use xiaoy_md.Prelude.{
  ℕ, zero, suc, ◌+◌, ◌≤◌, ◌≡◌, refl, sym, ◌∙◌, inl, inr, true, false, not, ◌&&◌, Option, none, some,
  is_some, max, ltb, Bool-cases, Option-cases, arith, if◌then◌else◌,
}
use xiaoy_md.Health.Evaluate.{HealthReport}
use xiaoy_md.Health.Remediation.{
  World, RemediationResult, perform_remediation, Checked, Outcome, raised, checked, Run, is_error,
  evaluate_now, remediation_loop, marked, escalate, escalated_outcome, first_check, enforce_check,
  run_health_check,
}

-- what the loop keeps of a checked report
record Kept (c : Checked) : Type 0 where
  pub remediation : is_some c.remediation ≡ ltb 0 c.remediation_attempts
  pub remediated : c.remediated ≡ (ltb 0 c.remediation_attempts && not (is_error c.report))
  pub escalated : c.escalated ≡ false

plus_suc : (a b : ℕ) → a + suc b ≡ a + 1 + b
plus_suc a b = omega arith

zero_add : (n : ℕ) → 0 + n ≡ n
zero_add n = omega arith

-- the report after an attempt
abbrev after_attempt : ℕ → RemediationResult → HealthReport → Checked
after_attempt attempts remediation updated = record {
  report = updated;
  remediation = some remediation;
  ignored_count = none;
  remediation_attempts = attempts + 1;
  remediated = not (is_error updated);
  escalated = false;
}

after_attempt-Kept :
    (attempts : ℕ) (remediation : RemediationResult) (updated : HealthReport)
    → Kept (after_attempt attempts remediation updated)
after_attempt-Kept attempts remediation updated = record {
  remediation = ground arith;
  remediated = ground arith;
  escalated = refl;
}

-- and of its end, which is an error only after the last attempt
record Looped (last : ℕ) (c : Checked) : Type 0 where
  pub kept : Kept c
  pub bounded : c.remediation_attempts ≤ last
  pub exhausted : (if is_error c.report then c.remediation_attempts else last) ≡ last

abbrev pub OfOutcome : (Checked → Type 0) → Outcome → Type 0
OfOutcome P raised = Unit
OfOutcome P (checked c) = P c

is_some_marked : (o : Option RemediationResult) → is_some (marked o) ≡ is_some o
unfolding marked
is_some_marked none = refl
is_some_marked (some r) = refl

module _ {W : Type 0} (world : World W) (run : Run) where
  -- A checked report is escalated exactly when the mode is enforce and it is an error; its attempts
  -- are at most the maximum, and are the maximum when it is escalated; there are none outside
  -- enforce mode; it has a remediation exactly when there was an attempt, and is remediated exactly
  -- when there was one and it is no error.
  pub record IsVerdict (c : Checked) : Type 0 where
    pub escalated : c.escalated ≡ (run.enforce && is_error c.report)
    pub bounded : c.remediation_attempts ≤ max 1 run.max_remediation_attempts
    pub exhausted :
        (if c.escalated then c.remediation_attempts else max 1 run.max_remediation_attempts)
        ≡ max 1 run.max_remediation_attempts
    pub idle : (if run.enforce then 0 else c.remediation_attempts) ≡ 0
    pub remediation : is_some c.remediation ≡ ltb 0 c.remediation_attempts
    pub remediated : c.remediated ≡ (ltb 0 c.remediation_attempts && not (is_error c.report))

  remediation_loop-Looped :
      (left attempts : ℕ) (c : Checked) (w : W)
      → c.remediation_attempts ≡ attempts
      → Kept c
      → OfOutcome (Looped (attempts + left)) (remediation_loop world run left attempts c w).0
  unfolding remediation_loop
  remediation_loop-Looped zero attempts c w e k = record {
    kept = k;
    bounded = omega (arith, e);
    exhausted = ground (arith, e);
  }
  remediation_loop-Looped (suc left) attempts c w e k =
      let (result, w') = perform_remediation world (attempts + 1) c.report w in
      let (report, w'') = evaluate_now world run w' in
      elim (Bool-cases (is_error c.report)) [
        | inl h ↦ elim (Option-cases result) [
          | inl p ↦ rw (remediation_loop, h, p) tt
          | inr p ↦ elim (Option-cases report) [
            | inl q ↦ rw (remediation_loop, h, p.1, q) tt
            | inr q ↦
                rw (remediation_loop, h, p.1, q.1)
                  (rw (plus_suc attempts left) (
                    remediation_loop-Looped left (attempts + 1) (after_attempt attempts p.0 q.0) w''
                      refl (after_attempt-Kept attempts p.0 q.0)))
          ]
        ]
        | inr h ↦
            rw (remediation_loop, h)
              record { kept = k; bounded = omega (arith, e); exhausted = rw h refl }
      ]

  escalate-IsVerdict :
      (c : Checked)
      → run.enforce ≡ true
      → Looped (max 1 run.max_remediation_attempts) c
      → IsVerdict (escalate world run c)
  unfolding escalate
  escalate-IsVerdict c enforced l = elim (Bool-cases (is_error c.report)) [
    | inl h ↦
        rw (escalate, h)
          record {
            escalated = rw (enforced, h) refl;
            bounded = l.bounded;
            exhausted = rw h at l.exhausted;
            idle = rw enforced refl;
            remediation = is_some_marked c.remediation ∙ l.kept.remediation;
            remediated = l.kept.remediated;
          }
    | inr h ↦
        rw (escalate, h)
          record {
            escalated = rw (enforced, h) l.kept.escalated;
            bounded = l.bounded;
            exhausted = rw l.kept.escalated refl;
            idle = rw enforced refl;
            remediation = l.kept.remediation;
            remediated = l.kept.remediated;
          }
  ]

  marks :
      (o : Outcome × W)
      → run.enforce ≡ true
      → OfOutcome (Looped (max 1 run.max_remediation_attempts)) o.0
      → OfOutcome IsVerdict (escalated_outcome world run o).0
  unfolding escalated_outcome
  marks (raised, w) e l = tt
  marks (checked c, w) e l = escalate-IsVerdict c e l

  first_check-Kept : (report : HealthReport) → Kept (first_check world run report)
  unfolding first_check
  first_check-Kept report = record { remediation = refl; remediated = refl; escalated = refl }

  enforce_check-IsVerdict :
      (report : HealthReport) (w : W) → OfOutcome IsVerdict (enforce_check world run report w).0
  unfolding enforce_check first_check escalated_outcome
  enforce_check-IsVerdict report w = elim (Bool-cases (run.enforce && is_error report)) [
    | inl h ↦
        rw (enforce_check, h)
          (marks
            (remediation_loop world run (max 1 run.max_remediation_attempts) 0
              (first_check world run report) w)
            (ground (arith, h))
            (rw (zero_add (max 1 run.max_remediation_attempts)) at (
              remediation_loop-Looped (max 1 run.max_remediation_attempts) 0
                (first_check world run report) w refl (first_check-Kept report))))
    | inr h ↦
        rw (enforce_check, h)
          record {
            escalated = sym h;
            bounded = omega arith;
            exhausted = refl;
            idle = ground arith;
            remediation = refl;
            remediated = refl;
          }
  ]

  -- However the world answers, a run of the health check ends with an exception or with a checked
  -- report. The report is escalated exactly when the mode is enforce and it is an error; its
  -- attempts are at most the maximum, and are the maximum when it is escalated; there are none
  -- outside enforce mode; it has a remediation exactly when there was an attempt, and it is marked
  -- remediated exactly when there was one and it is no error.
  pub run_health_check-IsVerdict : (w : W) → OfOutcome IsVerdict (run_health_check world run w).0
  unfolding run_health_check
  run_health_check-IsVerdict w =
      let (report, w') = evaluate_now world run w in
      elim (Option-cases report) [
        | inl e ↦ rw (run_health_check, e) tt
        | inr e ↦ rw (run_health_check, e.1) (enforce_check-IsVerdict e.0 w')
      ]
