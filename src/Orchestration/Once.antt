-- ===== src/Orchestration/Once.antt =====
-- How often and on what grounds the executor is called.
use strongwiz.Base.{
  ◌+◌, ◌≤◌, String, true, false, List, [], ◌∷◌, ◌++◌, ◌≡◌, ◌⊎◌, inl, inr, refl, ap, ◌∙◌, arith,
  length, length-append, string_eq, nat_eq, option_eq, Bool-cases, ℤ,
}
use strongwiz.Base.Exec.{>>=-ok, >>=-err, ◌>>=◌}
use strongwiz.Base.Result.{Result, ok, err, is_ok, Result-cases}
use strongwiz.Contracts.{CandidateProposal}
use strongwiz.Authority.Permit.{DecisionPermit, ReleaseReceipt, released, AuthorityError}
use strongwiz.Authority.Registry.{GrantRegistry, Release, release_permit}
use strongwiz.Authority.Release.{Justified, released-Justified, result_of}
use strongwiz.Orchestration.Admission.{
  ExecutionAdmission, ActionExecutor, ExecutorAnswer, admission_of, raised, validate_admission,
  from_authority,
}
use strongwiz.Orchestration.Begin.{ExecutionDigests, convert}
use strongwiz.Orchestration.Execute.{
  Bench, execute_once, release_of, command_of, call_executor, carry_out, answer, conclude, release,
  disagrees,
}

module _ (d : ExecutionDigests) (executor : ActionExecutor) (command_error : String) where
  answer-bench :
      (a : ExecutionAdmission) (r : ReleaseReceipt) (x : ExecutorAnswer) (b : Bench)
      → (answer d executor command_error a r x b).1 ≡ b
  unfolding answer conclude
  answer-bench a r x b = ground arith

  -- the executor is called for a released receipt alone, and then once
  carry_out_lem :
      (a : ExecutionAdmission) (proposal : CandidateProposal) (r : ReleaseReceipt) (b : Bench)
      → let c = (carry_out d executor command_error a proposal r b).1 in
        (c.registry ≡ b.registry)
        × (c.permit ≡ b.permit)
        × ((c.commands ≡ b.commands)
            ⊎ ((r.status ≡ released)
                × (c.commands ≡ b.commands ++ command_of d executor command_error a proposal ∷ [])))
  unfolding carry_out call_executor conclude
  carry_out_lem a proposal r b =
      let c = command_of d executor command_error a proposal in
      ground (
        arith,
        answer-bench a r (raised command_error) b,
        answer-bench a r (executor.execute c) (record b { commands = b.commands ++ c ∷ [] }),
      )

  used_after :
      (r : Release) (g : GrantRegistry) (p : DecisionPermit) (receipt : ReleaseReceipt)
      → result_of r g p ≡ ok receipt
      → (release_permit r (g, p)).1.1.used ≡ true
  unfolding release_permit
  used_after r g p receipt h = ground arith

  -- what one call does, whatever it returns or raises
  pub record IsSafe (a : ExecutionAdmission) (proposal : CandidateProposal) (t : ℤ) (b c : Bench)
      : Type 0 where
    pub commands :
        (c.commands ≡ b.commands)
        ⊎ ((c.commands ≡ b.commands ++ command_of d executor command_error a proposal ∷ [])
            × (c.permit.used ≡ true)
            × (a ≡ admission_of b.permit.bindings)
            × ((receipt : ReleaseReceipt) × Justified
                  (release_of d executor command_error a t)
                  b.registry
                  b.permit
                  receipt))
    pub kept : b.permit.used ≡ true → (c.permit ≡ b.permit) × (c.commands ≡ b.commands)
    pub bindings : c.permit.bindings ≡ b.permit.bindings

  release_refuses :
      (r : Release) (g : GrantRegistry) (p : DecisionPermit)
      → p.used ≡ true
      → (is_ok (release_permit r (g, p)).0 ≡ false) × ((release_permit r (g, p)).1.1 ≡ p)
  unfolding release_permit
  release_refuses r g p h = ground arith

  release-bindings :
      (r : Release) (g : GrantRegistry) (p : DecisionPermit)
      → (release_permit r (g, p)).1.1.bindings ≡ p.bindings
  unfolding release_permit
  release-bindings r g p = ground arith

  released_call :
      (a : ExecutionAdmission) (proposal : CandidateProposal) (t : ℤ) (b : Bench)
      (r : ReleaseReceipt)
      → result_of (release_of d executor command_error a t) b.registry b.permit ≡ ok r
      → a ≡ admission_of b.permit.bindings
      → let (g, p) =
          (release_permit (release_of d executor command_error a t) (b.registry, b.permit)).1 in
        IsSafe a proposal t b
          (carry_out d executor command_error a proposal r
            (record b { registry = g; permit = p })).1
  released_call a proposal t b r done same =
      let q = release_of d executor command_error a t in
      let (g, p) = (release_permit q (b.registry, b.permit)).1 in
      let (registry, permit, commands) =
        carry_out_lem a proposal r (record b { registry = g; permit = p }) in
      let used = used_after q b.registry b.permit r done in
      record {
        commands = elim commands [
          | inl none_more ↦ inl none_more
          | inr (status, one_more) ↦ inr (
            one_more,
            ap (λ (x : DecisionPermit). x.used) permit ∙ used,
            same,
            (r, released-Justified q b.registry b.permit r done status),
          )
        ];
        kept = λ spent. absurd (ground (arith, release_refuses q b.registry b.permit));
        bindings =
            ap (λ (x : DecisionPermit). x.bindings) permit ∙ release-bindings q b.registry b.permit;
      }

  -- a call that ends before the release, or by the registry's refusal
  refused_call :
      (a : ExecutionAdmission) (proposal : CandidateProposal) (t : ℤ) (b : Bench)
      → IsSafe a proposal t b b
  refused_call a proposal t b = record {
    commands = inl refl;
    kept = λ _. (refl, refl);
    bindings = refl;
  }

  refused_release :
      (a : ExecutionAdmission) (proposal : CandidateProposal) (t : ℤ) (b : Bench)
      → let (g, p) =
          (release_permit (release_of d executor command_error a t) (b.registry, b.permit)).1 in
        IsSafe a proposal t b (record b { registry = g; permit = p })
  refused_release a proposal t b =
      let q = release_of d executor command_error a t in
      record {
        commands = inl refl;
        kept = λ spent. ((release_refuses q b.registry b.permit spent).1, refl);
        bindings = release-bindings q b.registry b.permit;
      }

  release_returns :
      (q : Release) (b : Bench) (x : Result AuthorityError ReleaseReceipt)
      → result_of q b.registry b.permit ≡ x
      → let (g, p) = (release_permit q (b.registry, b.permit)).1 in
        release d executor command_error q b
        ≡ (convert from_authority x, record b { registry = g; permit = p })
  unfolding release
  release_returns q b x done = rw done refl

  execute_from :
      (a : ExecutionAdmission) (proposal : CandidateProposal) (t : ℤ) (b : Bench)
      (x : Result AuthorityError ReleaseReceipt)
      → a ≡ admission_of b.permit.bindings
      → result_of (release_of d executor command_error a t) b.registry b.permit ≡ x
      → IsSafe a proposal t b
          ((release d executor command_error (release_of d executor command_error a t)
              >>= carry_out d executor command_error a proposal)
            b).1
  execute_from a proposal t b (ok r) same done =
      let q = release_of d executor command_error a t in
      let goes = carry_out d executor command_error a proposal in
      rw (>>=-ok (release d executor command_error q) goes (release_returns q b (ok r) done))
        (released_call a proposal t b r done same)
  execute_from a proposal t b (err e) same done =
      let q = release_of d executor command_error a t in
      let goes = carry_out d executor command_error a proposal in
      rw (>>=-err (release d executor command_error q) goes (release_returns q b (err e) done))
        (refused_release a proposal t b)

  agreed :
      (a : ExecutionAdmission) (proposal : CandidateProposal) (b : Bench)
      (expected : ExecutionAdmission)
      → validate_admission (admission_of b.permit.bindings) ≡ ok expected
      → disagrees d executor command_error expected b.permit a proposal ≡ false
      → a ≡ admission_of b.permit.bindings
  unfolding validate_admission disagrees
  agreed a proposal b expected good same = ground arith

  -- Whatever a call of `execute_once` returns or raises, either it calls the executor not at all,
  -- or it calls it once, with the command of this admission; then the admission is the permit's,
  -- the release was justified under the registry at that time, and the permit is used afterwards. A
  -- permit that was used stays as it is, and the executor is not called. The permit's bindings
  -- never change.
  pub execute_once-IsSafe :
      (a : ExecutionAdmission) (proposal : CandidateProposal) (t : ℤ) (b : Bench)
      → IsSafe a proposal t b (execute_once d executor command_error a proposal t b).1
  unfolding execute_once validate_admission
  execute_once-IsSafe a proposal t b =
      elim (Result-cases (validate_admission (admission_of b.permit.bindings))) [
        | inr (e, bad) ↦ rw bad (refused_call a proposal t b)
        | inl (expected, good) ↦
            elim (Bool-cases (disagrees d executor command_error expected b.permit a proposal)) [
              | inl differs ↦ rw (good, differs) (refused_call a proposal t b)
              | inr same ↦
                  rw (good, same)
                    (execute_from a proposal t b _ (agreed a proposal b expected good same) refl)
            ]
      ]

  -- An attempt on the permit: the registry may have become any other one in the meantime.
  pub record Attempt : Type 0 where
    pub registry : GrantRegistry
    pub admission : ExecutionAdmission
    pub proposal : CandidateProposal
    pub boundary : ℤ

  unfoldable pub attempt : Attempt → Bench → Bench
  attempt x b =
      (execute_once d executor command_error x.admission x.proposal x.boundary
        (record b { registry = x.registry })).1

  unfoldable pub attempts : List Attempt → Bench → Bench
  unfolding attempt
  attempts [] b = b
  attempts (x ∷ xs) b = attempts xs (attempt x b)

  spent_attempts :
      (xs : List Attempt) (b : Bench) → b.permit.used ≡ true → (attempts xs b).commands ≡ b.commands
  unfolding attempts attempt
  spent_attempts [] b used = refl
  spent_attempts (x ∷ xs) b used =
      let (permit, commands) =
        (execute_once-IsSafe x.admission x.proposal x.boundary
            (record b { registry = x.registry })).kept
          used in
      spent_attempts xs (attempt x b) (ap (λ (p : DecisionPermit). p.used) permit ∙ used) ∙ commands

  -- However often `execute_once` is tried with one permit, with any admissions, proposals and
  -- boundaries, and whatever becomes of the registry in between, the executor is called at most
  -- once.
  pub attempts-le :
      (xs : List Attempt) (b : Bench) → length (attempts xs b).commands ≤ length b.commands + 1
  unfolding attempts attempt
  attempts-le [] b = omega arith
  attempts-le (x ∷ xs) b =
      let safe =
        execute_once-IsSafe x.admission x.proposal x.boundary
          (record b { registry = x.registry }) in
      elim safe.commands [
        | inl none_more ↦ omega (arith, attempts-le xs (attempt x b), ap length none_more)
        | inr (one_more, used, _, _) ↦
            let after = spent_attempts xs (attempt x b) used in
            omega (arith, ap length (after ∙ one_more), length-append b.commands)
      ]
