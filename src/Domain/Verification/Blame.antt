-- ===== src/Domain/Verification/Blame.antt =====
-- crates/core/src/verification.rs: whom the classification of a run blames.
use sdi_plugin.Prelude.{
  String, ◌≡◌, refl, sym, ◌≢◌, ◌↔◌, ◌⊎◌, inl, inr, Bool, true, false, ◌||◌, Option, none, some,
  arith, if◌then◌else◌, is_some, find,
}
use sdi_plugin.Prelude.Text.{contains}
use sdi_plugin.Prelude.Int.{ℤ, pos, int_eq}
use sdi_plugin.Domain.Verification.{
  FailureClass, SpawnError, ExecOutcome, is_failure, is_exit, passed,
}
use sdi_plugin.Domain.Verification.Extract.{extract_failing_test}
use sdi_plugin.Domain.Verification.Classify.{
  Verdict, verdict, mentions, oom_markers, compile_markers, assertion_markers, panic_markers,
  environment_markers, show_exit, on_spawn_error, on_signal, on_environment, on_output,
  on_exit_code, on_exit, on_failure, decide, classify,
}
use sdi_plugin.Prelude.{◌∙◌}

-- To show something of a conditional, show it of both branches.
if-both :
    {A : Type 0} (P : A → Type 0) (b : Bool) (x y : A)
    → (b ≡ true → P x)
    → (b ≡ false → P y)
    → P (if b then x else y)
if-both P true x y t f = t refl
if-both P false x y t f = f refl

abbrev IsFault : Verdict → Type 0
IsFault v = is_failure v.class ≡ true

-- What the process tells when the product is to blame: it ran, and ended by itself with an exit code
-- that is none of the shell's.
pub record IsOwnExit (spawn_error : Option SpawnError) (timed_out : Bool)
    (signal exit_code : Option ℤ) : Type 0 where
  pub spawned : spawn_error ≡ none
  pub in_time : timed_out ≡ false
  pub unsignalled : signal ≡ none
  pub found : is_exit 127 exit_code ≡ false
  pub executable : is_exit 126 exit_code ≡ false
  pub not_killed : is_exit 137 exit_code ≡ false

on_spawn_error-IsFault :
    (e : SpawnError) → IsFault (on_spawn_error e) × (on_spawn_error e).class ≢ FailureClass.product
unfolding on_spawn_error is_failure
on_spawn_error-IsFault SpawnError.absent = (refl, ground arith)
on_spawn_error-IsFault SpawnError.permission_denied = (refl, ground arith)
on_spawn_error-IsFault SpawnError.other = (refl, ground arith)

on_signal-IsFault :
    (sig : ℤ) (oom : Bool)
    → IsFault (on_signal sig oom) × (on_signal sig oom).class ≢ FailureClass.product
unfolding on_signal is_failure
on_signal-IsFault sig oom =
    if-both (λ v. IsFault v × v.class ≢ FailureClass.product) (int_eq sig (pos 9) || oom) _ _
      (λ _. (refl, ground arith)) (λ _. (refl, ground arith))

module _ (to_lowercase : String → String) where
  on_environment-IsFault :
      (m : Option (String × String)) (output code : String)
      → IsFault (on_environment to_lowercase m output code)
  unfolding is_failure
  on_environment-IsFault (some (_, _)) output code = refl
  on_environment-IsFault none output code = refl

  on_output-IsFault :
      (output : String) (failing_test : Option String) (code : String)
      → IsFault (on_output to_lowercase output failing_test code)
  unfolding on_output is_failure
  on_output-IsFault output failing_test code =
      let lower = to_lowercase output in
      if-both IsFault (mentions lower oom_markers) _ _ (λ _. refl)
        λ _.
          if-both IsFault (mentions lower compile_markers) _ _ (λ _. refl)
            λ _.
              if-both IsFault (mentions lower assertion_markers || is_some failing_test) _ _
                (λ _. refl)
                λ _.
                  if-both IsFault (mentions lower panic_markers) _ _ (λ _. refl)
                    λ _.
                      on_environment-IsFault (find (λ m. contains m.0 lower) environment_markers)
                        output code

  abbrev Blames : Option SpawnError → Bool → Option ℤ → Option ℤ → Verdict → Type 0
  Blames spawn_error timed_out signal exit_code v =
      IsFault v
      × ((v.class ≢ FailureClass.product) ⊎ IsOwnExit spawn_error timed_out signal exit_code)

  on_exit_code-Blames :
      (exit_code : Option ℤ) (output : String) (failing_test : Option String)
      → Blames none false none exit_code (on_exit_code to_lowercase exit_code output failing_test)
  unfolding on_exit_code is_failure
  on_exit_code-Blames exit_code output failing_test =
      if-both (Blames none false none exit_code) (is_exit 127 exit_code) _ _
        (λ _. (refl, inl (ground arith)))
        λ a.
          if-both (Blames none false none exit_code) (is_exit 126 exit_code) _ _
            (λ _. (refl, inl (ground arith)))
            λ b.
              if-both (Blames none false none exit_code) (is_exit 137 exit_code) _ _
                (λ _. (refl, inl (ground arith)))
                λ c. (
                  on_output-IsFault output failing_test (show_exit exit_code),
                  inr (record {
                    spawned = refl;
                    in_time = refl;
                    unsignalled = refl;
                    found = a;
                    executable = b;
                    not_killed = c;
                  }),
                )

  on_failure-Blames :
      (spawn_error : Option SpawnError) (timed_out : Bool) (signal exit_code : Option ℤ)
      (output : String) (failing_test : Option String)
      → Blames spawn_error timed_out signal exit_code
          (on_failure to_lowercase spawn_error timed_out signal exit_code output failing_test)
  unfolding on_failure on_exit is_failure
  on_failure-Blames (some e) timed_out signal exit_code output failing_test =
      ((on_spawn_error-IsFault e).0, inl (on_spawn_error-IsFault e).1)
  on_failure-Blames none true signal exit_code output failing_test = (refl, inl (ground arith))
  on_failure-Blames none false (some sig) exit_code output failing_test =
      let v = on_signal-IsFault sig (mentions (to_lowercase output) oom_markers) in (v.0, inl v.1)
  on_failure-Blames none false none exit_code output failing_test =
      on_exit_code-Blames exit_code output failing_test

-- A run is classified as no failure exactly if it passed: exit code 0, no signal, no timeout, and no
-- error at the start.
pub classify-no_failure :
    (to_lowercase : String → String) (o : ExecOutcome) (output : String)
    (in_repo_path : String → Option String)
    → (is_failure (classify to_lowercase o output in_repo_path).failure_class ≡ false)
      ↔ (passed o ≡ true)
unfolding classify decide is_failure
classify-no_failure to_lowercase o output in_repo_path = either (passed o) refl
  where
    fault : IsFault (
        on_failure to_lowercase o.spawn_error o.timed_out o.signal o.exit_code output
          (extract_failing_test output))
    fault =
        (on_failure-Blames to_lowercase o.spawn_error o.timed_out o.signal o.exit_code output
          (extract_failing_test output)).0

    either :
        (b : Bool)
        → passed o ≡ b
        → (is_failure
              (if b
                then verdict FailureClass.no_failure "none" "exit 0"
                else on_failure to_lowercase o.spawn_error o.timed_out o.signal o.exit_code output
                    (extract_failing_test output)).class
            ≡ false)
          ↔ (b ≡ true)
    either true e = (λ _. refl, λ _. refl)
    either false e = (λ h. ground (arith, sym fault ∙ h), λ h. ground (arith, h))

-- The product is blamed only for a run that was spawned, that ended in time and by no signal, and
-- whose exit code is none of 126, 127 and 137.
pub classify-product :
    (to_lowercase : String → String) (o : ExecOutcome) (output : String)
    (in_repo_path : String → Option String)
    → (classify to_lowercase o output in_repo_path).failure_class ≡ FailureClass.product
    → IsOwnExit o.spawn_error o.timed_out o.signal o.exit_code
unfolding classify decide
classify-product to_lowercase o output in_repo_path = either (passed o)
  where
    own :
        (v : Verdict)
        → Blames to_lowercase o.spawn_error o.timed_out o.signal o.exit_code v
        → v.class ≡ FailureClass.product
        → IsOwnExit o.spawn_error o.timed_out o.signal o.exit_code
    own v (_, inl n) h = absurd (n h)
      where
        absurd : ⊥ → IsOwnExit o.spawn_error o.timed_out o.signal o.exit_code
        absurd x = ground arith
    own v (_, inr e) h = e

    either :
        (b : Bool)
        → (if b
            then verdict FailureClass.no_failure "none" "exit 0"
            else on_failure to_lowercase o.spawn_error o.timed_out o.signal o.exit_code output
                (extract_failing_test output)).class
          ≡ FailureClass.product
        → IsOwnExit o.spawn_error o.timed_out o.signal o.exit_code
    either true h = ground (arith, h)
    either false h =
        own
          (on_failure to_lowercase o.spawn_error o.timed_out o.signal o.exit_code output
            (extract_failing_test output))
          (on_failure-Blames to_lowercase o.spawn_error o.timed_out o.signal o.exit_code output
            (extract_failing_test output))
          h
