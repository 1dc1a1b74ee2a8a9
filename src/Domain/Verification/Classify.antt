-- ===== src/Domain/Verification/Classify.antt =====
-- crates/core/src/verification.rs: the normal form of an error line, and the classification of a
-- finished run.
use sdi_plugin.Prelude.{
  ℕ, zero, suc, String, Bool, true, false, ◌||◌, Option, none, some, List, [], ◌∷◌, if◌then◌else◌,
  nat_eq, is_some, any, find,
}
use sdi_plugin.Prelude.Text.{◌⧺◌, trim, contains, show_ℤ, str_is_empty}
use Prim.Native.Char.{Char, code}
use sdi_plugin.Prelude.Int.{ℤ, pos, int_eq}
use sdi_plugin.Prelude.Split.{split_whitespace, lines}
use sdi_plugin.Domain.Verification.{FailureClass, SpawnError, ExecOutcome, is_exit, passed}
use sdi_plugin.Domain.Verification.Extract.{is_digit, extract_failing_test, extract_top_frame}

abbrev pub glue : String → String × Option Char → String × Option Char
glue s (w, q) = (s ⧺ w, q)

-- The loop over a word's characters, with the quote that is open and whether a digit came last.
unfoldable pub scan_word : Option Char → Bool → String → String × Option Char
scan_word q prev String.[] = ("", q)
scan_word (some k) prev (String.◌∷◌ c s) =
    let closed = glue "<str>" (scan_word none prev s) in
    let inside = scan_word (some k) prev s in if nat_eq (code c) (code k) then closed else inside
scan_word none prev (String.◌∷◌ c s) =
    let quoted = scan_word (some c) prev s in
    let digit = scan_word none true s in
    let marked = glue "#" (scan_word none true s) in
    let plain = glue (String.◌∷◌ c "") (scan_word none false s) in
    if nat_eq (code c) 34 || nat_eq (code c) b'`'
    then quoted
    else if is_digit c
    then (if prev then digit else marked)
    else plain

abbrev pub with_space : String → String
with_space w = if str_is_empty w then "" else w ⧺ " "

unfoldable pub normalize_words : Option Char → List String → String
unfolding scan_word
normalize_words q [] = ""
normalize_words q (word ∷ rest) =
    let elided = "<path> " ⧺ normalize_words q rest in
    let kept = (let (w, q') = scan_word q false word in with_space w ⧺ normalize_words q' rest) in
    if contains "/" word || contains "\\" word then elided else kept

unfoldable pub take_chars : ℕ → String → String
take_chars zero s = ""
take_chars (suc n) String.[] = ""
take_chars (suc n) (String.◌∷◌ c s) = String.◌∷◌ c (take_chars n s)

pub record Classification : Type 0 where
  pub failure_class : FailureClass
  pub error_class : String
  pub failing_test : Option String
  pub top_frame : Option String
  pub reason : String

-- The arguments of the closure `mk`.
pub record Verdict : Type 0 where
  pub class : FailureClass
  pub error : String
  pub why : String

abbrev pub verdict : FailureClass → String → String → Verdict
verdict class error why = record { class = class; error = error; why = why }

abbrev pub oom_markers : List String
oom_markers =
    "out of memory" ∷ "cannot allocate memory" ∷ "javascript heap out of memory" ∷ "memoryerror"
    ∷ "oom-kill" ∷ "oomkilled" ∷ []

abbrev pub environment_markers : List (String × String)
environment_markers =
    ("no space left on device", "disk-full")
    ∷ ("enospc", "disk-full")
    ∷ ("econnrefused", "network")
    ∷ ("enotfound", "network")
    ∷ ("eai_again", "network")
    ∷ ("could not resolve host", "network")
    ∷ ("network is unreachable", "network")
    ∷ ("connection timed out", "network")
    ∷ ("eaddrinuse", "port-in-use")
    ∷ ("address already in use", "port-in-use")
    ∷ ("too many open files", "fd-exhausted")
    ∷ ("emfile", "fd-exhausted")
    ∷ ("command not found", "missing-binary")
    ∷ ("no such file or directory (os error 2)", "missing-binary")
    ∷ []

abbrev pub compile_markers : List String
compile_markers =
    "error[e" ∷ "could not compile" ∷ "error ts" ∷ "syntaxerror" ∷ "compilation failed"
    ∷ "cannot find module" ∷ "module not found" ∷ "unresolved import" ∷ []

abbrev pub assertion_markers : List String
assertion_markers =
    "assertion failed" ∷ "assertion `" ∷ "assertionerror" ∷ "assert_eq!" ∷ "assert!(" ∷ "expect("
    ∷ "expected:" ∷ "expected " ∷ "to equal" ∷ "tobe(" ∷ "test result: failed" ∷ "--- fail:"
    ∷ "failed tests/" ∷ "tests failed" ∷ "test failed" ∷ "✕" ∷ "✗" ∷ "failures:" ∷ []

abbrev pub panic_markers : List String
panic_markers = "panicked at" ∷ "panic:" ∷ "uncaught exception" ∷ "traceback" ∷ []

abbrev pub mentions : String → List String → Bool
mentions lower markers = any (λ m. contains m lower) markers

abbrev pub show_exit : Option ℤ → String
show_exit none = "?"
show_exit (some code) = show_ℤ code

unfoldable pub on_spawn_error : SpawnError → Verdict
on_spawn_error SpawnError.absent =
    verdict FailureClass.environment "missing-binary" "command binary not found on PATH"
on_spawn_error SpawnError.permission_denied =
    verdict FailureClass.harness "not-executable" "command is not executable"
on_spawn_error SpawnError.other =
    verdict FailureClass.harness "spawn-failed" "command could not be spawned"

unfoldable pub on_signal : ℤ → Bool → Verdict
on_signal sig oom_text =
    if int_eq sig (pos 9) || oom_text
    then verdict FailureClass.environment "oom"
        ("killed by signal " ⧺ (show_ℤ sig ⧺ " (OOM / external kill)"))
    else verdict FailureClass.harness ("signal-" ⧺ show_ℤ sig)
        ("terminated by signal " ⧺ show_ℤ sig)

module _ (to_lowercase : String → String) where
  unfoldable pub first_error_line : List String → Option String
  first_error_line [] = none
  first_error_line (raw ∷ rest) =
      let later = first_error_line rest in
      if contains "error" (to_lowercase (trim raw)) then some (trim raw) else later

  unfoldable pub normalize_error_line : String → String
  unfolding normalize_words take_chars
  normalize_error_line line =
      take_chars 120 (trim (normalize_words none (split_whitespace (to_lowercase line))))

  abbrev pub unknown_class : Option String → String → String
  unknown_class (some line) code = normalize_error_line line
  unknown_class none code = "exit-" ⧺ code

  abbrev pub on_environment : Option (String × String) → String → String → Verdict
  on_environment (some (_, ec)) output code =
      verdict FailureClass.environment ec
        ("exit " ⧺ (code ⧺ (" with environment error (" ⧺ (ec ⧺ ")"))))
  on_environment none output code =
      verdict FailureClass.product (unknown_class (first_error_line (lines output)) code)
        ("exit " ⧺ (code ⧺ " without recognized markers"))

  -- The markers in the output, once the exit code says nothing by itself.
  unfoldable pub on_output : String → Option String → String → Verdict
  on_output output failing_test code =
      if mentions (to_lowercase output) oom_markers
      then verdict FailureClass.environment "oom" "output reports memory exhaustion"
      else if mentions (to_lowercase output) compile_markers
      then verdict FailureClass.product "compile-error"
          ("exit " ⧺ (code ⧺ " with compiler/module errors"))
      else if mentions (to_lowercase output) assertion_markers || is_some failing_test
      then verdict FailureClass.product "assertion"
          ("exit " ⧺ (code ⧺ " with test assertion failures"))
      else if mentions (to_lowercase output) panic_markers
      then verdict FailureClass.product "panic"
          ("exit " ⧺ (code ⧺ " with an uncaught panic/exception"))
      else on_environment (find (λ m. contains m.0 (to_lowercase output)) environment_markers)
          output code

  unfoldable pub on_exit_code : Option ℤ → String → Option String → Verdict
  unfolding on_output
  on_exit_code exit_code output failing_test =
      if is_exit 127 exit_code
      then verdict FailureClass.environment "missing-binary" "exit 127 (command not found)"
      else if is_exit 126 exit_code
      then verdict FailureClass.harness "not-executable" "exit 126 (command not executable)"
      else if is_exit 137 exit_code
      then verdict FailureClass.environment "oom" "exit 137 (SIGKILL — OOM killer / external kill)"
      else on_output output failing_test (show_exit exit_code)

  -- Past the spawn error and the timeout.
  unfoldable pub on_exit : Option ℤ → Option ℤ → String → Option String → Verdict
  unfolding on_signal on_exit_code
  on_exit (some sig) exit_code output failing_test =
      on_signal sig (mentions (to_lowercase output) oom_markers)
  on_exit none exit_code output failing_test = on_exit_code exit_code output failing_test

  unfoldable pub on_failure :
      Option SpawnError → Bool → Option ℤ → Option ℤ → String → Option String → Verdict
  unfolding on_spawn_error on_exit
  on_failure (some e) timed_out signal exit_code output failing_test = on_spawn_error e
  on_failure none timed_out signal exit_code output failing_test =
      if timed_out
      then verdict FailureClass.harness "timeout" "run exceeded its timeout and was killed"
      else on_exit signal exit_code output failing_test

  unfoldable pub decide : ExecOutcome → String → Option String → Verdict
  unfolding passed on_failure
  decide o output failing_test =
      if passed o
      then verdict FailureClass.no_failure "none" "exit 0"
      else on_failure o.spawn_error o.timed_out o.signal o.exit_code output failing_test

  unfoldable pub classify : ExecOutcome → String → (String → Option String) → Classification
  unfolding decide
  classify outcome output in_repo_path =
      let failing_test = extract_failing_test output in
      let v = decide outcome output failing_test in
      record {
        failure_class = v.class;
        error_class = v.error;
        failing_test = failing_test;
        top_frame = extract_top_frame in_repo_path output;
        reason = v.why;
      }
