-- ===== src/Lib.antt =====
-- A verification library for automated_flywheel_setup_checker, the tool that runs the installer scripts
-- of the agentic coding flywheel in isolation and reports how they did.
--
-- The parts of the program and how they interact. A run makes installer tests
-- (src/runner/installer.rs) of checksums, profiles (src/runner/acfs_profile.rs), overrides and global
-- settings (src/runner/spec.rs) and takes them to the executor (src/runner/executor.rs), which makes attempts in a Docker container or in a temporary
-- directory, checks the pinned SHA-256 of the script, runs it by a quoted command line, runs the checks
-- behind it, and classifies every failure (src/parser/classifier.rs). Captured output is bounded
-- (src/runner/installer.rs) and redacted (src/reporting/redact.rs) first. Attempts are repeated with
-- delays (src/runner/retry.rs) where the classification is retryable. A lock file (src/lock.rs) keeps
-- two runs apart, and a pool (src/runner/parallel.rs) runs tests side by side. The outcomes of past
-- runs tell which installers are broken or flaky, and two runs are compared
-- (src/reporting/history.rs); a run is summarised (src/reporting/summary.rs), and metrics and health are
-- computed from the runs on disk (src/reporting/metrics.rs). A run is announced on a rolling issue and in
-- Slack (src/reporting/notify.rs). Failures go to
-- remediation, whose client runs the CLI behind a circuit breaker, a rate limiter and a cost limit
-- (src/remediation/claude.rs), a check of the commands (src/remediation/safety.rs), outcomes
-- (src/remediation/outcome.rs) and suggestions (src/remediation/fallback.rs). A session that edits works
-- in a worktree, and its changes are committed only if they keep to an edit policy and the installer
-- passes (src/remediation/propose.rs). Results are written to a file for each run and old files are
-- pruned (src/reporting/jsonl.rs); the exit code is made from the results (src/main.rs). The settings
-- come from defaults, a file, the environment and flags (src/config/resolve.rs). A ledger keeps the
-- scripts that were seen (src/checksums/ledger.rs).
--
-- The files, by part:
--   Base, Base/*              shared lists, texts, tests and numbers
--   Classifier/*              classify_error, explain and the patterns
--   Runner/Installer          TestResult, InstallerTest and what they are made of
--   Runner/Profile            the table of execution profiles
--   Runner/Spec/*             resolve_spec, to_test, parse_memory_limit (src/runner/container.rs)
--   Runner/Capture            bound_capture, tail
--   Runner/Shell/*            shell_quote, installer_command, build_verified_install_script, and how a
--                             POSIX shell reads a command
--   Runner/Retry/*            delay_for_attempt, delay_with_jitter
--   Runner/Executor           finalize_failure, classify_result, mark_cancelled, test_timeout
--   Runner/Executor/Checks    parse_checksum_result, post_install
--   Runner/Executor/Docker    run_test_docker, and the end of create_container (src/runner/container.rs)
--   Runner/Executor/Local     run_test_local, local_env
--   Runner/Executor/Attempt/* run_test
--   Runner/Executor/Retries/* run_test_with_retry, should_retry_result
--   Runner/Parallel/*         ParallelRunner::run_all
--   Lock/*                    RunLock::try_acquire and its drop
--   Remediation/Breaker/*     CircuitBreaker
--   Remediation/Limiter/*     RateLimiter, try_acquire
--   Remediation/Claude        ClaudeEnvelope, interpret_run, advisory_args, edit_args
--   Remediation/Claude/*      ClaudeRemediation: acquire, execute_with_resilience, execute_edit_session
--   Remediation/Propose       path_allowed, known_installers_block, hunks_within, check_policy
--   Remediation/Propose/*     remediate_with_claude
--   Remediation/Risks/*       annotate_risks
--   Remediation               is_command_safe (Safety), RemediationOutcome (Outcome),
--                             generate_suggestions (Fallback)
--   Reporting/Redact          redact, contains_secret
--   Reporting/History/*       assess_outcomes
--   Reporting/Diff/*          diff_runs
--   Reporting/Loaded/*        History: load_recent, timelines, medians, assess
--   Reporting/Metrics/*       MetricsSnapshot, MetricsReport::compute
--   Reporting/Notify/*        Notifier::send, and the issues of a repository
--   Reporting/Summary         SummaryGenerator::generate
--   Reporting/Persist/*       ResultPersister: entry_from, the lines of a file, read_run_file, list_runs,
--                             find_run, prune
--   Config/*                  resolve, unknown_keys, parse_scalar, env_name_for
--   Main                      any_failed, exit_code
--   Exit                      AfscError (src/error.rs)
--   Checksums                 Ledger: the index of stored scripts (src/checksums/ledger.rs)
-- Files called Tests hold runs at concrete data.
--
-- How it is modelled. A struct is a record, an enum a data type, `&mut` a record that is returned. Times
-- are nanoseconds, money is in millionths of a dollar, a confidence is in hundredths; `u32` and `u64`
-- keep their wrap-around. What the outside answers (Docker, curl, processes, files, clocks, the
-- cancellation token, random numbers) is a record of answers for each attempt, and what an attempt does
-- to the outside is a list of effects. The semaphore of the pool is a number of permits that are taken and
-- given back. A list of issues is asked for by its label and the length of its page, and the issues of a
-- repository have labels. The `regex` crate, SHA-256, `from_utf8_lossy` and `f64` are
-- interfaces with the laws that are used, as are `serde_json`, the formats of amounts of money and the
-- number of millionths that a cost is booked as, by a product of `f32`; the cost that the CLI tells, the
-- limit and the total are whole millionths. The answers of git,
-- gh and the CLI's runs, the TOML parser and the typed reading of the settings are arguments. Log lines
-- are left out.
--
-- Fuel. The retry loop has one unit for each attempt that the test allows, and it is shown that it never
-- asks for more. The wait for a token has as many rounds as the answers give, and it is shown that two
-- are enough where the refill is in time. `tail` looks for a boundary in at most as many bytes as it keeps. Decimal numerals have
-- forty digits, enough for 128 bits.
--
-- Not modelled: the command line, the server, the watchdog, the doctor and logging (input and output);
-- the calls of the Docker API; the text of the prompts and reports; how a worktree is opened and a commit
-- is made (calls of git); scripts and tests. The exporter of the metrics, the checksum drift and
-- validator, the schema of the configuration, the refresh of checksums and the rotation of
-- logs are not modelled.
pub mod Base
pub mod Classifier
pub mod Remediation
pub mod Reporting
pub mod Runner
pub mod Lock
pub mod Exit
pub mod Checksums
pub mod Main
pub mod Config
