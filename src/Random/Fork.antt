-- ===== src/Random/Fork.antt =====
-- src/random/fork.rs and `ForkGuard` of src/random/mod.rs. The state is the process: the two
-- statics of `generation` and the process id. What `pthread_atfork` answers is an argument.
pub mod Detect
use hardware_rust_crypto.Prelude.{
  ℕ, ◌+◌, ◌%◌, ◌^◌, Bool, true, false, Option, none, some, ◌==◌, if◌then◌else◌,
}
use hardware_rust_crypto.Random.Error.{Error, fork_detected, Result, ok, err}

-- `FORK_GENERATION`, `INSTALLED` and `std::process::id()`.
pub record Process : Type 0 where
  pub fork_generation : ℕ
  pub installed : Option Bool
  pub pid : ℕ

unfoldable pub bump_generation_in_child : Process → Process
bump_generation_in_child p = record p { fork_generation = (p.fork_generation + 1) % 2 ^ 64 }

-- `INSTALLED.get_or_init(..)`: the handler is installed on first use only.
abbrev pub get_or_init : Bool → Option Bool → Bool
get_or_init atfork none = atfork
get_or_init atfork (some seen) = seen

unfoldable pub generation : Bool → Process → Process × Option ℕ
generation atfork p =
    let installed = get_or_init atfork p.installed in
    (record p { installed = some installed }, if installed then some p.fork_generation else none)

pub data ForkGuard : Type 0 where
  of_generation of_process_id : ℕ → ForkGuard

-- `map_or_else`.
abbrev pub guard_of : ℕ → Option ℕ → ForkGuard
guard_of pid none = of_process_id pid
guard_of pid (some g) = of_generation g

unfoldable pub capture : Bool → Process → Process × ForkGuard
unfolding generation
capture atfork p = let r = generation atfork p in (r.0, guard_of p.pid r.1)

-- `generation() == Some(seen)`.
abbrev pub is_some_of : ℕ → Option ℕ → Bool
is_some_of seen none = false
is_some_of seen (some g) = g == seen

abbrev pub or_fork_detected : Bool → Result (Unit {0})
or_fork_detected unchanged = if unchanged then ok tt else err fork_detected

unfoldable pub check : Bool → ForkGuard → Process → Process × Result (Unit {0})
unfolding generation
check atfork (of_generation seen) p =
    let r = generation atfork p in (r.0, or_fork_detected (is_some_of seen r.1))
check atfork (of_process_id seen) p = (p, or_fork_detected (p.pid == seen))
