-- ===== src/Random/Fork/Detect.antt =====
-- That a guard sees every fork: processes that descend from one another by forks and by calls of
-- `generation`.
use native.Mathlib.Nat.{mod-eq_of_lt}
use hardware_rust_crypto.Prelude.{
  ℕ, suc, ◌+◌, ◌%◌, ◌^◌, ◌<◌, ◌≡◌, refl, sym, ap, ◌∙◌, Bool, true, false, Option, none, some, ◌==◌,
  ==_iff, Bool-cases, inl, inr, arith, if◌then◌else◌,
}
use hardware_rust_crypto.Random.Fork.{
  Process, bump_generation_in_child, get_or_init, generation, capture, is_some_of, or_fork_detected,
  check,
}

-- The child of `fork`: the handler runs in it if it is installed.
abbrev run_handler : Option Bool → Process → Process
run_handler (some true) p = bump_generation_in_child p
run_handler (some false) p = p
run_handler none p = p

abbrev pub child : ℕ → Process → Process
child pid p = record (run_handler p.installed p) { pid = pid }

-- `Descends n p q`: from `p`, through `n` forks and any calls of `generation`, to `q`.
pub data Descends (p : Process) : ℕ → Process → Type 0 where
  itself : Descends p 0 p
  forks : {n : ℕ} {q : Process} → Descends p n q → (pid : ℕ) → Descends p (suc n) (child pid q)
  asks :
      {n : ℕ} {q : Process}
      → Descends p n q
      → (atfork : Bool) → Descends p n (generation atfork q).0

child-installed :
    (pid : ℕ) (q : Process)
    → q.installed ≡ some true
    → ((child pid q).installed ≡ some true)
      × ((child pid q).fork_generation ≡ (q.fork_generation + 1) % 2 ^ 64)
unfolding bump_generation_in_child
child-installed pid q e =
    ((λ i. (run_handler (e i) q).installed) ∙ e, λ i. (run_handler (e i) q).fork_generation)

-- The installed handler counts the forks.
pub Descends-generation :
    {p q : Process} {n : ℕ}
    → p.installed ≡ some true
    → p.fork_generation < 2 ^ 64
    → Descends p n q
    → (q.installed ≡ some true) × (q.fork_generation ≡ (p.fork_generation + n) % 2 ^ 64)
unfolding generation
Descends-generation e h itself = (e, omega arith)
Descends-generation e h (forks {n} {q} d pid) =
    let ih = Descends-generation e h d in
    let c = child-installed pid q ih.0 in (c.0, omega (arith, c.1, ih.1))
Descends-generation e h (asks {n} {q} d atfork) =
    let ih = Descends-generation e h d in (ap some (λ i. get_or_init atfork (ih.0 i)), ih.1)

pub same_number : (m n : ℕ) → m < 2 ^ 64 → n < 2 ^ 64 → ((m + n) % 2 ^ 64 == m % 2 ^ 64) ≡ (n == 0)
same_number m n hm hn = elim (Bool-cases (n == 0)) [
  | inl e ↦ let z : n ≡ 0 = (==_iff n 0).0 e in rw z (ground arith)
  | inr e ↦ ground arith
]

-- A guard that is captured in a process is checked in a process that descends from it through
-- fewer than 2^64 forks. If the handler was installed before or by the capture, the check passes
-- exactly if there was no fork, whatever process ids the children have; if the handler was
-- refused, the check passes exactly in a process with the id that was captured.
pub check-captured :
    (atfork again : Bool) (p q : Process) (n : ℕ)
    → p.fork_generation < 2 ^ 64
    → n < 2 ^ 64
    → Descends (capture atfork p).0 n q
    → (check again (capture atfork p).1 q).1
      ≡ or_fork_detected (if get_or_init atfork p.installed then n == 0 else (q.pid == p.pid))
unfolding capture check generation
check-captured atfork again p q n hp hn d = elim (Bool-cases (get_or_init atfork p.installed)) [
  | inl e ↦
      let counted = Descends-generation (ap some e) hp d in
      let same : (q.fork_generation == p.fork_generation) ≡ (n == 0) =
        ap (λ t. t == p.fork_generation) counted.1
        ∙ ap (◌==◌ ((p.fork_generation + n) % 2 ^ 64)) (sym (mod-eq_of_lt hp))
        ∙ same_number p.fork_generation n hp hn in
      rw e (
        ap or_fork_detected (
          (λ i.
            is_some_of p.fork_generation
              (if get_or_init again (counted.0 i) then some q.fork_generation else none))
          ∙ same))
  | inr e ↦ rw e refl
]
