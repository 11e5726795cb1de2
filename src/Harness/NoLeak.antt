-- ===== src/Harness/NoLeak.antt =====
-- No guest outlives its test: the loop and the cleanup of `execute_test`.
use sev_certify.Prelude.{
  if_both, ℕ, ◌+◌, ◌-◌, ◌≡◌, refl, sym, ap, ◌∙◌, ◌⊎◌, inl, inr, ◌&&◌, List, [], ◌∷◌, Option, none,
  some, Result, ok, err, is_ok, pos, arith, Each,
}
use sev_certify.Models.Step.{BaseStep, post_init}
use sev_certify.Models.Definitions.{TestResult}
use sev_certify.Harness.Profile.{VmProfile, VmLaunchResult}
use sev_certify.Harness.World.{Exc, Host}
use sev_certify.Harness.Loop.{Config, Vm, Ran}
use sev_certify.Harness.Run.{
  St, advance, log, run_steps, start, conclude, cleanup, after_stop, execute_test, is_failing,
  is_setup,
}
use sev_certify.Harness.Guests.{one_if, held, Holds, Counts, exec_step-Holds}

module _ {W : Type 0} (h : Host W) (c : Config) (running : W → ℕ) (law : Counts h running)
    (n : ℕ) where
  -- The same of the state of the loop.
  abbrev Held : {A : Type 0} → A × St W → Type 0
  Held (out, st) = running st.vm.world ≡ n + held st.vm.launch

  log-count :
      (step : BaseStep) (r : Ran) (vm : Vm W) → running (log h c step r vm).world ≡ running vm.world
  log-count step r vm =
      if_both {A = Vm W} (λ v. running v.world ≡ running vm.world) c.debug (law.log _ _) refl

  log-launch : (step : BaseStep) (r : Ran) (vm : Vm W) → (log h c step r vm).launch ≡ vm.launch
  log-launch step r vm = if_both {A = Vm W} (λ v. v.launch ≡ vm.launch) c.debug refl refl

  advance-Held :
      (step : BaseStep) (steps : List BaseStep) (resume : St W → Result Exc (Unit {0}) × St W)
      (st : St W) (out : Result Exc Ran × Vm W)
      → Holds running n out
      → ((st' : St W) → running st'.vm.world ≡ n + held st'.vm.launch → Held (resume st'))
      → Held (advance h c step steps resume st out)
  unfolding advance
  advance-Held step steps resume st (err e, vm) now later = now
  advance-Held step steps resume st (ok r, vm) now later =
      let logged : running (log h c step r vm).world ≡ n + held (log h c step r vm).launch =
        log-count step r vm ∙ now ∙ ap (λ l. n + held l) (sym (log-launch step r vm)) in
      if_both {A = Result Exc (Unit {0}) × St W} Held (is_failing r.result && is_setup step) logged
        (later _ logged)

  run_steps-Held :
      (steps : List BaseStep) (st : St W)
      → Each (λ s. post_init s ≡ ok s) steps
      → running st.vm.world ≡ n + held st.vm.launch
      → Held (run_steps h c steps st)
  unfolding run_steps
  run_steps-Held [] st accepted e = e
  run_steps-Held (step ∷ steps) st accepted e =
      advance-Held step steps (run_steps h c steps) st _
        (exec_step-Holds h c running law n step accepted.0 step.kind st.results st.vm e)
        λ st' e'. run_steps-Held steps st' accepted.1 e'

  -- The count is that of before, unless the stop of the cleanup raised.
  abbrev Settled : W → Type 0
  Settled w' =
      (running w' ≡ n)
      ⊎ ((launch : VmLaunchResult) × (w : W) × (e : Exc) × (h.stop_vm launch (pos 10) w
            ≡ (err e, w')))

  after_stop-Settled :
      (out : Result Exc TestResult) (launch : VmLaunchResult) (w : W)
      (stopped : Result Exc (Unit {0}) × W)
      → h.stop_vm launch (pos 10) w ≡ stopped
      → running w ≡ n + 1
      → Settled (after_stop h c out stopped).1
  after_stop-Settled out launch w (ok done, w1) s e =
      let counted : running w1 ≡ running w - 1 =
        ap (λ p. running p.1) (sym s)
        ∙ law.stop launch (pos 10) w
        ∙ ap (λ p. running w - one_if (is_ok p.0)) s in
      inl (omega (arith, counted, e))
  after_stop-Settled out launch w (err x, w1) s e = inr (launch, w, x, s)

  cleanup-Settled :
      (out : Result Exc TestResult) (launch : Option VmLaunchResult) (profile : Option VmProfile)
      (w : W)
      → running w ≡ n + held launch
      → Settled (cleanup h c (out, record { launch = launch; profile = profile; world = w })).1
  unfolding cleanup
  cleanup-Settled out none profile w e = inl (omega (arith, e))
  cleanup-Settled out (some launch) profile w e = after_stop-Settled out launch w _ refl e

  conclude-Settled :
      (ran : Result Exc (Unit {0}) × St W) → Held ran → Settled (cleanup h c (conclude h c ran)).1
  conclude-Settled (ok done, st) e = cleanup-Settled _ st.vm.launch st.vm.profile st.vm.world e
  conclude-Settled (err x, st) e = cleanup-Settled _ st.vm.launch st.vm.profile st.vm.world e

-- Of a test whose steps `__post_init__` accepts, run against a world in which a launch that returns
-- adds one running guest, a stop that returns takes one away, and nothing else starts or ends one:
-- when `execute_test` ends, by returning or by raising, as many guests run as before, unless the stop
-- of its cleanup raised.
pub execute_test-Settled :
    {W : Type 0} (h : Host W) (c : Config) (running : W → ℕ) (w : W) (steps : List BaseStep)
    (declared : Option VmProfile)
    → Counts h running
    → c.plan ≡ some (steps, declared)
    → Each (λ s. post_init s ≡ ok s) steps
    → (running (execute_test h c w).1 ≡ running w)
      ⊎ ((launch : VmLaunchResult) × (w1 : W) × (e : Exc) × (h.stop_vm launch (pos 10) w1
            ≡ (err e, (execute_test h c w).1)))
unfolding execute_test
execute_test-Settled h c running w steps declared law planned accepted =
    let run : execute_test h c w
        ≡ cleanup h c (conclude h c (run_steps h c steps (start h c declared w))) =
      cc planned in
    rw run (
      conclude-Settled h c running law (running w) (run_steps h c steps (start h c declared w)) (
        run_steps-Held h c running law (running w) steps (start h c declared w) accepted
          (omega (arith, law.mkdir c.artifact_dir w))))
