-- ===== src/Dispatcher/Loop/Drained.antt =====
-- internal/usecase/quotes/dispatcher.go: where the loops of Run end up, and what they make of the
-- in-process storage.
use plata_test_task.Prelude.{
  ℤ, ◌-ℤ◌, ◌≡◌, refl, sym, subst, ap, inl, inr, Bool, true, false, Bool-cases, List, [], ◌∷◌, ◌++◌,
  ◌<◌,
}
use plata_test_task.Errors.{Result, ok}
use plata_test_task.Domain.Rate.{DecimalOps}
use plata_test_task.Memory.State.{Repository}
use plata_test_task.Memory.Claim.{Entry}
use plata_test_task.Memory.Claim.Priority.{Split}
use plata_test_task.Memory.History.{Reach}
use plata_test_task.Limiter.{RateLimiter}
use plata_test_task.UseCase.Port.{RateProvider, memory_repository}
use plata_test_task.Worker.Backoff.{WorkerConfig}
use plata_test_task.Dispatcher.{Dispatcher}
use plata_test_task.Dispatcher.Passes.{run_pass_recovered-IsReported}
use plata_test_task.Dispatcher.Loop.{
  Turn, Phase, waiting, stopped, draining, pass_of, after_pass, drain,
}

module _ {D : Type 0} (zero_value : D) (dec : DecimalOps D) (upstream : RateProvider)
    (w : WorkerConfig) (jittered : ℤ → ℤ) (d : Dispatcher) where
  abbrev pub Held : Type 0
  Held = Repository D × RateLimiter

  abbrev pub pass : Turn D → Held → Result Bool × Held
  pass = pass_of dec upstream (memory_repository zero_value) w jittered d

  abbrev pub drained : List (Turn D) → Held → Phase × Held
  drained = drain dec upstream (memory_repository zero_value) w jittered d

  -- Full passes with no end of the context, one after the other.
  pub data FullPasses : List (Turn D) → Held → Held → Type 0 where
    no_pass : {s : Held} → FullPasses [] s s
    full_pass :
        {t : Turn D} {ts : List (Turn D)} {s end : Held}
        → (pass t s).0 ≡ ok true
        → t.done ≡ false
        → FullPasses ts (pass t s).1 end
        → FullPasses (t ∷ ts) s end

  -- How a drain ends: with a pass that leaves no row of those that are due, with a full pass after
  -- which the context has ended, or with the script.
  pub data Drained : List (Turn D) → Held → Phase × Held → Type 0 where
    emptied :
        {ts : List (Turn D)} {s before : Held} (full : List (Turn D)) (t : Turn D)
        (later : List (Turn D)) (claimed : List Entry)
        → ts ≡ full ++ t ∷ later
        → FullPasses full s before
        → Split before.0 d.batch_size t.now (t.now -ℤ d.visibility_timeout) claimed []
        → Drained ts s (waiting, (pass t before).1)
    interrupted :
        {ts : List (Turn D)} {s before : Held} (full : List (Turn D)) (t : Turn D)
        (later : List (Turn D))
        → ts ≡ full ++ t ∷ later
        → FullPasses full s before
        → (pass t before).0 ≡ ok true
        → t.done ≡ true
        → Drained ts s (stopped, (pass t before).1)
    unfinished :
        {ts : List (Turn D)} {s end : Held} → FullPasses ts s end → Drained ts s (draining, end)

  after_full_pass :
      {t : Turn D} {ts : List (Turn D)} {s : Held} {x : Phase × Held}
      → (pass t s).0 ≡ ok true
      → t.done ≡ false
      → Drained ts (pass t s).1 x
      → Drained (t ∷ ts) s x
  after_full_pass {t} full going (emptied ts u later claimed e passes split) =
      emptied (t ∷ ts) u later claimed (ap (λ us. t ∷ us) e) (full_pass full going passes) split
  after_full_pass {t} full going (interrupted ts u later e passes last done) =
      interrupted (t ∷ ts) u later (ap (λ us. t ∷ us) e) (full_pass full going passes) last done
  after_full_pass full going (unfinished passes) = unfinished (full_pass full going passes)

  abbrev after : Bool → Result Bool × Held → Phase × Held → Phase × Held
  after = after_pass dec upstream (memory_repository zero_value) w jittered d

  after_pass_short :
      (done : Bool) (x : Result Bool × Held) (rest : Phase × Held)
      → x.0 ≡ ok false
      → after done x rest ≡ (waiting, x.1)
  unfolding after_pass
  after_pass_short done (_, s) rest e = rw e refl

  after_pass_last :
      (done : Bool) (x : Result Bool × Held) (rest : Phase × Held)
      → x.0 ≡ ok true
      → done ≡ true
      → after done x rest ≡ (stopped, x.1)
  unfolding after_pass
  after_pass_last done (_, s) rest e f = rw (e, f) refl

  after_pass_full :
      (done : Bool) (x : Result Bool × Held) (rest : Phase × Held)
      → x.0 ≡ ok true
      → done ≡ false
      → after done x rest ≡ rest
  unfolding after_pass
  after_pass_full done (_, s) rest e f = rw (e, f) refl

  -- What is known of the end of a drain.
  abbrev Ends : List (Turn D) → Held → Phase × Held → Type 0
  Ends ts s x = Drained ts s x × Reach x.1.0

  module _ (positive : 0 < d.batch_size) where
    -- Over a storage that its methods reach, with a positive batch size, and whatever the passes meet:
    -- a drain makes full passes and then either goes back to waiting, after a pass that claimed every
    -- row which was due, or returns, after one more full pass that ends when the context has ended, or
    -- has passes left to make. It never panics, and leaves a storage that the methods reach.
    pub drain-Drained :
        (ts : List (Turn D)) (s : Held)
        → Reach s.0
        → Drained ts s (drained ts s) × Reach (drained ts s).1.0
    unfolding drain pass_of
    drain-Drained [] s h = (unfinished no_pass, h)
    drain-Drained (t ∷ ts) s h =
        let x = pass t s in
        let rest = drained ts x.1 in
        let (reached, claimed, waiting_rows, split, reported) =
          run_pass_recovered-IsReported zero_value dec upstream w jittered t.readings t.answer
            t.order d positive s.0 s.1 t.now h in
        elim reported [
          | inl (full, _) ↦ elim (Bool-cases t.done) [
            | inl done ↦
                subst (Ends (t ∷ ts) s) (sym (after_pass_last t.done x rest full done))
                  (interrupted [] t ts refl no_pass full done, reached)
            | inr going ↦
                let (ends, kept) = drain-Drained ts x.1 reached in
                subst (Ends (t ∷ ts) s) (sym (after_pass_full t.done x rest full going))
                  (after_full_pass full going ends, kept)
          ]
          | inr (short, none_waits) ↦
              subst (Ends (t ∷ ts) s) (sym (after_pass_short t.done x rest short)) (
                emptied [] t ts claimed refl no_pass (
                    subst
                      (λ left.
                        Split s.0 d.batch_size t.now (t.now -ℤ d.visibility_timeout) claimed left)
                      none_waits split),
                reached,
              )
        ]
