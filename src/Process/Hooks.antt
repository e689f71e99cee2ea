-- ===== src/Process/Hooks.antt =====
-- The hooks run on the first interrupt, and never again.
use fiberproxy.Prelude.{
  ℕ, Bool, true, false, List, [], ◌∷◌, ◌++◌, ◌≡◌, refl, ap, ◌∙◌, append-nil, append_assoc,
  if◌then◌else◌, arith,
}
use fiberproxy.Process.Signals.{
  is_interrupt, waiting, ended, exited, Signals, Event, add_hook, signal, wait_error, new_signals,
  add_exit_hook, run_hooks, run_hooks_on_exit, on_signal, handle, run_events,
}

module _ {H : Type 0} where
  -- no interrupt and no failure of sigwait among the events
  abbrev pub Quiet : List (Event H) → Type 0
  Quiet [] = Unit
  Quiet (add_hook h ∷ es) = Quiet es
  Quiet (signal sig ∷ es) = (is_interrupt sig ≡ false) × Quiet es
  Quiet (wait_error ∷ es) = ⊥

  -- the hooks that are added, in order
  abbrev pub added : List (Event H) → List H
  added [] = []
  added (add_hook h ∷ es) = h ∷ added es
  added (signal sig ∷ es) = added es
  added (wait_error ∷ es) = added es

  module _ (throws : H → ℕ → Bool) where
    run_events-append :
        (es fs : List (Event H)) (s : Signals H)
        → run_events throws (es ++ fs) s ≡ run_events throws fs (run_events throws es s)
    unfolding run_events
    run_events-append [] fs s = refl
    run_events-append (e ∷ es) fs s = run_events-append es fs (handle throws s.phase e s)

    -- While the thread waits, quiet events only add hooks.
    run_events-Quiet :
        (es : List (Event H)) (hs : List H)
        → Quiet es
        → run_events throws es (record { hooks = hs; phase = waiting; ran = [] })
          ≡ record { hooks = hs ++ added es; phase = waiting; ran = [] }
    unfolding run_events on_signal add_exit_hook
    run_events-Quiet [] hs q = rw append-nil
    run_events-Quiet (add_hook h ∷ es) hs q =
        run_events-Quiet es (hs ++ (h ∷ [])) q ∙ rw append_assoc
    run_events-Quiet (signal sig ∷ es) hs q = rw q.0 (run_events-Quiet es hs q.1)
    run_events-Quiet (wait_error ∷ es) hs q = absurd q

    -- What the thread has run stays when it has returned.
    run_events-ended :
        (es : List (Event H)) (hs : List H) (calls : List (H × ℕ))
        → (run_events throws es (record { hooks = hs; phase = ended; ran = calls })).ran ≡ calls
    unfolding run_events add_exit_hook
    run_events-ended [] hs calls = refl
    run_events-ended (add_hook h ∷ es) hs calls = run_events-ended es _ calls
    run_events-ended (signal sig ∷ es) hs calls = run_events-ended es hs calls
    run_events-ended (wait_error ∷ es) hs calls = run_events-ended es hs calls

    run_events-exited :
        (es : List (Event H)) (hs : List H) (calls : List (H × ℕ))
        → (run_events throws es (record { hooks = hs; phase = exited; ran = calls })).ran ≡ calls
    unfolding run_events
    run_events-exited [] hs calls = refl
    run_events-exited (e ∷ es) hs calls = run_events-exited es hs calls

    after_hooks :
        (es : List (Event H)) (hs : List H) (calls : List (H × ℕ)) (b : Bool)
        → (run_events throws es
            (record { hooks = hs; phase = if b then exited else ended; ran = calls })).ran
          ≡ calls
    after_hooks es hs calls true = run_events-exited es hs calls
    after_hooks es hs calls false = run_events-ended es hs calls

    -- The hooks up to the first that throws.
    abbrev pub until_throw : List H → ℕ → List (H × ℕ)
    until_throw [] sig = []
    until_throw (h ∷ hs) sig =
        (h, sig) ∷ (let rest = until_throw hs sig in if throws h sig then [] else rest)

    run_hooks-until_throw :
        (hs : List H) (sig : ℕ) → (run_hooks throws hs sig).0 ≡ until_throw hs sig
    unfolding run_hooks
    run_hooks-until_throw [] sig = refl
    run_hooks-until_throw (h ∷ hs) sig = ground (arith, run_hooks-until_throw hs sig)

    first_interrupt :
        (fs : List (Event H)) (hs : List H) (sig : ℕ)
        → is_interrupt sig ≡ true
        → (run_events throws
            (signal sig ∷ fs)
            (record { hooks = hs; phase = waiting; ran = [] })).ran
          ≡ until_throw hs sig
    unfolding run_events on_signal run_hooks_on_exit
    first_interrupt fs hs sig i =
        rw (i, run_events)
          (after_hooks fs hs (run_hooks throws hs sig).0 _ ∙ run_hooks-until_throw hs sig)

    -- When the first interrupt comes, behind added hooks and other signals, the hooks that were
    -- added before it run with its signal, each once, in their order, up to the first that throws;
    -- whatever comes later runs none.
    pub run_events-until_throw :
        (es fs : List (Event H)) (sig : ℕ)
        → Quiet es
        → is_interrupt sig ≡ true
        → (run_events throws (es ++ (signal sig ∷ fs)) new_signals).ran ≡ until_throw (added es) sig
    run_events-until_throw es fs sig q i =
        ap (λ s. s.ran) (run_events-append es (signal sig ∷ fs) new_signals)
        ∙ ap (λ s. (run_events throws (signal sig ∷ fs) s).ran) (run_events-Quiet es [] q)
        ∙ first_interrupt fs (added es) sig i
