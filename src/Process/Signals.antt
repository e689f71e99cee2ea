-- ===== src/Process/Signals.antt =====
-- source/process/common/OnSignal.cpp: the hooks, and the thread that waits for the signals. What
-- happens to it is a list of events: another thread adds a hook, or sigwait returns.
use fiberproxy.Prelude.{ℕ, Bool, true, false, ◌||◌, List, [], ◌∷◌, ◌++◌, if◌then◌else◌, ◌==◌}

abbrev pub sighup : ℕ
sighup = 1

abbrev pub sigint : ℕ
sigint = 2

abbrev pub sigquit : ℕ
sigquit = 3

abbrev pub sigpipe : ℕ
sigpipe = 13

abbrev pub sigterm : ℕ
sigterm = 15

unfoldable pub is_interrupt : ℕ → Bool
is_interrupt sig = sig == sigint || sig == sighup || sig == sigterm || sig == sigquit

-- The thread waits or has returned; `exited` is exit(1) and _exit(1), which end the process.
pub data Phase : Type 0 where
  waiting ended exited : Phase

module _ (H : Type 0) where
  pub record Signals : Type 0 where
    -- gOnExit()
    pub hooks : List H
    pub phase : Phase
    -- the calls of hooks, with the signal, in order
    pub ran : List (H × ℕ)

  pub data Event : Type 0 where
    add_hook : H → Event
    signal : ℕ → Event
    wait_error : Event

module _ {H : Type 0} where
  -- after setupDefaultSignalHandlers
  abbrev pub new_signals : Signals H
  new_signals = record { hooks = []; phase = waiting; ran = [] }

  unfoldable pub add_exit_hook : H → Signals H → Signals H
  add_exit_hook h s = record s { hooks = s.hooks ++ (h ∷ []) }

  -- `throws h sig`: the hook throws
  module _ (throws : H → ℕ → Bool) where
    -- for_each over the hooks: the calls that are made, and whether the last one threw
    unfoldable pub run_hooks : List H → ℕ → List (H × ℕ) × Bool
    run_hooks [] sig = ([], false)
    run_hooks (h ∷ hs) sig =
        let rest = run_hooks hs sig in
        if throws h sig then ((h, sig) ∷ [], true) else ((h, sig) ∷ rest.0, rest.1)

    -- gRunHooksOnExitWithSignal, and the return of the thread
    unfoldable pub run_hooks_on_exit : ℕ → Signals H → Signals H
    run_hooks_on_exit sig s =
        let r = run_hooks s.hooks sig in
        record s { ran = s.ran ++ r.0; phase = if r.1 then exited else ended }

    -- one round of sig_thread
    unfoldable pub on_signal : ℕ → Signals H → Signals H
    on_signal sig s = if is_interrupt sig then run_hooks_on_exit sig s else s

    abbrev pub handle : Phase → Event H → Signals H → Signals H
    handle waiting (add_hook h) s = add_exit_hook h s
    handle waiting (signal sig) s = on_signal sig s
    handle waiting wait_error s = record s { phase = exited }
    handle ended (add_hook h) s = add_exit_hook h s
    handle ended (signal sig) s = s
    handle ended wait_error s = s
    handle exited e s = s

    unfoldable pub run_events : List (Event H) → Signals H → Signals H
    run_events [] s = s
    run_events (e ∷ es) s = run_events es (handle s.phase e s)
