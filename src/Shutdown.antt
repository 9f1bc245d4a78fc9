-- ===== src/Shutdown.antt =====
-- pkg/shutdown/shutdown.go: the registry of hooks, and ListenAndShutdown as steps that goroutines take
-- in any order. The log lines and the time that a hook took are left out.
pub mod Reached
use jobcrawler.Base.{String, ◌≡◌, Bool, true, false, Option, List, [], ◌∷◌, ◌++◌}
use jobcrawler.World.Errors.{Err}

-- A hook; what its function reports is known when it returns.
pub record Hook : Type 0 where
  pub name : String

-- Before the signal or the end of the context, in the window of the timeout, and after the select,
-- which takes `done` or the timeout.
pub data Phase : Type 0 where
  listening : Phase
  draining : Phase
  returned : Bool → Phase

-- `hooks` of the registry, the copy that ListenAndShutdown made of it, the hooks whose goroutines still
-- run, and the results, the latest first.
pub record State : Type 0 where
  pub phase : Phase
  pub hooks : List Hook
  pub copied : List Hook
  pub running : List Hook
  pub finished : List (Hook × Option Err)

-- New
abbrev pub new : State
new = record { phase = listening; hooks = []; copied = []; running = []; finished = [] }

-- Register
abbrev pub register : Hook → State → State
register h s = record s { hooks = s.hooks ++ (h ∷ []) }

-- The copy under the lock, and a goroutine for each hook of it.
abbrev pub drain : State → State
drain s = record s { phase = draining; copied = s.hooks; running = s.hooks }

-- A hook's function returns: its goroutine logs the result and is done.
abbrev pub complete : Hook → Option Err → List Hook → State → State
complete h result others s = record s { running = others; finished = (h, result) ∷ s.finished }

abbrev pub return_with : Bool → State → State
return_with clean s = record s { phase = returned clean }

-- Registration goes on in every phase, and so do the goroutines after the timeout; `done` is closed
-- when none is left.
pub data Step : State → State → Type 0 where
  registered : (s : State) (h : Hook) → Step s (register h s)
  signalled : (s : State) → s.phase ≡ listening → Step s (drain s)
  completed :
      (s : State) (xs ys : List Hook) (h : Hook) (result : Option Err)
      → s.running ≡ xs ++ (h ∷ ys)
      → Step s (complete h result (xs ++ ys) s)
  all_done : (s : State) → s.phase ≡ draining → s.running ≡ [] → Step s (return_with true s)
  timed_out : (s : State) → s.phase ≡ draining → Step s (return_with false s)

-- Runs of any length.
pub data Steps : State → State → Type 0 where
  stop : (s : State) → Steps s s
  step : {s t u : State} → Step s t → Steps t u → Steps s u
