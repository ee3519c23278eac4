-- ===== src/Worker/Loops.antt =====
-- How the workers' loops end: only on a cancellation, a failed call or a panic.
use retsu.Base.{ℕ, ◌≡◌, refl, List, [], ◌∷◌, ◌++◌, Memᴰ, Result, ok, err, panicked, Action, ap}
use retsu.Worker.Cleaner.{
  Poll, cancelled, completed, Phase, calling, sleeping, Exit, running, stopped, failed,
  task_panicked, Run, counting, called, clean,
}

pub not_there : ¬ Memᴰ cancelled []
not_there m = elim m [ ]

pub not_later : (polls : List Poll) → ¬ Memᴰ cancelled polls → ¬ Memᴰ cancelled (completed ∷ polls)
not_later polls h (Memᴰ.head e) = cc
not_later polls h (Memᴰ.tail m) = h m

module _ {S E : Type 0} (call : Action S E ℕ) (delay : ℕ → ℕ) where
  -- A way to end that the polls and the calls account for.
  abbrev pub AccountsFor : List Poll → Exit E → Type 0
  AccountsFor polls (running phase) = ¬ Memᴰ cancelled polls
  AccountsFor polls stopped = Memᴰ cancelled polls
  AccountsFor polls (failed e) = (s : S) × ((call s).0 ≡ err e)
  AccountsFor polls task_panicked = (s : S) × ((call s).0 ≡ panicked)

  later :
      (polls : List Poll) (exit : Exit E)
      → AccountsFor polls exit
      → AccountsFor (completed ∷ polls) exit
  later polls (running phase) h = not_later polls h
  later polls stopped h = Memᴰ.tail h
  later polls (failed e) h = h
  later polls task_panicked h = h

  called-AccountsFor :
      (polls : List Poll) (s : S) (r : Result E ℕ × S) (next : Phase → S → Run S E)
      → (call s).0 ≡ r.0
      → ((phase : Phase) (s' : S) → AccountsFor polls (next phase s').exit)
      → AccountsFor (completed ∷ polls) (called call delay r next).exit
  called-AccountsFor polls s (ok n, s') next e h = later polls _ (h (sleeping (delay n)) s')
  called-AccountsFor polls s (err x, s') next e h = (s, e)
  called-AccountsFor polls s (panicked, s') next e h = (s, e)

  -- A cleaner's loop is still running unless it was cancelled or a call failed: it returns only if
  -- a poll found the cancellation, returns an error only if a call returned that error, and panics
  -- only if a call did.
  pub clean-AccountsFor :
      (phase : Phase) (polls : List Poll) (s : S)
      → AccountsFor polls (clean call delay phase polls s).exit
  unfolding clean
  clean-AccountsFor phase [] s = not_there
  clean-AccountsFor phase (cancelled ∷ polls) s = Memᴰ.head refl
  clean-AccountsFor calling (completed ∷ polls) s =
      called-AccountsFor polls s (call s) (λ phase. clean call delay phase polls) refl
        (λ phase s'. clean-AccountsFor phase polls s')
  clean-AccountsFor (sleeping d) (completed ∷ polls) s =
      later polls _ (clean-AccountsFor calling polls s)

  called_same :
      (r : Result E ℕ × S) (f g : Phase → S → Run S E)
      → ((phase : Phase) (s : S) → f phase s ≡ g phase s)
      → called call delay r f ≡ called call delay r g
  called_same (ok n, s) f g h = ap (counting n) (h (sleeping (delay n)) s)
  called_same (err e, s) f g h = refl
  called_same (panicked, s) f g h = refl

  pub clean-cancelled :
      (phase : Phase) (polls more : List Poll) (s : S)
      → clean call delay phase (polls ++ cancelled ∷ more) s
        ≡ clean call delay phase (polls ++ cancelled ∷ []) s
  unfolding clean
  clean-cancelled phase [] more s = refl
  clean-cancelled phase (cancelled ∷ polls) more s = refl
  clean-cancelled calling (completed ∷ polls) more s =
      called_same (call s) (λ phase. clean call delay phase (polls ++ cancelled ∷ more))
        (λ phase. clean call delay phase (polls ++ cancelled ∷ []))
        (λ phase s'. clean-cancelled phase polls more s')
  clean-cancelled (sleeping d) (completed ∷ polls) more s = clean-cancelled calling polls more s
