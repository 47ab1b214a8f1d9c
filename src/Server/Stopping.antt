-- ===== src/Server/Stopping.antt =====
-- How the loop of `Server::start` in src/server.cpp ends when a signal arrives.
use spx.Prelude.{◌≡◌, refl, Bool, true, false, List, [], ◌∷◌, ◌++◌, if◌then◌else◌}
use spx.Outcome.{Outcome, M, returns, throws, fault, and_then}
use spx.Outcome.Ends.{Returned}
use spx.Net.Sys.{Sys}
use spx.Http.Parser.{Parser}
use spx.Server.State.{Server}
use spx.Server.Events
use spx.Server.Events.{run, stop, poll, handle_events}

and_then-cong :
    {S A B : Type 0} (m : Outcome S A) (f g : A → M S B)
    → ((a : A) (s : S) → f a s ≡ g a s)
    → and_then m f ≡ and_then m g
and_then-cong (returns a s) f g h = h a s
and_then-cong (throws e s) f g h = refl
and_then-cong (fault x) f g h = refl

if-cong :
    {S A : Type 0} (b : Bool) (m n k : M S A) (s : S)
    → m s ≡ n s
    → (if b then m else k) s ≡ (if b then n else k) s
if-cong true m n k s e = e
if-cong false m n k s e = refl

and_then-Returned :
    {S A B : Type 0} (Q : B → S → Type 0) (m : Outcome S A) (f : A → M S B)
    → ((a : A) (s : S) → Returned Q (f a s))
    → Returned Q (and_then m f)
and_then-Returned Q (returns a s) f h = h a s
and_then-Returned Q (throws e s) f h = tt
and_then-Returned Q (fault x) f h = tt

if-Returned :
    {S A : Type 0} (Q : A → S → Type 0) (b : Bool) (m k : M S A) (s : S)
    → (b ≡ true → Returned Q (m s))
    → (b ≡ false → Returned Q (k s))
    → Returned Q ((if b then m else k) s)
if-Returned Q true m k s h j = h refl
if-Returned Q false m k s h j = j refl

abbrev pub Stopped : {lib : Parser} {W : Type 0} → Unit {0} → Server lib W → Type 0
Stopped u t = t.is_running ≡ false

module _ {lib : Parser} {W : Type 0} (sys : Sys W) where
  -- A server that does not run goes into no round.
  run_stopped :
      (rounds : List Bool) (s : Server lib W)
      → s.is_running ≡ false
      → run sys rounds s ≡ returns tt s
  unfolding run
  run_stopped [] s e = refl
  run_stopped (signal ∷ rest) s e = rw e refl

  run_again :
      (l rest : List Bool) (s : Server lib W)
      → run sys (l ++ true ∷ rest) s ≡ run sys (l ++ true ∷ []) s
  unfolding run stop
  run_again [] rest s = if-cong s.is_running _ _ _ s (
      and_then-cong (poll sys s) _ _ λ pfds t.
        and_then-cong (handle_events sys pfds t) _ _ λ u v. run_stopped rest (stop sys v) refl)
  run_again (signal ∷ l) rest s =
      let again = run_again l rest in
      if-cong s.is_running _ _ _ s (
        and_then-cong (poll sys s) _ _ λ pfds t.
          and_then-cong (handle_events sys pfds t) _ _
            λ u v. and_then-cong (Events.signalled sys signal v) _ _ λ x y. again y)

  signalled_last :
      (l : List Bool) (s : Server lib W) → Returned Stopped (run sys (l ++ true ∷ []) s)
  unfolding run stop
  signalled_last [] s =
      if-Returned Stopped s.is_running _ _ s
        (λ on.
          and_then-Returned Stopped (poll sys s) _
            λ pfds t. and_then-Returned Stopped (handle_events sys pfds t) _ λ u v. refl)
        (λ off. off)
  signalled_last (signal ∷ l) s =
      if-Returned Stopped s.is_running _ _ s
        (λ on. and_then-Returned Stopped (poll sys s) _ λ pfds t.
          and_then-Returned Stopped (handle_events sys pfds t) _ λ u v.
            and_then-Returned Stopped (Events.signalled sys signal v) _ λ x y. signalled_last l y)
        (λ off. off)

  -- The loop ends with a round in which a signal arrives, whatever has happened in that round and before:
  -- to let it run for more rounds makes no difference, and if it returns, the server is not running.
  pub run-stops :
      (l rest : List Bool) (s : Server lib W)
      → (run sys (l ++ true ∷ rest) s ≡ run sys (l ++ true ∷ []) s)
        × Returned Stopped (run sys (l ++ true ∷ rest) s)
  run-stops l rest s = let same = run_again l rest s in (same, rw same (signalled_last l s))
