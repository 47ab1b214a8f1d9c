-- ===== src/Server/Safety/Covers.antt =====
-- The step relation of `Reach` covers `Server::start` of src/server.cpp.
use mathlib.Core.Path.{subst}
use spx.Prelude.{
  refl, ◌≡◌, true, false, Bool, Bool-cases, inl, inr, if◌then◌else◌, List, [], ◌∷◌, arith,
}
use spx.Outcome.{M, Outcome, returns, throws, fault, and_then, pure, ◌>>=◌, ◌>>◌}
use spx.Net.Sys.{Sys, Pollfd}
use spx.Net.PassiveSocket
use spx.Http.Parser.{Parser}
use spx.Server.State.{Server, on_host}
use spx.Server.Events.{
  poll, handle_event, handle_events, run, start, stop, signalled, pending_connections_queue_len,
}
use spx.Server.Safety.Reach.{Reach, starts, polls, handles, stops, running}

-- A sequence that returns has parts that return.
and_then-parts :
    {S A B : Type 0} (o : Outcome S A) (f : A → M S B) (b : B) (t : S)
    → and_then o f ≡ returns b t
    → (a : A) × (s : S) × (o ≡ returns a s) × (f a s ≡ returns b t)
and_then-parts (returns a s) f b t e = (a, s, refl, e)
and_then-parts (throws x s) f b t e = cc
and_then-parts (fault x) f b t e = cc

module _ {lib : Parser} {W : Type 0} (sys : Sys W) (s : Server lib W) where
  -- Every state of a run of the loop, in which any connection may be accepted.
  abbrev Run : Server lib W → List Pollfd → Type 0
  Run = Reach sys (λ t. Unit {0}) s

  handle_events-Run :
      (l : List Pollfd) (t u : Server lib W)
      → Run t l
      → handle_events sys l t ≡ returns tt u
      → Run u []
  unfolding handle_events
  handle_events-Run [] t u r e = let same : t ≡ u = cc in subst (λ x. Run x []) same r
  handle_events-Run (p ∷ l) t u r e =
      let (_, v, one, more) =
        and_then-parts (handle_event sys p t) (λ _. handle_events sys l) tt u e in
      handle_events-Run l v u (handles r (λ _. tt) one) more

  signalled-Run :
      (b : Bool) (t u : Server lib W) → Run t [] → signalled sys b t ≡ returns tt u → Run u []
  signalled-Run true t u r e =
      let same : stop sys t ≡ u = cc in subst (λ x. Run x []) same (stops r)
  signalled-Run false t u r e = let same : t ≡ u = cc in subst (λ x. Run x []) same r

  abbrev round : Bool → List Bool → List Pollfd → M (Server lib W) (Unit {0})
  round b rounds pfds = handle_events sys pfds >> (signalled sys b >> run sys rounds)

  run-Run :
      (rounds : List Bool) (t u : Server lib W)
      → Run t []
      → run sys rounds t ≡ returns tt u
      → Run u []
  unfolding run
  run-Run [] t u r e = let same : t ≡ u = cc in subst (λ x. Run x []) same r
  run-Run (b ∷ rounds) t u r e = elim (Bool-cases t.is_running) [
    | inr off ↦ let same : t ≡ u = ground (arith, e, off) in subst (λ x. Run x []) same r
    | inl on ↦
        let once : and_then (poll sys t) (round b rounds) ≡ returns tt u =
          subst (λ c. (if c then poll sys >>= round b rounds else pure tt) t ≡ returns tt u) on e in
        let (l, v, polled, rest) = and_then-parts (poll sys t) (round b rounds) tt u once in
        let (_, w, handled, more) =
          and_then-parts (handle_events sys l v) (λ _. signalled sys b >> run sys rounds) tt u
            rest in
        let (_, x, noted, again) =
          and_then-parts (signalled sys b w) (λ _. run sys rounds) tt u more in
        run-Run rounds x u
          (signalled-Run b w x (handle_events-Run l v w (polls r on polled) handled) noted) again
  ]

  -- The state in which `start` returns is one of a run.
  start-Run : (rounds : List Bool) (t : Server lib W) → start sys rounds s ≡ returns tt t → Run t []
  unfolding start
  start-Run rounds t e =
      let listen =
        on_host (PassiveSocket.listen sys s.server_socket pending_connections_queue_len) in
      let (_, u, listened, more) =
        and_then-parts (listen s) (λ _ v. run sys rounds (running v)) tt t e in
      run-Run rounds (running u) t (starts listened) more
