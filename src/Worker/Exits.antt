-- ===== src/Worker/Exits.antt =====
-- What `serve` returns, by how the workers and the signal end.
use retsu.Base.{
  Bool, true, false, Option, none, some, List, [], ◌∷◌, ◌++◌, Text, ◌≡◌, refl, ◌↔◌, Result, ok, err,
  panicked, try, subst, All,
}
use retsu.Worker.Serve.{
  Joined, worker_exit, join_error, ServeError, First, signal, joined, Drain, drained, timed_out,
  shutdown_error, drain_from, as_result, drain, drain_result, first_result, serve, serve_workers,
  get_or_insert,
}

module _ {E : Type 0} where
  -- The worker that ended returned `Ok(())`.
  abbrev pub Fine : Joined E → Type 0
  Fine (worker_exit name none) = Unit
  Fine (worker_exit name (some e)) = ⊥
  Fine join_error = ⊥

  Fine-shutdown_error : (j : Joined E) → Fine j → shutdown_error j ≡ none
  Fine-shutdown_error (worker_exit name none) h = refl
  Fine-shutdown_error (worker_exit name (some e)) h = absurd h
  Fine-shutdown_error join_error h = absurd h

  shutdown_error-Fine : (j : Joined E) → shutdown_error j ≡ none → Fine j
  shutdown_error-Fine (worker_exit name none) h = tt
  shutdown_error-Fine (worker_exit name (some e)) h = absurd (cc)
  shutdown_error-Fine join_error h = absurd (cc)

  kept : (e : ServeError E) (js : List (Joined E)) → drain_from (some e) js ≡ some e
  unfolding drain_from
  kept e [] = refl
  kept e (j ∷ js) = kept e js

  -- Either every worker ended well, or there is a first one that did not.
  abbrev FirstError : List (Joined E) → Option (ServeError E) → Type 0
  FirstError js none = All Fine js
  FirstError js (some e) =
      (before : List (Joined E)) × (j : Joined E) × (after : List (Joined E)) × (js
        ≡ before ++ j ∷ after)
      × All Fine before
      × (shutdown_error j ≡ some e)

  drain_from-FirstError : (js : List (Joined E)) → FirstError js (drain_from none js)
  unfolding drain_from
  drain_from-FirstError [] = tt
  drain_from-FirstError (j ∷ js) = step (shutdown_error j) refl (drain_from-FirstError js)
    where
      further : (o : Option (ServeError E)) → Fine j → FirstError js o → FirstError (j ∷ js) o
      further none fine h = (fine, h)
      further (some e) fine (before, k, after, split, all_fine, failed) =
          (j ∷ before, k, after, rw split refl, (fine, all_fine), failed)

      step :
          (o : Option (ServeError E))
          → shutdown_error j ≡ o
          → FirstError js (drain_from none js)
          → FirstError (j ∷ js) (drain_from (get_or_insert none o) js)
      step none e h = further (drain_from none js) (shutdown_error-Fine j e) h
      step (some e') e h = rw (kept e' js) ([], j, js, refl, tt, e)

  of_result :
      (o : Option (ServeError E)) (js : List (Joined E)) {e : ServeError E}
      → FirstError js o
      → as_result o ≡ err e
      → FirstError js (some e)
  of_result none js h eq = absurd (cc)
  of_result (some e') js h eq = subst (λ x. FirstError js (some x)) (cc eq) h

  pub drain-eq-err :
      (js : List (Joined E)) {e : ServeError E}
      → drain js ≡ err e
      → (before : List (Joined E)) × (j : Joined E) × (after : List (Joined E)) × (js
          ≡ before ++ j ∷ after)
        × All Fine before
        × (shutdown_error j ≡ some e)
  unfolding drain
  drain-eq-err js eq = of_result (drain_from none js) js (drain_from-FirstError js) eq

  -- The drain ran out of time, or every worker that it waited for ended well.
  abbrev pub EndsWell : Drain E → Type 0
  EndsWell (drained js) = All Fine js
  EndsWell timed_out = Unit

  of_ok :
      (o : Option (ServeError E)) (js : List (Joined E))
      → FirstError js o
      → as_result o ≡ ok tt
      → All Fine js
  of_ok none js h eq = h
  of_ok (some e) js h eq = absurd (cc)

  Fine-drain_from : (js : List (Joined E)) → All Fine js → drain_from none js ≡ none
  unfolding drain_from
  Fine-drain_from [] h = refl
  Fine-drain_from (j ∷ js) h = rw (Fine-shutdown_error j h.0) (Fine-drain_from js h.1)

  drain_result-ok : (shutdown : Drain E) → (drain_result shutdown ≡ ok tt) ↔ EndsWell shutdown
  unfolding drain
  drain_result-ok (drained js) = (
    of_ok (drain_from none js) js (drain_from-FirstError js),
    λ h. rw (Fine-drain_from js h) refl,
  )
  drain_result-ok timed_out = (λ _. tt, λ _. refl)

  first_ok : (first : First E) → first_result first ≡ ok tt → first ≡ signal true
  first_ok (signal true) h = refl
  first_ok (signal false) h = absurd (cc)
  first_ok (joined none) h = absurd (cc)
  first_ok (joined (some join_error)) h = absurd (cc)
  first_ok (joined (some (worker_exit name none))) h = absurd (cc)
  first_ok (joined (some (worker_exit name (some e)))) h = absurd (cc)

  both_ok :
      (r s : Result (ServeError E) (Unit {0})) → try r (λ _. s) ≡ ok tt → (r ≡ ok tt) × (s ≡ ok tt)
  both_ok (ok _) s h = (refl, h)
  both_ok (err e) s h = absurd (cc)
  both_ok panicked s h = absurd (cc)

  -- With workers registered, serving them returns Ok exactly when the signal came first and
  -- without a failure, and the drain ran out of time or every worker that it waited for returned
  -- Ok.
  pub serve-eq-ok_iff :
      (name : Text) (names : List Text) (received : Bool) (first : First E) (shutdown : Drain E)
      → (serve (name ∷ names) received first shutdown ≡ ok tt)
        ↔ ((first ≡ signal true) × EndsWell shutdown)
  unfolding serve serve_workers
  serve-eq-ok_iff name names received first shutdown = (
    λ h.
        let (went, ended) = both_ok (first_result first) (drain_result shutdown) h in
        (first_ok first went, (drain_result-ok shutdown).0 ended),
    λ h. rw (h.0, (drain_result-ok shutdown).1 h.1) refl,
  )
