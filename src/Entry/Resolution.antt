-- ===== src/Entry/Resolution.antt =====
-- The workers that can be run are those that are listed.
use retsu.Base.{
  true, ◌≡◌, refl, subst, sym, ◌∙◌, ap, ◌↔◌, Option, some, Option-cases, Bool-cases, inl, inr, List,
  [], ◌∷◌, Text, same, same_iff, has_name, find, find-Memᴰ, ok, err, arith,
}
use retsu.Entry.Modules.{
  ModuleDefinition, WorkerDefinition, names_of, is_worker_module, unknown_module, unknown_worker,
  display_names, worker_module_names, worker_module_definition, worker_names, resolve_worker,
  ResolvedWorker,
}
use retsu.Entry.Dispatch.{worker, run, worker_process, prepared, prepare}

-- A worker is found exactly when its name is listed.
find-listed :
    (ws : List WorkerDefinition) (name : Text)
    → has_name (names_of ws) name ≡ true
    → (w : WorkerDefinition) × (find (λ w. same w.name name) ws ≡ some w)
find-listed [] name h = absurd (cc)
find-listed (w ∷ ws) name h = elim (Bool-cases (same w.name name)) [
  | inl e ↦ (w, rw e refl)
  | inr e ↦ let (v, found) = find-listed ws name (rw e at h) in (v, rw e found)
]

listed-find :
    (ws : List WorkerDefinition) (name : Text) {w : WorkerDefinition}
    → find (λ w. same w.name name) ws ≡ some w
    → (has_name (names_of ws) name ≡ true) × (w.name ≡ name)
listed-find [] name h = absurd (cc)
listed-find (v ∷ ws) name {w} h = elim (Bool-cases (same v.name name)) [
  | inl e ↦
      let here : some v ≡ some w = rw e at h in
      let it : v ≡ w = cc here in
      (rw e refl, ap (λ x. x.name) (sym it) ∙ (same_iff v.name name).0 e)
  | inr e ↦ rw e (listed-find ws name (rw e at h))
]

module _ (catalog : List ModuleDefinition) (config : Option Text) (owner name : Text) where
  abbrev Listed : Type 0
  Listed =
      (names : List Text) × (worker_names catalog owner ≡ ok names) × (has_name names name ≡ true)

  abbrev Runs : Type 0
  Runs =
      (w : ResolvedWorker) × (prepare catalog
          (record { config = config; command = worker (run owner name) })
        ≡ ok (prepared catalog config (worker_process w)))
      × (w.module_name ≡ owner)
      × (w.worker_name ≡ name)

  found_module :
      (names : List Text)
      → worker_names catalog owner ≡ ok names
      → (m : ModuleDefinition) × (find (is_worker_module owner) catalog ≡ some m)
        × (names_of m.workers ≡ names)
  unfolding worker_names worker_module_definition
  found_module names listed = elim (Option-cases (find (is_worker_module owner) catalog)) [
    | inl e ↦
        let bad : err (unknown_module owner (display_names (worker_module_names catalog)))
            ≡ ok names =
          rw e at listed in
        absurd (cc)
    | inr (m, e) ↦ let same' : ok (names_of m.workers) ≡ ok names = rw e at listed in (m, e, cc)
  ]

  owned : (m : ModuleDefinition) → find (is_worker_module owner) catalog ≡ some m → m.name ≡ owner
  owned m e =
      let passed = (find-Memᴰ (is_worker_module owner) catalog e).1 in
      (same_iff m.name owner).0 (ground (arith, passed))

  listed-Runs : Listed → Runs
  unfolding prepare resolve_worker worker_module_definition
  listed-Runs (names, listed, has) =
      let (m, e, same_names) = found_module names listed in
      let (w, found) =
        find-listed m.workers name (subst (λ ns. has_name ns name ≡ true) (sym same_names) has) in
      (
        record { module_name = m.name; worker_name = w.name; definition = w },
        rw (e, found) refl,
        owned m e,
        (listed-find m.workers name found).1,
      )

  runs-Listed : Runs → Listed
  unfolding prepare resolve_worker worker_names worker_module_definition
  runs-Listed (w, runs, _, _) = elim (Option-cases (find (is_worker_module owner) catalog)) [
    | inl e ↦
        let bad : err (unknown_module owner (display_names (worker_module_names catalog)))
            ≡ ok (prepared catalog config (worker_process w)) =
          rw e at runs in
        absurd (cc)
    | inr (m, e) ↦ elim (Option-cases (find (λ v. same v.name name) m.workers)) [
      | inl e' ↦
          let bad : err (unknown_worker owner name (display_names (names_of m.workers)))
              ≡ ok (prepared catalog config (worker_process w)) =
            rw (e, e') at runs in
          absurd (cc)
      | inr (v, e') ↦ (names_of m.workers, rw e refl, (listed-find m.workers name e').0)
    ]
  ]

  -- For any catalog of modules, the command that runs a worker of a module prepares a process of
  -- that worker and module exactly when the list of the module's workers has the name.
  pub prepare-Runs_iff :
      ((names : List Text) × (worker_names catalog owner ≡ ok names) × (has_name names name ≡ true))
      ↔ ((w : ResolvedWorker) × (prepare catalog
              (record { config = config; command = worker (run owner name) })
            ≡ ok (prepared catalog config (worker_process w)))
          × (w.module_name ≡ owner)
          × (w.worker_name ≡ name))
  prepare-Runs_iff = (listed-Runs, runs-Listed)
