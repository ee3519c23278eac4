-- ===== src/Cache/Names.antt =====
-- The names that the in-process cache gives: where they come from, and that they stay right.
use retsu.Base.{
  Option, none, some, ◌∙◌, subst, Text, ◌≡◌, refl, ◌⊎◌, inl, inr, Result, ok, err, panicked,
  map_err, Action,
}
use retsu.Domain.Message.{Uuid}
use retsu.Repository.{Error, cached_load_failed}
use retsu.Cache.Memory.{
  MokaCache, LoadFailure, not_found, source_failed, as_load, of_load, loading, hit_or_load,
  get_or_load,
}
use retsu.Cache.Local.{L1QueueRepository, queue_name}

module _ {S : Type 0} (l1 : L1QueueRepository S) (queue_names : MokaCache S Uuid Text Error)
    (held : S → Uuid → Option Text) (IsName : Uuid → Text → Type 0) where
  -- Every name that the cache holds is the queue's.
  abbrev pub IsCoherent : S → Type 0
  IsCoherent s = (id : Uuid) (name : Text) → held s id ≡ some name → IsName id name

  abbrev Load : Type 0
  Load = Result (LoadFailure Error) Text × S

  -- Other requests of the process may have cached names, which are right.
  abbrev pub AddsNothing : S → S → Type 0
  AddsNothing s s' =
      (id : Uuid) (name : Text) → held s' id ≡ some name → (held s id ≡ some name) ⊎ IsName id name

  abbrev pub AddsOnly : Uuid → Text → S → S → Type 0
  AddsOnly k v s s' =
      (id : Uuid) (name : Text)
      → held s' id ≡ some name
      → ((held s id ≡ some name) ⊎ IsName id name) ⊎ ((id ≡ k) × (name ≡ v))

  -- What `try_get_with` may do: return a name that is there by now, or run the loader once, keep what
  -- it loads, and return that or its failure.
  pub data Loads (id : Uuid) (loader : Action S (LoadFailure Error) Text) (s : S)
      : Load → Type 0 where
    there :
        {name : Text} {s' : S} (seen : S)
        → AddsNothing s seen
        → held seen id ≡ some name
        → AddsNothing seen s'
        → Loads id loader s (ok name, s')
    ran :
        {r : Result (LoadFailure Error) Text} {s' : S} (started : S)
        → AddsNothing s started
        → (loader started).0 ≡ r
        → ((k : Uuid) (name : Text)
            → held s' k ≡ some name
            → ((held (loader started).1 k ≡ some name) ⊎ IsName k name)
              ⊎ ((k ≡ id) × (r ≡ ok name)))
        → Loads id loader s (r, s')

  pub record LocalCacheLaws : Type 0 where
    pub get_held :
        (id : Uuid) (s : S) (name : Text)
        → (queue_names.get id s).0 ≡ some name
        → held s id ≡ some name
    pub get_left : (id : Uuid) (s : S) → AddsNothing s (queue_names.get id s).1
    pub loads :
        (id : Uuid) (loader : Action S (LoadFailure Error) Text) (s : S)
        → Loads id loader s (queue_names.try_get_with id loader s)
    pub insert_left :
        (id : Uuid) (name : Text) (s : S) → AddsOnly id name s (queue_names.insert id name s)

  -- A name that the cache held, or what the source answered when it was asked.
  abbrev pub HasOrigin : Uuid → Result Error (Option Text) → Type 0
  HasOrigin id r =
      ((s : S) × (name : Text) × (held s id ≡ some name) × (r ≡ ok (some name)))
      ⊎ ((s : S) × (r ≡ map_err cached_load_failed (l1.source.queue_name id s).0))

  -- The source names queues rightly, whenever it is asked, and leaves only right names behind.
  abbrev pub NamesRightly : Uuid → Type 0
  NamesRightly id =
      (s : S)
      → ((name : Text) → (l1.source.queue_name id s).0 ≡ ok (some name) → IsName id name)
        × AddsNothing s (l1.source.queue_name id s).1

  module _ (laws : LocalCacheLaws) (enabled : l1.queue_names ≡ some queue_names) where
    of_as : (r : Result Error (Option Text)) → of_load (as_load r) ≡ r
    of_as (ok none) = refl
    of_as (ok (some name)) = refl
    of_as (err e) = refl
    of_as panicked = refl

    loaded-HasOrigin :
        (id : Uuid) (s : S) (load : Load)
        → Loads id (loading (l1.source.queue_name id)) s load
        → HasOrigin id (map_err cached_load_failed (of_load load.0))
    loaded-HasOrigin id s load (there {name} seen before h left) = inl (seen, name, h, refl)
    loaded-HasOrigin id s load (ran started left same adds) =
        inr (started, rw⁻¹ same (rw (of_as (l1.source.queue_name id started).0) refl))

    hit-HasOrigin :
        (id : Uuid) (s : S) (hit : Option Text × S)
        → ((name : Text) → hit.0 ≡ some name → held s id ≡ some name)
        → HasOrigin id (
            map_err cached_load_failed (hit_or_load queue_names id (l1.source.queue_name id) hit).0)
    hit-HasOrigin id s (some name, s') h = inl (s, name, h name refl, refl)
    hit-HasOrigin id s (none, s') h = loaded-HasOrigin id s' _ (laws.loads id _ s')

    pub queue_name-origin : (id : Uuid) (s : S) → HasOrigin id (queue_name l1 id s).0
    unfolding queue_name get_or_load
    queue_name-origin id s =
        rw enabled (hit-HasOrigin id s (queue_names.get id s) (laws.get_held id s))

    left-IsCoherent : {s s' : S} → AddsNothing s s' → IsCoherent s → IsCoherent s'
    left-IsCoherent h c id name e = elim (h id name e) [ inl was ↦ c id name was | inr now ↦ now ]

    -- The name, if one is given, is right, and so are those that the cache holds.
    abbrev IsGood : Uuid → Result Error (Option Text) × S → Type 0
    IsGood id (r, s) = ((name : Text) → r ≡ ok (some name) → IsName id name) × IsCoherent s

    as_load-eq-ok :
        (r : Result Error (Option Text)) {name : Text} → as_load r ≡ ok name → r ≡ ok (some name)
    as_load-eq-ok (ok none) h = absurd (cc)
    as_load-eq-ok (ok (some name)) h = cc
    as_load-eq-ok (err e) h = absurd (cc)
    as_load-eq-ok panicked h = absurd (cc)

    of_load-eq-ok :
        (r : Result (LoadFailure Error) Text) {name : Text}
        → map_err cached_load_failed (of_load r) ≡ ok (some name)
        → r ≡ ok name
    of_load-eq-ok (ok name) h = cc
    of_load-eq-ok (err not_found) h = absurd (cc)
    of_load-eq-ok (err (source_failed e)) h = absurd (cc)
    of_load-eq-ok panicked h = absurd (cc)

    load-IsGood :
        (id : Uuid) (s : S) (load : Load)
        → NamesRightly id
        → IsCoherent s
        → Loads id (loading (l1.source.queue_name id)) s load
        → IsGood id (map_err cached_load_failed (of_load load.0), load.1)
    load-IsGood id s load right c (there {name} seen before h left) =
        let c' = left-IsCoherent before c in
        (λ name' e. subst (IsName id) (cc e) (c' id name h), left-IsCoherent left c')
    load-IsGood id s load right c (ran {r} {s'} started left same adds) =
        let c' = left-IsCoherent (right started).1 (left-IsCoherent left c) in
        let loaded : (name : Text) → r ≡ ok name → IsName id name =
          λ name e. (right started).0 name (as_load-eq-ok _ (same ∙ e)) in
        (
          λ name e. loaded name (of_load-eq-ok r e),
          λ k name e. elim (adds k name e) [
            | inl (inl was) ↦ c' k name was
            | inl (inr now) ↦ now
            | inr (here, answer) ↦ rw here (loaded name answer)
          ],
        )

    hit-IsGood :
        (id : Uuid) (s : S) (hit : Option Text × S)
        → NamesRightly id
        → ((name : Text) → hit.0 ≡ some name → IsName id name)
        → IsCoherent hit.1
        → IsGood id (
            let (r, s') = hit_or_load queue_names id (l1.source.queue_name id) hit in
            (map_err cached_load_failed r, s'))
    hit-IsGood id s (some name, s') right h c = (λ name' e. h name' (cc e), c)
    hit-IsGood id s (none, s') right h c =
        load-IsGood id s' (queue_names.try_get_with id (loading (l1.source.queue_name id)) s') right
          c (laws.loads id _ s')

    named-IsGood :
        (id : Uuid) (s : S) → NamesRightly id → IsCoherent s → IsGood id (queue_name l1 id s)
    unfolding queue_name get_or_load
    named-IsGood id s right c = rw enabled (
        hit-IsGood id s (queue_names.get id s) right
          (λ name e. c id name (laws.get_held id s name e))
          (left-IsCoherent (laws.get_left id s) c))

    -- With the in-process cache on, a name that is returned is a right name of the queue asked
    -- for, and the names that are cached stay right: when they were right before, the source names
    -- the queue rightly whenever it is asked, and the cache returns what it holds, keeps what it
    -- is given, and runs a loader or returns a name that another request has cached.
    pub queue_name-IsName :
        (id : Uuid) (s : S) {r : Result Error (Option Text)} {s' : S}
        → NamesRightly id
        → IsCoherent s
        → queue_name l1 id s ≡ (r, s')
        → ((name : Text) → r ≡ ok (some name) → IsName id name) × IsCoherent s'
    queue_name-IsName id s {r} {s'} right c returned =
        let good : IsGood id (r, s') = rw returned at (named-IsGood id s right c) in good
