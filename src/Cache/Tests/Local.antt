-- ===== src/Cache/Tests/Local.antt =====
-- An in-process cache that keeps every name, on which its theorems are applied.
use retsu.Base.{
  ◌∷◌, [], Action, ap, true, same, same_iff, ◌==◌, Option, none, some, Text, ◌≡◌, refl, sym, inl,
  inr, ◌⊎◌, Result, ok, err, panicked, Bool-cases,
}
use retsu.Domain.Message.{Uuid}
use retsu.Repository.{Error}
use retsu.Cache.Memory.{MokaCache, LoadFailure}
use retsu.Cache.Local.{L1QueueRepository, queue_name}
use retsu.Cache.Names.{LocalCacheLaws, Loads, queue_name-IsName, IsCoherent, NamesRightly}
use retsu.Cache.Tests.Rig.{Server, put, source, jobs}

-- The names stand in the same store, under the identifier's number.
abbrev names : Server → Uuid → Option Text
names s id = s.values (id ∷ [])

abbrev keep :
    Uuid → Result (LoadFailure Error) Text × Server → Result (LoadFailure Error) Text × Server
keep id (ok name, s) = (ok name, put (id ∷ []) name s)
keep id (err e, s) = (err e, s)
keep id (panicked, s) = (panicked, s)

abbrev keeps_all : MokaCache Server Uuid Text Error
keeps_all = record {
  get = λ id s. (names s id, s);
  try_get_with = λ id loader s. keep id (loader s);
  insert = λ id name s. put (id ∷ []) name s;
}

abbrev l1 : L1QueueRepository Server
l1 = record { source = source; queue_names = some keeps_all }

abbrev IsName : Uuid → Text → Type 0
IsName id name = ((id == 7) ≡ true) × (name ≡ jobs.name)

put_left :
    (id : Uuid) (name : Text) (s : Server) (k : Uuid) (v : Text)
    → names (put (id ∷ []) name s) k ≡ some v
    → (names s k ≡ some v) ⊎ ((k ≡ id) × (v ≡ name))
put_left id name s k v h = elim (Bool-cases (same (k ∷ []) (id ∷ []))) [
  | inl e ↦ inr (cc ((same_iff (k ∷ []) (id ∷ [])).0 e), sym (cc (rw e at h)))
  | inr e ↦ inl (rw e at h)
]

keep-Loads :
    (id : Uuid) (loader : Action Server (LoadFailure Error) Text) (s : Server)
    (r : Result (LoadFailure Error) Text × Server)
    → loader s ≡ r
    → Loads l1 keeps_all names IsName id loader s (keep id r)
keep-Loads id loader s (ok name, s') e =
    Loads.ran s (λ k v h. inl h) (ap (λ r. r.0) e)
      λ k v h. elim (put_left id name s' k v h) [
        | inl was ↦ inl (inl (rw e was))
        | inr (here, same') ↦ inr (here, rw same' refl)
      ]
keep-Loads id loader s (err e', s') e =
    Loads.ran s (λ k v h. inl h) (ap (λ r. r.0) e) λ k v h. inl (inl (rw e h))
keep-Loads id loader s (panicked, s') e =
    Loads.ran s (λ k v h. inl h) (ap (λ r. r.0) e) λ k v h. inl (inl (rw e h))

laws : LocalCacheLaws l1 keeps_all names IsName
laws = record {
  get_held = λ id s name h. h;
  get_left = λ id s k v h. inl h;
  loads = λ id loader s. keep-Loads id loader s (loader s) refl;
  insert_left = λ id name s k v h. elim (put_left id name s k v h) [
    | inl was ↦ inl (inl was)
    | inr here ↦ inr here
  ];
}

abbrev nothing : Server
nothing = record { values = λ key. none; locked_for = 0 }

abbrev answer : Result Error (Option Text)
answer = ok (some jobs.name)

named : queue_name l1 7 nothing ≡ (answer, put (7 ∷ []) jobs.name nothing)
unfolding queue_name
named = refl

rightly : NamesRightly l1 keeps_all names IsName 7
rightly s = (λ name h. (refl, sym (cc h)), λ k v h. inl h)

queue_name-IsName_example :
    ((name : Text) → answer ≡ ok (some name) → IsName 7 name)
    × IsCoherent l1 keeps_all names IsName (put (7 ∷ []) jobs.name nothing)
queue_name-IsName_example =
    queue_name-IsName l1 keeps_all names IsName laws refl 7 nothing rightly
      (λ id name h. absurd (cc h)) named
