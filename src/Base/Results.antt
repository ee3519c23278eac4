-- ===== src/Base/Results.antt =====
-- Results, the `?` operator, and stateful operations that may fail.
use mathlib.Core.Path.{◌≡◌, refl}
use mathlib.Core.Option.{Option, none, some}

-- `panicked` is a failed `expect`, which Rust's `Result` does not show.
pub data Result (E A : Type 0) : Type 0 where
  ok : A → Result E A
  err : E → Result E A
  panicked : Result E A

abbrev pub map_err : {E F A : Type 0} → (E → F) → Result E A → Result F A
map_err f (ok a) = ok a
map_err f (err e) = err (f e)
map_err f panicked = panicked

abbrev pub map_ok : {E A B : Type 0} → (A → B) → Result E A → Result E B
map_ok f (ok a) = ok (f a)
map_ok f (err e) = err e
map_ok f panicked = panicked

abbrev pub ok_or : {E A : Type 0} → Option A → E → Result E A
ok_or none e = err e
ok_or (some a) e = ok a

abbrev pub expect : {E A : Type 0} → Option A → Result E A
expect none = panicked
expect (some a) = ok a

-- `option.map(f).transpose()`
abbrev pub transpose_map : {E A B : Type 0} → (A → Result E B) → Option A → Result E (Option B)
transpose_map f none = ok none
transpose_map f (some a) = map_ok some (f a)

-- The `?` of pure code.
abbrev pub try : {E A B : Type 0} → Result E A → (A → Result E B) → Result E B
try (ok a) f = f a
try (err e) f = err e
try panicked f = panicked

-- An operation on a state: the result with the state that it leaves.
abbrev pub Action : Type 0 → Type 0 → Type 0 → Type 0
Action S E A = S → Result E A × S

abbrev pub and_then : {S E A B : Type 0} → Result E A × S → (A → Action S E B) → Result E B × S
and_then (ok a, s) f = f a s
and_then (err e, s) f = (err e, s)
and_then (panicked, s) f = (panicked, s)

infixl 5 ◌>>=◌
abbrev pub ◌>>=◌ : {S E A B : Type 0} → Action S E A → (A → Action S E B) → Action S E B
◌>>=◌ m f s = and_then (m s) f

abbrev pub lift : {S E A : Type 0} → Result E A → Action S E A
lift r s = (r, s)

abbrev pub failing_as : {S E F A : Type 0} → (E → F) → Action S E A → Action S F A
failing_as f m s = let (r, s') = m s in (map_err f r, s')

-- Inversion of a chain that succeeded.
pub and_then-eq-ok :
    {S E A B : Type 0} (m : Result E A × S) (f : A → Action S E B) {b : B} {s : S}
    → and_then m f ≡ (ok b, s)
    → (a : A) × (s' : S) × (m ≡ (ok a, s')) × (f a s' ≡ (ok b, s))
and_then-eq-ok (ok a, s') f h = (a, s', refl, h)
and_then-eq-ok (err e, s') f h = absurd (cc)
and_then-eq-ok (panicked, s') f h = absurd (cc)
