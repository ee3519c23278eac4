-- ===== src/Base/Texts.antt =====
-- Rust's `String` as the list of its bytes, and the parts of the standard library that read bytes.
use Prim.Native.Nat.{ℕ, ◌-◌}
use Prim.Native.Char.{code}
use Prim.Native.String.{String}
use mathlib.Core.Path.{◌≡◌, refl}
use mathlib.Core.Logic.{◌↔◌}
use mathlib.Core.Bool.{Bool, true, false, ◌&&◌, ◌||◌}
use mathlib.Core.List.{List, [], ◌∷◌, ◌++◌}
use mathlib.Core.Option.{Option, none, some}
use native.Mathlib.Omega.{arith}
use retsu.Base.Tests.{in_range, leb, ◌==◌, if◌then◌else◌}

abbrev pub Text : Type 0
Text = List ℕ

-- The bytes of an ASCII literal.
abbrev pub bytes : String → Text
bytes String.[] = []
bytes (String.◌∷◌ c s) = code c ∷ bytes s

-- `==` on `str`
unfoldable pub same : Text → Text → Bool
same [] [] = true
same (a ∷ as') (b ∷ bs) = a == b && same as' bs
same _ _ = false

pub same_refl : (t : Text) → same t t ≡ true
unfolding same
same_refl [] = refl
same_refl (a ∷ t) = ground (arith, same_refl t)

pub eq_of_same : (s t : Text) → same s t ≡ true → s ≡ t
unfolding same
eq_of_same [] [] h = refl
eq_of_same (a ∷ s) (b ∷ t) h = ground (arith, eq_of_same s t)
eq_of_same [] (b ∷ t) h = cc
eq_of_same (a ∷ s) [] h = cc

pub same_iff : (s t : Text) → (same s t ≡ true) ↔ (s ≡ t)
same_iff s t = (eq_of_same s t, λ e. rw e (same_refl t))

pub same_comm : (s t : Text) → same s t ≡ same t s
unfolding same
same_comm [] [] = refl
same_comm [] (b ∷ t) = refl
same_comm (a ∷ s) [] = refl
same_comm (a ∷ s) (b ∷ t) = ground (arith, same_comm s t)

abbrev pub has_name : List Text → Text → Bool
has_name [] name = false
has_name (x ∷ xs) name = same x name || has_name xs name

-- No text occurs twice.
abbrev pub NamesDiffer : List Text → Type 0
NamesDiffer [] = Unit
NamesDiffer (x ∷ xs) = (has_name xs x ≡ false) × NamesDiffer xs

pub has_name-append :
    (xs ys : List Text) (name : Text)
    → has_name (xs ++ ys) name ≡ has_name xs name || has_name ys name
has_name-append [] ys name = refl
has_name-append (x ∷ xs) ys name = ground (arith, has_name-append xs ys name)

pub NamesDiffer-append :
    (xs : List Text) (name : Text)
    → NamesDiffer xs
    → has_name xs name ≡ false
    → NamesDiffer (xs ++ name ∷ [])
NamesDiffer-append [] name d h = (refl, tt)
NamesDiffer-append (x ∷ xs) name d h = (
  ground (arith, has_name-append xs (name ∷ []) x, same_comm x name),
  NamesDiffer-append xs name d.1 (ground arith),
)

-- What `str::from_utf8` expects next: how many continuation bytes, and the range of the first.
pub record Pending : Type 0 where
  pub more : ℕ
  pub low : ℕ
  pub high : ℕ

abbrev boundary : Pending
boundary = record { more = 0; low = 0x80; high = 0xBF }

abbrev follow : ℕ → ℕ → ℕ → Option Pending
follow more low high = some (record { more = more; low = low; high = high })

leading : ℕ → Option Pending
leading b =
    if leb b 0x7F
    then some boundary
    else if in_range 0xC2 0xDF b
    then follow 1 0x80 0xBF
    else if b == 0xE0
    then follow 2 0xA0 0xBF
    else if b == 0xED
    then follow 2 0x80 0x9F
    else if in_range 0xE1 0xEF b
    then follow 2 0x80 0xBF
    else if b == 0xF0
    then follow 3 0x90 0xBF
    else if in_range 0xF1 0xF3 b
    then follow 3 0x80 0xBF
    else if b == 0xF4
    then follow 3 0x80 0x8F
    else none

next_byte : Pending → ℕ → Option Pending
unfolding leading
next_byte p b =
    if p.more == 0
    then leading b
    else if in_range p.low p.high b
    then follow (p.more - 1) 0x80 0xBF
    else none

accepts : Option Pending → Text → Bool
unfolding next_byte
accepts none bs = false
accepts (some p) [] = p.more == 0
accepts (some p) (b ∷ bs) = accepts (next_byte p b) bs

-- The bytes are valid UTF-8, as every `String` is.
unfoldable pub is_utf8 : Text → Bool
unfolding accepts
is_utf8 bs = accepts (some boundary) bs

-- `String::from_utf8`
unfoldable pub from_utf8 : Text → Option Text
from_utf8 bs = if is_utf8 bs then some bs else none

utf8_tests :
    (is_utf8 (bytes "hello") ≡ true)
    × (is_utf8 (0xC3 ∷ 0xA9 ∷ []) ≡ true)
    × (is_utf8 (0xC3 ∷ []) ≡ false)
    × (is_utf8 (0xED ∷ 0xA0 ∷ 0x80 ∷ []) ≡ false)
unfolding is_utf8
utf8_tests = (refl, refl, refl, refl)
