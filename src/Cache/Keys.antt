-- ===== src/Cache/Keys.antt =====
-- The keys of the shared cache: no two queues share one, and a lock is never an entry.
use retsu.Base.{◌+◌, List, [], ◌∷◌, ◌++◌, ◌≡◌, refl, ap, ◌≢◌, bytes, length, length-append, arith}
use retsu.Domain.Message.{Uuid}
use retsu.Cache.Shared.{Runtime, details_key, load_lock_key, key_prefix}

append_cancel : {A : Type 0} (zs : List A) {xs ys : List A} → zs ++ xs ≡ zs ++ ys → xs ≡ ys
append_cancel [] h = h
append_cancel (z ∷ zs) h = append_cancel zs (cc h)

-- How the `uuid` crate prints: in 36 characters, from which the identifier can be read back.
pub record PrintsUuids {S : Type 0} (runtime : Runtime S) : Type 0 where
  pub injective : (a b : Uuid) → runtime.display a ≡ runtime.display b → a ≡ b
  pub width : (a : Uuid) → length (runtime.display a) ≡ 36

module _ {S : Type 0} (runtime : Runtime S) (prints : PrintsUuids runtime) where
  pub details_key-injective : (a b : Uuid) → details_key runtime a ≡ details_key runtime b → a ≡ b
  unfolding details_key
  details_key-injective a b h =
      prints.injective a b (append_cancel (bytes ":") (append_cancel key_prefix h))

  key_length : (a : Uuid) → length (details_key runtime a) ≡ length key_prefix + 37
  unfolding details_key
  key_length a =
      let whole = length-append key_prefix (bytes ":" ++ runtime.display a) in
      let printed = length-append (bytes ":") (runtime.display a) in
      let width = prints.width a in let colon : length (bytes ":") ≡ 1 = refl in omega arith

  pub load_lock_key-apart : (a b : Uuid) → load_lock_key runtime a ≢ details_key runtime b
  unfolding load_lock_key
  load_lock_key-apart a b h =
      let whole = length-append (details_key runtime a) (bytes ":load-lock") in
      let left = key_length a in
      let right = key_length b in
      let same = ap length h in let lock : length (bytes ":load-lock") ≡ 10 = refl in omega arith
