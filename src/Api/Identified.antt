-- ===== src/Api/Identified.antt =====
-- Every request has an identifier that a header can carry.
use mathlib.Core.Option
use retsu.Base.{
  ◌≡◌, refl, Bool, true, Bool-cases, inl, inr, Option, none, some, [], ◌∷◌, Text, all, in_range,
  Action, and_then, arith, unwrap_or,
}
use retsu.Api.RequestId.{
  is_request_id_byte, valid_request_id, filtered, request_id, ServiceResponse, labelled, call,
}

-- Printable ASCII, which a header may carry.
abbrev pub is_visible : Text → Bool
is_visible = all (in_range 32 126)

visible_bytes : (t : Text) → all is_request_id_byte t ≡ true → is_visible t ≡ true
visible_bytes [] h = refl
visible_bytes (b ∷ bs) h = ground (arith, visible_bytes bs)

valid-is_visible : (t : Text) → valid_request_id t ≡ true → is_visible t ≡ true
unfolding valid_request_id
valid-is_visible t h = visible_bytes t (ground arith)

filtered-is_visible :
    (o : Option Text) (fresh : Text)
    → is_visible fresh ≡ true
    → is_visible (unwrap_or (filtered o) fresh) ≡ true
filtered-is_visible none fresh h = h
filtered-is_visible (some v) fresh h = elim (Bool-cases (valid_request_id v)) [
  | inl e ↦ rw e (valid-is_visible v e)
  | inr e ↦ rw e h
]

module _ {S E H R : Type 0} (to_str : Text → Option Text) (from_str : Text → Option H)
    (service : Text → Action S E (ServiceResponse H R)) where
  -- Every request gets an identifier that a header can carry, so that the middleware answers what
  -- the service answers, with the header set, and never panics by itself; an identifier that the
  -- client sent and that is valid is the one used. A header carries every printable ASCII text,
  -- and the identifier that would be drawn is one.
  pub call-answers :
      (fresh : Text) (header : Option Text) (s : S)
      → ((t : Text) → is_visible t ≡ true → (h : H) × (from_str t ≡ some h))
      → is_visible fresh ≡ true
      → ((h : H) × (from_str (request_id to_str fresh header) ≡ some h)
          × (call to_str from_str service fresh header s
              ≡ and_then
                  (service (request_id to_str fresh header) s)
                  (labelled to_str from_str service h)))
        × ((v : Text)
            → Option.bind header to_str ≡ some v
            → valid_request_id v ≡ true
            → request_id to_str fresh header ≡ v)
  unfolding call request_id
  call-answers fresh header s accepts drawn =
      let (h, accepted) = accepts _ (filtered-is_visible (Option.bind header to_str) fresh drawn) in
      ((h, accepted, rw accepted refl), λ v given valid. rw (given, valid) refl)
