-- ===== src/Domain/Queue/Names.antt =====
-- Queue names: the validator of src/modules/queue/domain/queue.rs against the check constraints
-- of migrations/20260725153509_create_table_queue.sql.
use retsu.Base.{
  ℕ, zero, suc, ◌≡◌, refl, ◌↔◌, Bool, true, false, ◌&&◌, [], ◌∷◌, Text, ok, err, in_range, leb, all,
  length, arith, Bool-cases, inl, inr, not, ◌||◌, if◌then◌else◌,
}
use retsu.Domain.Queue.{
  invalid_length, invalid_format, is_queue_name_endpoint, is_queue_name_character, has_valid_start,
  has_valid_end, parse_name,
}

-- `[a-z0-9._-]{0,n}[a-z0-9]$`
pub matches_group : ℕ → Text → Bool
matches_group n [] = false
matches_group n (b ∷ []) = is_queue_name_endpoint b
matches_group zero (b ∷ c ∷ bs) = false
matches_group (suc n) (b ∷ c ∷ bs) = is_queue_name_character b && matches_group n (c ∷ bs)

-- `([a-z0-9._-]{0,62}[a-z0-9])?$`
abbrev pub matches_tail : Text → Bool
matches_tail [] = true
matches_tail (b ∷ bs) = matches_group 62 (b ∷ bs)

-- `name ~ '^[a-z0-9]([a-z0-9._-]{0,62}[a-z0-9])?$'`, the constraint queue_name_format.
unfoldable pub matches_format : Text → Bool
unfolding matches_group
matches_format [] = false
matches_format (b ∷ bs) = is_queue_name_endpoint b && matches_tail bs

-- Both constraints on a name: queue_name_length and queue_name_format.
abbrev pub name_checks : Text → Bool
name_checks name = in_range 1 64 (length name) && matches_format name

endpoint-is_character : (b : ℕ) → is_queue_name_endpoint b ≡ true → is_queue_name_character b ≡ true
endpoint-is_character b h = rw h

endpoint_absorbs :
    (b : ℕ)
    → is_queue_name_endpoint b && (is_queue_name_character b && true) ≡ is_queue_name_endpoint b
endpoint_absorbs b = elim (Bool-cases (is_queue_name_endpoint b)) [ inl e ↦ rw e | inr e ↦ rw e ]

swap_tests : (p a b c : Bool) → p && (a && (b && c)) ≡ a && (b && (p && c))
swap_tests p a b c = ground arith

leb-suc : (m n : ℕ) → leb (suc m) (suc n) ≡ leb m n
leb-suc m n = ground arith

-- The group of the pattern in terms of the three tests of `QueueName::parse`.
matches_group_lem :
    (n : ℕ) (b : ℕ) (bs : Text)
    → matches_group n (b ∷ bs)
      ≡ leb (length bs) n && (has_valid_end (b ∷ bs) && all is_queue_name_character (b ∷ bs))
unfolding matches_group has_valid_end
matches_group_lem n b [] = rw endpoint_absorbs (ground arith)
matches_group_lem zero b (c ∷ bs) = ground arith
matches_group_lem (suc n) b (c ∷ bs) =
    rw (matches_group_lem n c bs, leb-suc (length bs) n)
      (swap_tests (is_queue_name_character b) (leb (length bs) n) _ _)

-- What `QueueName::parse` tests once the length is right, on a name of two bytes or more.
format_tests :
    (b c : ℕ) (cs : Text)
    → leb (length cs) 62 ≡ true
    → matches_format (b ∷ c ∷ cs)
      ≡ has_valid_start (b ∷ c ∷ cs)
        && (has_valid_end (b ∷ c ∷ cs) && all is_queue_name_character (b ∷ c ∷ cs))
unfolding matches_format has_valid_end
format_tests b c cs h =
    rw (matches_group_lem 62 c cs, h)
      (elim (Bool-cases (is_queue_name_endpoint b)) [ inl e ↦ rw e | inr e ↦ rw e ])

-- The two early returns of `QueueName::parse`, by the results of its tests.
guards_iff :
    (l f s e c : Bool) (value name : Text)
    → (l ≡ true → f ≡ s && (e && c))
    → ((if not l
          then err invalid_length
          else if not s || (not e || not c)
          then err invalid_format
          else ok value)
        ≡ ok name)
      ↔ ((value ≡ name) × (l && f ≡ true))
guards_iff true f s e c value name h = ground (arith, h refl)
guards_iff false f s e c value name h = ground arith

-- `QueueName::parse` accepts exactly the names that satisfy the constraints queue_name_length and
-- queue_name_format of the table, and returns the name unchanged.
pub parse_name-eq-ok_iff :
    (value name : Text)
    → (parse_name value ≡ ok name) ↔ ((value ≡ name) × (name_checks value ≡ true))
unfolding parse_name matches_format
parse_name-eq-ok_iff [] name = ground arith
parse_name-eq-ok_iff (b ∷ []) name =
    guards_iff true (matches_format (b ∷ [])) (has_valid_start (b ∷ [])) (has_valid_end (b ∷ []))
      (all is_queue_name_character (b ∷ [])) (b ∷ []) name
      (λ h. elim (Bool-cases (is_queue_name_endpoint b)) [ inl e ↦ rw e | inr e ↦ rw e ])
parse_name-eq-ok_iff (b ∷ c ∷ cs) name =
    guards_iff (in_range 1 64 (length (b ∷ c ∷ cs))) (matches_format (b ∷ c ∷ cs))
      (has_valid_start (b ∷ c ∷ cs)) (has_valid_end (b ∷ c ∷ cs))
      (all is_queue_name_character (b ∷ c ∷ cs)) (b ∷ c ∷ cs) name
      (λ h. format_tests b c cs (ground arith))
