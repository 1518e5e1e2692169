-- ===== src/Ledger/Objects.antt =====
-- The table of objects: what is stored stays, and verification keeps accepting it.
use strongwiz.Base.{
  String, true, some, List, [], ◌∷◌, ◌++◌, ◌≡◌, refl, arith, ap, inl, inr, contains,
  contains-append, string_eq, option_eq, Option-cases, ◌∙◌,
}
use strongwiz.Base.Result.{ok, >>=-eq-ok, ◌>>=◌}
use strongwiz.Canonical.Json.{Json}
use strongwiz.Ledger.Codec.{Codec, IsRoundTrip, content_hash}
use strongwiz.Ledger.Store.{find_object, insert_or_ignore, has_object, bytes_eq}
use strongwiz.Ledger.Verify.{check_object, verify_objects}

module _ (c : Codec) where
  open c use {Bytes, dumps}

  abbrev pub keys : List (String × Bytes) → List String
  keys [] = []
  keys ((h, _) ∷ rest) = h ∷ keys rest

  pub has_object-keys :
      (h : String) (objects : List (String × Bytes))
      → has_object c h objects ≡ contains (keys objects) h
  unfolding has_object find_object
  has_object-keys h [] = refl
  has_object-keys h ((k, b) ∷ rest) = ground (arith, has_object-keys h rest)

  -- the parts of a successful pass over a nonempty table
  verified_cons :
      (o : String × Bytes) (rest : List (String × Bytes)) (refs : List String)
      → verify_objects c (o ∷ rest) ≡ ok refs
      → (others : List String) × (check_object c o ≡ ok tt)
        × (verify_objects c rest ≡ ok others)
        × (refs ≡ o.0 ∷ others)
  unfolding verify_objects
  verified_cons o rest refs h =
      let (_, checked, more) =
        >>=-eq-ok (check_object c o) (λ _. verify_objects c rest >>= λ others. ok (o.0 ∷ others))
          h in
      let (others, rest_ok, e) =
        >>=-eq-ok (verify_objects c rest) (λ others. ok (o.0 ∷ others)) more in
      (others, checked, rest_ok, cc)

  has_object_of_find :
      (h : String) (objects : List (String × Bytes)) {b : Bytes}
      → find_object c h objects ≡ some b
      → has_object c h objects ≡ true
  unfolding has_object
  has_object_of_find h objects found = ground arith

  pub keys_of_verified :
      (objects : List (String × Bytes)) (refs : List String)
      → verify_objects c objects ≡ ok refs
      → refs ≡ keys objects
  unfolding verify_objects
  keys_of_verified [] refs h = ground arith
  keys_of_verified (o ∷ rest) refs h =
      let (others, _, rest_ok, e) = verified_cons o rest refs h in
      e ∙ ap (λ t. o.0 ∷ t) (keys_of_verified rest others rest_ok)

  -- an object at the end of the table
  verify_objects-append :
      (objects : List (String × Bytes)) (o : String × Bytes) (refs : List String)
      → verify_objects c objects ≡ ok refs
      → check_object c o ≡ ok tt
      → verify_objects c (objects ++ o ∷ []) ≡ ok (refs ++ o.0 ∷ [])
  unfolding verify_objects
  verify_objects-append [] o refs h k = ground arith
  verify_objects-append (x ∷ rest) o refs h k =
      let (others, checked, rest_ok, e) = verified_cons x rest refs h in
      rw (checked, verify_objects-append rest o others rest_ok k, e) refl

  module _ (law : IsRoundTrip c) where
    -- an object under its content hash passes the loop's checks
    check_object_lem :
        (payload : Json) → check_object c (content_hash c payload, dumps payload) ≡ ok tt
    unfolding check_object content_hash
    check_object_lem payload = ground (arith, law.loads_dumps payload, law.dumps_reparse payload)

    -- After an object is inserted the table still passes, and holds every old key and the new one.
    pub verify_objects-insert :
        (payload : Json) (objects : List (String × Bytes)) (refs : List String)
        → verify_objects c objects ≡ ok refs
        → let h = content_hash c payload in
          (refs' : List String) × (verify_objects c (insert_or_ignore c h (dumps payload) objects)
            ≡ ok refs')
          × ((r : String) → contains refs r ≡ true → contains refs' r ≡ true)
          × (contains refs' h ≡ true)
    unfolding insert_or_ignore
    verify_objects-insert payload objects refs h =
        let key = content_hash c payload in
        let o : String × Bytes = (key, dumps payload) in
        elim (Option-cases (find_object c key objects)) [
          | inl new ↦ (
            refs ++ key ∷ [],
            rw (new, insert_or_ignore)
                (verify_objects-append objects o refs h (check_object_lem payload)),
            (λ r held. rw contains-append (ground arith)),
            rw contains-append (ground arith),
          )
          | inr (b, old) ↦ (
            refs,
            rw (old, insert_or_ignore) h,
            (λ r held. held),
            rw (keys_of_verified objects refs h, ← has_object-keys key objects)
                (has_object_of_find key objects old),
          )
        ]
