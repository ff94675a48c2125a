-- ===== src/Commands/Checked.antt =====
-- What a request has passed that `WriteCommand` hands to the datastore.
use mathlib.Core.Option.{none-ne-some}
use kengen.Base.{
  ℕ, ◌+◌, ◌≤◌, Text, text_eq, ◌≡◌, ◌↔◌, ◌⊎◌, refl, sym, Bool, true, false, not, ◌&&◌, Option, none,
  List, [], ◌∷◌, ◌++◌, map, length, any, arith, Bool-cases, inl, inr, All,
}
use kengen.Tuple.Key.{TupleKey, TupleKeyWithoutCondition, tuple_key_to_tuple_key_without_condition}
use kengen.Tuple.Valid.{is_valid_user}
use kengen.Storage.Record.{TupleWriteOption, Result}
use kengen.Commands.Write.{
  WriteError, WriteRequest, validate_deletes, first_failure, validate_write_request, execute,
  collected, repeated, collect, key_string, validate_no_duplicates_and_correct_size,
}

-- No string comes twice, and none is among those seen before.
abbrev pub fresh : List Text → List Text → Bool
fresh seen [] = true
fresh seen (x ∷ xs) = not (any (text_eq x) seen) && fresh (x ∷ seen) xs

abbrev pub reverse_onto : List Text → List Text → List Text
reverse_onto seen [] = seen
reverse_onto seen (x ∷ xs) = reverse_onto (x ∷ seen) xs

collect-fresh :
    (tks : List TupleKeyWithoutCondition) (seen : List Text)
    → fresh seen (map key_string tks) ≡ true
    → collect tks seen ≡ collected (reverse_onto seen (map key_string tks))
unfolding collect
collect-fresh [] seen h = refl
collect-fresh (tk ∷ tks) seen h = ground (arith, collect-fresh tks (key_string tk ∷ seen))

collect-repeated :
    (tks : List TupleKeyWithoutCondition) (seen : List Text)
    → fresh seen (map key_string tks) ≡ false
    → (tk : TupleKeyWithoutCondition) × (collect tks seen ≡ repeated tk)
unfolding collect
collect-repeated [] seen h = ground arith
collect-repeated (tk ∷ tks) seen h = elim (Bool-cases (any (text_eq (key_string tk)) seen)) [
  | inl e ↦ (tk, rw (collect, e) refl)
  | inr e ↦
      let (t, k) = collect-repeated tks (key_string tk ∷ seen) (ground (arith, h, e)) in
      (t, rw (collect, e) k)
]

fresh-append :
    (xs ys seen : List Text)
    → fresh seen (xs ++ ys) ≡ (fresh seen xs && fresh (reverse_onto seen xs) ys)
fresh-append [] ys seen = refl
fresh-append (x ∷ xs) ys seen = ground (arith, fresh-append xs ys (x ∷ seen))

length-reverse_onto :
    (xs seen : List Text) → length (reverse_onto seen xs) ≡ length seen + length xs
length-reverse_onto [] seen = omega arith
length-reverse_onto (x ∷ xs) seen = omega (arith, length-reverse_onto xs (x ∷ seen))

length-map : {A B : Type 0} (f : A → B) (xs : List A) → length (map f xs) ≡ length xs
length-map f [] = refl
length-map f (x ∷ xs) = omega (arith, length-map f xs)

abbrev pub write_keys : {C : Type 0} → List (TupleKey C) → List TupleKeyWithoutCondition
write_keys = map tuple_key_to_tuple_key_without_condition

module _ {C V : Type 0} where
  -- The check of a request's keys passes if and only if no two of its deletes and writes, taken together, have the
  -- same string of object, relation and user, and they are at most as many as the datastore takes in a write.
  pub validate_no_duplicates_iff :
      (max_tuples : ℕ) (deletes : List TupleKeyWithoutCondition) (writes : List (TupleKey C))
      → (validate_no_duplicates_and_correct_size {V = V} max_tuples deletes writes ≡ none) ↔ (
          (fresh [] (map key_string deletes ++ map key_string (write_keys writes)) ≡ true)
          × (length deletes + length writes ≤ max_tuples))
  unfolding validate_no_duplicates_and_correct_size
  validate_no_duplicates_iff max_tuples deletes writes =
      let ds : List Text = map key_string deletes in
      let ws : List Text = map key_string (write_keys writes) in
      let total : length (reverse_onto (reverse_onto [] ds) ws) ≡ length deletes + length writes =
        omega (
          arith,
          length-reverse_onto ws (reverse_onto [] ds),
          length-reverse_onto ds [],
          length-map key_string deletes,
          length-map key_string (write_keys writes),
          length-map (λ (t : TupleKey C). tuple_key_to_tuple_key_without_condition t) writes,
        ) in
      elim (Bool-cases (fresh [] ds)) [
        | inr e ↦
            let (t, k) = collect-repeated deletes [] e in
            rw (validate_no_duplicates_and_correct_size, k)
              (ground (arith, fresh-append ds ws [], e))
        | inl e ↦ elim (Bool-cases (fresh (reverse_onto [] ds) ws)) [
          | inr f ↦
              let (t, k) = collect-repeated (write_keys writes) (reverse_onto [] ds) f in
              rw (validate_no_duplicates_and_correct_size, collect-fresh deletes [] e, k)
                (ground (arith, fresh-append ds ws [], e, f))
          | inl f ↦
              rw
                (
                  validate_no_duplicates_and_correct_size,
                  collect-fresh deletes [] e,
                  collect-fresh (write_keys writes) (reverse_onto [] ds) f,
                )
                (ground (arith, fresh-append ds ws [], e, f, total))
        ]
      ]

module _ {C V : Type 0} where
  validate_deletes-none :
      (tks : List TupleKeyWithoutCondition)
      → validate_deletes {C = C} {V = V} tks ≡ none
      → All (λ tk. is_valid_user tk.user ≡ true) tks
  unfolding validate_deletes
  validate_deletes-none [] h = tt
  validate_deletes-none (tk ∷ tks) h = elim (Bool-cases (is_valid_user tk.user)) [
    | inl e ↦ (e, validate_deletes-none tks (rw (validate_deletes, e) at h))
    | inr e ↦ absurd (none-ne-some _ (sym (rw (validate_deletes, e) at h)))
  ]

module _ {C V M Y S : Type 0} (read_authorization_model : Text → Text → Result C M)
    (is_schema_version_supported : M → Bool) (new_typesystem : M → V ⊎ Y)
    (validate_tuple_for_write : Y → TupleKey C → Option V) (context_size : Option C → ℕ)
    (context_byte_limit max_tuples : ℕ)
    (datastore_write : S
      → Text
      → List TupleKeyWithoutCondition
      → List (TupleKey C)
      → List TupleWriteOption
      → Result C S) where
  abbrev run : S → WriteRequest C → WriteError C V ⊎ S
  run =
      execute read_authorization_model is_schema_version_supported new_typesystem
        validate_tuple_for_write context_size context_byte_limit max_tuples datastore_write

  validated :
      (s s' : S) (req : WriteRequest C)
      → run s req ≡ inr s'
      → (validate_deletes {C = C} {V = V} req.deletes ≡ none)
        × (validate_no_duplicates_and_correct_size {C = C} {V = V} max_tuples req.deletes req.writes
            ≡ none)
  unfolding execute validate_write_request first_failure
  validated s s' req h = ground arith

  -- A request that `Execute` ends well for names a valid user in each delete, has no two deletes and writes, taken
  -- together, with the same string of object, relation and user, and has at most as many as the datastore takes.
  pub execute-checked :
      (s s' : S) (req : WriteRequest C)
      → run s req ≡ inr s'
      → All (λ tk. is_valid_user tk.user ≡ true) req.deletes
        × (fresh [] (map key_string req.deletes ++ map key_string (write_keys req.writes)) ≡ true)
        × (length req.deletes + length req.writes ≤ max_tuples)
  execute-checked s s' req h =
      let (d, n) = validated s s' req h in
      let (f, b) = (validate_no_duplicates_iff max_tuples req.deletes req.writes).0 n in
      (validate_deletes-none req.deletes d, f, b)
