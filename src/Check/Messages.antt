-- ===== src/Check/Messages.antt =====
-- internal/graph/default_resolver.go: where a message comes from, and which one is behind an outcome that allows.
use mathlib.Core.List.Memᴰ
use mathlib.Core.Option.{none-ne-some}
use kengen.Base.{
  Text, text_eq, text_eq_iff, ◌≡◌, refl, sym, subst, ◌⊎◌, inl, inr, true, false, ◌&&◌, Option, some,
  List, [], ◌∷◌, any, Memᴰ, arith, Bool-cases, Option-cases,
}
use kengen.Tuple.Key.{TupleKey}
use kengen.Tuple.Split.{get_type, split_object_relation, is_typed_wildcard}
use kengen.Storage.Iterators.Ops.{Next, item, done, fault}
use kengen.Typesystem.Model.{is_schema_version_supported}
use kengen.Typesystem.Lookup.{get_relation}
use kengen.Validation.Struct.{Fields}
use kengen.Check.Request.{CheckRequest, Outcome, Checker}
use kengen.Check.Dispatches.{
  DispatchMsg, dispatch_error, short_circuit, dispatch_params, child_request, end_messages,
  userset_message, then_messages, userset_messages, is_undefined, ttu_messages, process_dispatches,
  given_keys, last_messages, produce_userset_dispatches, produce_ttu_dispatches,
}
use kengen.Check.Outcomes.{allows}
use kengen.Check.Found.{and-true}

module _ {V : Type 0} (resolve : CheckRequest → Option (Outcome V)) (req : CheckRequest) where
  -- The message leads to an outcome that allows.
  abbrev pub Succeeds : DispatchMsg V → Type 0
  Succeeds (dispatch_error e) = ⊥
  Succeeds short_circuit = Unit {0}
  Succeeds (dispatch_params object relation user) =
      (o : Outcome V) × (resolve (child_request req object relation user) ≡ some o)
      × (allows o ≡ true)

  pub process_dispatches-Succeeds :
      (ms : List (DispatchMsg V)) (os : List (Outcome V))
      → process_dispatches resolve req ms ≡ some os
      → any allows os ≡ true
      → (m : DispatchMsg V) × Memᴰ m ms × Succeeds m
  unfolding process_dispatches
  process_dispatches-Succeeds [] os h k =
      let same : [] ≡ os = cc h in absurd (nothing (subst (λ z. any allows z ≡ true) (sym same) k))
    where
      nothing : false ≡ true → ⊥
      nothing h = cc
  process_dispatches-Succeeds (dispatch_error e ∷ ms) os h k =
      elim (Option-cases (process_dispatches resolve req ms)) [
        | inl n ↦ absurd (none-ne-some _ (rw (process_dispatches, n) at h))
        | inr (os', n) ↦
            let (m, j, good) = process_dispatches-Succeeds ms os' n (ground (arith, h, n, k)) in
            (m, Memᴰ.tail j, good)
      ]
  process_dispatches-Succeeds (short_circuit ∷ ms) os h k = (short_circuit, Memᴰ.head refl, tt)
  process_dispatches-Succeeds (dispatch_params object relation user ∷ ms) os h k =
      elim (Option-cases (resolve (child_request req object relation user))) [
        | inl n ↦ absurd (none-ne-some _ (rw (process_dispatches, n) at h))
        | inr (o, n) ↦ elim (Option-cases (process_dispatches resolve req ms)) [
          | inl n' ↦ absurd (none-ne-some _ (rw (process_dispatches, n, n') at h))
          | inr (os', n') ↦ elim (Bool-cases (allows o)) [
            | inl good ↦ (dispatch_params object relation user, Memᴰ.head refl, (o, n, good))
            | inr bad ↦
                let same : o ∷ os' ≡ os = cc (rw (process_dispatches, n, n') at h) in
                let left : any allows os' ≡ true =
                  rw bad at (subst (λ z. any allows z ≡ true) (sym same) k) in
                let (m, j, good) = process_dispatches-Succeeds ms os' n' left in
                (m, Memᴰ.tail j, good)
          ]
        ]
      ]

module _ {V : Type 0} where
  then_messages-from :
      (ms more : List (DispatchMsg V)) (m : DispatchMsg V)
      → Memᴰ m (then_messages ms more)
      → Memᴰ m ms ⊎ Memᴰ m more
  unfolding then_messages
  then_messages-from [] more m j = inr j
  then_messages-from (short_circuit ∷ ms) more m j = inl (Memᴰ.head (Memᴰ.eq_of_singleton j))
  then_messages-from (dispatch_error e ∷ ms) more m j = Memᴰ.append_cases (dispatch_error e ∷ ms) j
  then_messages-from (dispatch_params o r u ∷ ms) more m j =
      Memᴰ.append_cases (dispatch_params o r u ∷ ms) j

module _ {D P V : Type 0} (c : Checker D P V) (req : CheckRequest) where
  pub end_messages-error :
      (last : Next (TupleKey Fields) V) (m : DispatchMsg V)
      → Memᴰ m (end_messages c last)
      → (resolve : CheckRequest → Option (Outcome V)) → Succeeds resolve req m
      → ⊥
  end_messages-error (item tk) m j resolve good = Memᴰ.not-nil j
  end_messages-error done m j resolve good = Memᴰ.not-nil j
  end_messages-error (fault e) m j resolve good =
      subst (Succeeds resolve req) (Memᴰ.eq_of_singleton j) good

  -- A message that succeeds is of some tuple that the iterator gave.
  userset_messages-from :
      (ts : List (TupleKey Fields)) (last : List (DispatchMsg V)) (m : DispatchMsg V)
      → Memᴰ m (userset_messages c req ts last)
      → Memᴰ m last ⊎ ((t : TupleKey Fields) × Memᴰ t ts × Memᴰ m (userset_message c req t))
  unfolding userset_messages
  userset_messages-from [] last m j = inl j
  userset_messages-from (t ∷ ts) last m j =
      elim (then_messages-from (userset_message c req t) (userset_messages c req ts last) m j) [
        | inl k ↦ inr (t, Memᴰ.head refl, k)
        | inr k ↦ elim (userset_messages-from ts last m k) [
          | inl l ↦ inl l
          | inr (t', n, l) ↦ inr (t', Memᴰ.tail n, l)
        ]
      ]

  ttu_messages-from :
      (computed : Text) (ts : List (TupleKey Fields)) (last : List (DispatchMsg V))
      (m : DispatchMsg V)
      → Memᴰ m (ttu_messages c req computed ts last)
      → Memᴰ m last
        ⊎ ((t : TupleKey Fields) × Memᴰ t ts
            × (m ≡ dispatch_params (split_object_relation t.user).0 computed req.user))
  unfolding ttu_messages
  ttu_messages-from computed [] last m j = inl j
  ttu_messages-from computed (t ∷ ts) last m j =
      elim (Bool-cases (
        is_undefined
          (get_relation c.typesys (get_type (split_object_relation t.user).0) computed))) [
            | inl e ↦ elim (ttu_messages-from computed ts last m (rw e at j)) [
              | inl l ↦ inl l
              | inr (t', n, l) ↦ inr (t', Memᴰ.tail n, l)
            ]
            | inr e ↦ elim (Memᴰ.cases_cons (rw e at j)) [
              | inl same ↦ inr (t, Memᴰ.head refl, same)
              | inr k ↦ elim (ttu_messages-from computed ts last m k) [
                | inl l ↦ inl l
                | inr (t', n, l) ↦ inr (t', Memᴰ.tail n, l)
              ]
            ]
          ]

  -- The two messages that a tuple can have: that its userset is of all users of the type, or its userset.
  userset_message-cases :
      (t : TupleKey Fields) (m : DispatchMsg V)
      → Memᴰ m (userset_message c req t)
      → ((is_typed_wildcard (split_object_relation t.user).0 ≡ true)
          × (get_type (split_object_relation t.user).0 ≡ get_type req.user))
        ⊎ (m
            ≡ dispatch_params
                (split_object_relation t.user).0
                (split_object_relation t.user).1
                req.user)
  unfolding userset_message
  userset_message-cases t m j =
      let w = (split_object_relation t.user).0 in
      elim (Bool-cases (
        is_typed_wildcard w
        && (is_schema_version_supported c.typesys.schema_version
            && text_eq (get_type req.user) (get_type w)))) [
              | inl e ↦
                  let (a, b) = and-true (is_typed_wildcard w) _ e in
                  let (x, y) =
                    and-true (is_schema_version_supported c.typesys.schema_version) _ b in
                  inl (a, sym ((text_eq_iff (get_type req.user) (get_type w)).0 y))
              | inr e ↦ elim (Bool-cases (text_eq (split_object_relation t.user).1 [])) [
                | inl k ↦ absurd (Memᴰ.not-nil (rw (e, k) at j))
                | inr k ↦ inr (Memᴰ.eq_of_singleton (rw (e, k) at j))
              ]
            ]

  module _ (resolve : CheckRequest → Option (Outcome V)) (keys : List (TupleKey Fields))
      (m : DispatchMsg V) (good : Succeeds resolve req m) where
    pub produce_userset_dispatches-from :
        Memᴰ m (produce_userset_dispatches c req keys)
        → (t : TupleKey Fields) × Memᴰ t (given_keys c keys)
          × (((is_typed_wildcard (split_object_relation t.user).0 ≡ true)
                × (get_type (split_object_relation t.user).0 ≡ get_type req.user))
              ⊎ Succeeds resolve req (
                  dispatch_params
                    (split_object_relation t.user).0
                    (split_object_relation t.user).1
                    req.user))
    unfolding produce_userset_dispatches
    produce_userset_dispatches-from j =
        elim (userset_messages-from (given_keys c keys) (last_messages c keys) m j) [
          | inl l ↦ absurd (end_messages-error _ m l resolve good)
          | inr (t, n, l) ↦ elim (userset_message-cases t m l) [
            | inl all_users ↦ (t, n, inl all_users)
            | inr same ↦ (t, n, inr (subst (Succeeds resolve req) same good))
          ]
        ]

    pub produce_ttu_dispatches-from :
        (computed : Text)
        → Memᴰ m (produce_ttu_dispatches c req computed keys)
        → (t : TupleKey Fields) × Memᴰ t (given_keys c keys)
          × Succeeds resolve req
              (dispatch_params (split_object_relation t.user).0 computed req.user)
    unfolding produce_ttu_dispatches
    produce_ttu_dispatches-from computed j =
        elim (ttu_messages-from computed (given_keys c keys) (last_messages c keys) m j) [
          | inl l ↦ absurd (end_messages-error _ m l resolve good)
          | inr (t, n, same) ↦ (t, n, subst (Succeeds resolve req) same good)
        ]
