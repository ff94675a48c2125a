-- ===== src/Typesystem/Entrypoints/Spec.antt =====
-- pkg/typesystem/typesystem.go: what a call of `hasEntrypoints` says and leaves behind.
use kengen.Base.{
  Text, text_eq, text_eq_iff, ◌≡◌, refl, sym, ap, subst, ◌∙◌, inl, inr, Bool, true, false, Option,
  none, some, any, arith, Bool-cases,
}
use kengen.Typesystem.Model.{Userset, Relation, TypeSystem}
use kengen.Typesystem.Entrypoints.{
  Visited, value, visit, leave, EntryResult, entered, undefined_relation, too_few_children,
  unknown_rewrite, no_fuel, left_with, after, Jump, relation_in,
}
use kengen.Typesystem.Entrypoints.Visits.{same, value-visit, value-leave, value-any}
use kengen.Typesystem.Entrypoints.Entry.{Entry, Enters}

-- What was visited stays, but for the relation at hand.
abbrev pub Kept : Text → Text → Visited → Visited → Type 0
Kept ty r v v' =
    (ty' r' : Text) (b : Bool)
    → value v ty' r' ≡ some b
    → same ty r ty' r' ≡ false
    → value v' ty' r' ≡ some b

abbrev pub KeptAll : Visited → Visited → Type 0
KeptAll v v' = (ty' r' : Text) (b : Bool) → value v ty' r' ≡ some b → value v' ty' r' ≡ some b

pub Kept-trans :
    (ty r : Text) (v v' v'' : Visited) → Kept ty r v v' → Kept ty r v' v'' → Kept ty r v v''
Kept-trans ty r v v' v'' h k ty' r' b e ne = k ty' r' b (h ty' r' b e ne) ne

pub KeptAll-trans : (v v' v'' : Visited) → KeptAll v v' → KeptAll v' v'' → KeptAll v v''
KeptAll-trans v v' v'' h k ty' r' b e = k ty' r' b (h ty' r' b e)

pub Kept-visit : (ty r : Text) (b : Bool) (v : Visited) → Kept ty r v (visit ty r b v)
Kept-visit ty r b v ty' r' b' e ne = rw (value-visit ty r b v ty' r', ne) e

pub Kept-leave : (ty r : Text) (v v' : Visited) → Kept ty r v v' → Kept ty r v (leave v v')
Kept-leave ty r v v' h ty' r' b e ne =
    rw (value-leave v v' ty' r', value-any v ty' r' b e) (h ty' r' b e ne)

same_iff : (ty r ty' r' : Text) → same ty r ty' r' ≡ true → (ty ≡ ty') × (r ≡ r')
same_iff ty r ty' r' h = ground (arith, text_eq_iff ty ty', text_eq_iff r r', h)

value-same :
    (ty r ty' r' : Text) (v : Visited) → same ty r ty' r' ≡ true → value v ty r ≡ value v ty' r'
value-same ty r ty' r' v h =
    let (p, q) = same_iff ty r ty' r' h in ap (λ z. value v z r) p ∙ ap (λ z. value v ty' z) q

none-some : (b : Bool) → ◌≡◌ {A = Option Bool} none (some b) → ⊥
none-some b h = cc

module _ {D : Type 0} (t : TypeSystem D) where
  -- A relation that is marked with an entrypoint has one, but for the relation at hand.
  abbrev pub Good : Text → Text → Visited → Type 0
  Good ty r v =
      (ty' r' : Text) → value v ty' r' ≡ some true → same ty r ty' r' ≡ false → Enters t ty' r'

  abbrev pub GoodAll : Visited → Type 0
  GoodAll v = (ty' r' : Text) → value v ty' r' ≡ some true → Enters t ty' r'

  pub leave-some :
      (v v' : Visited) (ty r : Text) (b : Bool)
      → value (leave v v') ty r ≡ some b
      → value v' ty r ≡ some b
  leave-some v v' ty r b h = elim (Bool-cases (any (λ e. text_eq e.0 ty) v)) [
    | inl e ↦ ground (arith, value-leave v v' ty r, e)
    | inr e ↦ ground (arith, value-leave v v' ty r, e)
  ]

  pub Good-leave : (ty r : Text) (v v' : Visited) → Good ty r v' → Good ty r (leave v v')
  Good-leave ty r v v' h ty' r' e ne = h ty' r' (leave-some v v' ty' r' true e) ne

  pub Good-visit : (ty r : Text) (b : Bool) (v : Visited) → Good ty r v → Good ty r (visit ty r b v)
  Good-visit ty r b v h ty' r' e ne = h ty' r' (rw (value-visit ty r b v ty' r', ne) at e) ne

  -- What a call for a relation says, of one of its rewrites.
  abbrev pub Says : Text → Text → Userset → Visited → EntryResult → Type 0
  Says ty r u v (entered has loop v') =
      (has ≡ true → Entry t ty r u)
      × Kept ty r v v'
      × Good ty r v'
      × (value v' ty r ≡ some true → has ≡ true)
  Says ty r u v (undefined_relation ty' r') = Unit
  Says ty r u v too_few_children = Unit
  Says ty r u v unknown_rewrite = Unit
  Says ty r u v no_fuel = Unit

  -- What a call for another relation, not visited, says.
  abbrev pub Answers : Text → Text → Userset → Visited → EntryResult → Type 0
  Answers ty r u v (entered has loop v') = (has ≡ true → Entry t ty r u) × KeptAll v v' × GoodAll v'
  Answers ty r u v (undefined_relation ty' r') = Unit
  Answers ty r u v too_few_children = Unit
  Answers ty r u v unknown_rewrite = Unit
  Answers ty r u v no_fuel = Unit

  abbrev pub JumpAnswers : Jump → Type 0
  JumpAnswers jump =
      (v : Visited) (ty r : Text) (s : Relation)
      → relation_in t ty r ≡ some s
      → value v ty r ≡ none
      → GoodAll v
      → Answers ty r s.rewrite v (jump v ty r s.rewrite)

  -- A call for a relation that is not visited says enough for its caller.
  pub Says-Answers :
      (ty r : Text) (s : Relation) (v : Visited) (res : EntryResult)
      → relation_in t ty r ≡ some s
      → value v ty r ≡ none
      → Says ty r s.rewrite v res
      → Answers ty r s.rewrite v res
  Says-Answers ty r s v (entered has loop v') e new (h, k, g, m) = (
    h,
    λ ty' r' b seen. elim (Bool-cases (same ty r ty' r')) [
      | inl here ↦ absurd (none-some b (sym new ∙ value-same ty r ty' r' v here ∙ seen))
      | inr ne ↦ k ty' r' b seen ne
    ],
    λ ty' r' seen. elim (Bool-cases (same ty r ty' r')) [
      | inl here ↦
          let (p, q) = same_iff ty r ty' r' here in
          let found : Enters t ty r = (s, e, h (m (value-same ty r ty' r' v' here ∙ seen))) in
          subst (λ z. Enters t z r') p (subst (λ z. Enters t ty z) q found)
      | inr ne ↦ g ty' r' seen ne
    ],
  )
  Says-Answers ty r s v (undefined_relation ty' r') e new h = tt
  Says-Answers ty r s v too_few_children e new h = tt
  Says-Answers ty r s v unknown_rewrite e new h = tt
  Says-Answers ty r s v no_fuel e new h = tt

  pub Says-left_with :
      (ty r : Text) (u : Userset) (v v' : Visited) (res : EntryResult)
      → Kept ty r v v'
      → Says ty r u v' res
      → Says ty r u v (left_with v res)
  Says-left_with ty r u v v1 (entered has loop v') k (h, k', g, m) = (
    h,
    Kept-leave ty r v v' (Kept-trans ty r v v1 v' k k'),
    Good-leave ty r v v' g,
    λ e. m (leave-some v v' ty r true e),
  )
  Says-left_with ty r u v v1 (undefined_relation ty' r') k h = tt
  Says-left_with ty r u v v1 too_few_children k h = tt
  Says-left_with ty r u v v1 unknown_rewrite k h = tt
  Says-left_with ty r u v v1 no_fuel k h = tt

  pub Says-weaken :
      (ty r : Text) (u : Userset) (v v' : Visited) (res : EntryResult)
      → Kept ty r v v'
      → Says ty r u v' res
      → Says ty r u v res
  Says-weaken ty r u v v1 (entered has loop v') k (h, k', g, m) =
      (h, Kept-trans ty r v v1 v' k k', g, m)
  Says-weaken ty r u v v1 (undefined_relation ty' r') k h = tt
  Says-weaken ty r u v v1 too_few_children k h = tt
  Says-weaken ty r u v v1 unknown_rewrite k h = tt
  Says-weaken ty r u v v1 no_fuel k h = tt

  -- What follows a call for another relation.
  pub after-Answers :
      (ty r ty' r' : Text) (u u' : Userset) (v : Visited) (res : EntryResult)
      (found more : Bool → Visited → EntryResult)
      → Answers ty' r' u' v res
      → ((loop : Bool) (v' : Visited)
          → Entry t ty' r' u'
          → KeptAll v v'
          → GoodAll v'
          → Says ty r u v (found loop v'))
      → ((loop : Bool) (v' : Visited) → KeptAll v v' → GoodAll v' → Says ty r u v (more loop v'))
      → Says ty r u v (after res found more)
  after-Answers ty r ty' r' u u' v (entered true loop v') found more (h, k, g) f m =
      f loop v' (h refl) k g
  after-Answers ty r ty' r' u u' v (entered false loop v') found more (h, k, g) f m = m loop v' k g
  after-Answers ty r ty' r' u u' v (undefined_relation ty1 r1) found more h f m = tt
  after-Answers ty r ty' r' u u' v too_few_children found more h f m = tt
  after-Answers ty r ty' r' u u' v unknown_rewrite found more h f m = tt
  after-Answers ty r ty' r' u u' v no_fuel found more h f m = tt

  -- What follows a call for another rewrite `w` of the same relation.
  pub after-Says :
      (ty r : Text) (u w : Userset) (v : Visited) (res : EntryResult)
      (found more : Bool → Visited → EntryResult)
      → Says ty r w v res
      → ((loop : Bool) (v' : Visited)
          → Entry t ty r w
          → Kept ty r v v'
          → Good ty r v'
          → Says ty r u v (found loop v'))
      → ((loop : Bool) (v' : Visited)
          → Kept ty r v v'
          → Good ty r v'
          → (value v' ty r ≡ some true → ⊥)
          → Says ty r u v (more loop v'))
      → Says ty r u v (after res found more)
  after-Says ty r u w v (entered true loop v') found more (h, k, g, o) f m = f loop v' (h refl) k g
  after-Says ty r u w v (entered false loop v') found more (h, k, g, o) f m =
      m loop v' k g (λ e. refute (o e))
    where
      refute : false ≡ true → ⊥
      refute h = cc
  after-Says ty r u w v (undefined_relation ty1 r1) found more h f m = tt
  after-Says ty r u w v too_few_children found more h f m = tt
  after-Says ty r u w v unknown_rewrite found more h f m = tt
  after-Says ty r u w v no_fuel found more h f m = tt

  -- A call that found nothing.
  pub Says-nothing :
      (ty r : Text) (u : Userset) (loop : Bool) (v v' : Visited)
      → Kept ty r v v'
      → Good ty r v'
      → (value v' ty r ≡ some true → ⊥)
      → Says ty r u v (entered false loop v')
  Says-nothing ty r u loop v v' k g m = (λ h. absurd (refute h), k, g, λ e. absurd (m e))
    where
      refute : false ≡ true → ⊥
      refute h = cc
