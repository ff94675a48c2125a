-- ===== src/Tuple/Order.antt =====
-- The sort order of tuple keys, `TupleKeys.Less` of pkg/tuple/tuple.go.
use kengen.Base.{text_eq_iff, text_lt_asym, text_lt_total, ◌≡◌, ◌↔◌, ◌⊎◌, sym, true, arith}
use kengen.Tuple.Key.{TupleKey, condition_name, less}

module _ {C : Type 0} where
  -- The fields that the order reads.
  pub record SameSortKey (a b : TupleKey C) : Type 0 where
    pub object : a.object ≡ b.object
    pub relation : a.relation ≡ b.relation
    pub user : a.user ≡ b.user
    pub name : condition_name a.condition ≡ condition_name b.condition

  less_antisym : (a b : TupleKey C) → less a b ≡ true → less b a ≡ true → SameSortKey a b
  unfolding less
  less_antisym a b h k = ground (
    arith,
    text_eq_iff a.object b.object,
    text_eq_iff b.object a.object,
    text_lt_asym a.object b.object,
    text_eq_iff a.relation b.relation,
    text_eq_iff b.relation a.relation,
    text_lt_asym a.relation b.relation,
    text_eq_iff a.user b.user,
    text_eq_iff b.user a.user,
    text_lt_asym a.user b.user,
    text_eq_iff (condition_name a.condition) (condition_name b.condition),
    text_eq_iff (condition_name b.condition) (condition_name a.condition),
    text_lt_asym (condition_name a.condition) (condition_name b.condition),
  )

  less_same : (a b : TupleKey C) → SameSortKey a b → less a b ≡ true
  unfolding less
  less_same a b e = ground (
    arith,
    text_eq_iff a.object b.object,
    text_eq_iff a.relation b.relation,
    text_eq_iff a.user b.user,
    text_eq_iff (condition_name a.condition) (condition_name b.condition),
  )

  flip : {a b : TupleKey C} → SameSortKey a b → SameSortKey b a
  flip e = record {
    object = sym e.object;
    relation = sym e.relation;
    user = sym e.user;
    name = sym e.name;
  }

-- Two keys come before one another exactly when they agree in object, relation, user and condition
-- name: `Less` holds both ways at equal keys, where a strict order holds neither way.
pub less_both_iff :
    {C : Type 0} (a b : TupleKey C) → ((less a b ≡ true) × (less b a ≡ true)) ↔ SameSortKey a b
less_both_iff a b = (λ h. less_antisym a b h.0 h.1, λ e. (less_same a b e, less_same b a (flip e)))

-- Of any two keys one comes before the other.
less_total : {C : Type 0} (a b : TupleKey C) → (less a b ≡ true) ⊎ (less b a ≡ true)
unfolding less
less_total a b = ground (
  arith,
  text_eq_iff a.object b.object,
  text_eq_iff b.object a.object,
  text_lt_total a.object b.object,
  text_eq_iff a.relation b.relation,
  text_eq_iff b.relation a.relation,
  text_lt_total a.relation b.relation,
  text_eq_iff a.user b.user,
  text_eq_iff b.user a.user,
  text_lt_total a.user b.user,
  text_eq_iff (condition_name a.condition) (condition_name b.condition),
  text_eq_iff (condition_name b.condition) (condition_name a.condition),
  text_lt_total (condition_name a.condition) (condition_name b.condition),
)
