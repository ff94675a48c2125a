-- ===== src/Storage/Memory/Prefix.antt =====
-- A delete whose object has an empty id, in `Write` of pkg/storage/memory/memory.go.
use kengen.Base.{
  Option, ℕ, Text, text_eq, text_eq_refl, ◌≡◌, ap, ◌∙◌, Bool, true, false, not, ◌&&◌, List, [], ◌∷◌,
  ◌++◌, arith, filter, filter-ext,
}
use kengen.Tuple.Key.{TupleKeyWithoutCondition}
use kengen.Tuple.Valid.{is_valid_user}
use kengen.Tuple.Slices.{lacks, split_object-append}
use kengen.Tuple.UserForms.{text_eq-append_cons, to_user_parts-valid}
use kengen.Storage.Record.{TupleRecord, TupleWriteOption, new_tuple_write_options, ok}
use kengen.Storage.Memory.Match.{matches}
use kengen.Storage.Memory.Write.{
  TupleBackend, Progress, is_deleted, write_loop, apply_writes, write,
}
use kengen.Storage.Memory.Changelog.{records-delete_loop}
use kengen.Storage.Memory.Sanitize.{Skips-sanitize, is_deleted-Skips}
use kengen.Storage.Memory.Effect.{write_ok}

module _ {C : Type 0} where
  -- The records of the type, the relation and the user, of any object id.
  abbrev pub of_type : Text → Text → Text → TupleRecord C → Bool
  of_type t rel usr r = text_eq t r.object_type && (text_eq r.relation rel && text_eq r.user usr)

  matches_prefix :
      (r : TupleRecord C) (t rel usr : Text)
      → lacks b':' t ≡ true
      → text_eq rel [] ≡ false
      → is_valid_user usr ≡ true
      → matches r (t ++ (b':' ∷ [])) rel usr ≡ of_type t rel usr r
  unfolding matches
  matches_prefix r t rel usr ht hr hu = ground (
    arith,
    split_object-append t [] ht,
    text_eq-append_cons t [] b':',
    to_user_parts-valid usr hu,
    text_eq_refl [],
  )

  -- A `Write` that deletes `type:` with no id, under any options, removes the tuples of every object
  -- of that type with the relation and the user, and no others. The type has no `:`, the relation is
  -- not empty and the user is valid.
  pub write_delete_type :
      (e : C) (cs : Option C → Text) (s s' : TupleBackend C) (store t rel usr : Text)
      (opts : List TupleWriteOption) (now : ℕ) (mint : ℕ → ℕ)
      → lacks b':' t ≡ true
      → text_eq rel [] ≡ false
      → is_valid_user usr ≡ true
      → write e cs s store
          (record { object = t ++ (b':' ∷ []); relation = rel; user = usr } ∷ [])
          []
          opts
          now
          mint
        ≡ ok s'
      → s'.tuples store ≡ filter (λ r. not (of_type t rel usr r)) (s.tuples store)
  unfolding apply_writes write_loop
  write_delete_type e cs s s' store t rel usr opts now mint ht hr hu h =
      let k : TupleKeyWithoutCondition = record {
        object = t ++ (b':' ∷ []);
        relation = rel;
        user = usr;
      } in
      let ks = k ∷ [] in
      let (dups, sane, q) = write_ok e cs s store ks [] opts now mint s' h in
      let o = (new_tuple_write_options opts).on_missing_delete in
      let rs = s.tuples store in
      let start : Progress C = record { records = []; changes = s.changes store; minted = 0 } in
      rw (q, text_eq_refl store)
        (records-delete_loop e now mint (is_deleted dups 0 ks) rs start
          ∙ filter-ext (λ r. not (is_deleted dups 0 ks r)) (λ r. not (of_type t rel usr r)) rs
              (λ r m. ap not (
                is_deleted-Skips rs dups 0 ks r m (Skips-sanitize rs o 0 ks dups sane)
                ∙ ground (arith, matches_prefix r t rel usr ht hr hu))))
