-- ===== src/Examples/Changed.antt =====
-- The changelog of the in-memory datastore read page by page.
use kengen.Base.{
  ℕ, Text, text, text_eq, ◌≡◌, ◌+◌, refl, Bool, Option, none, some, List, [], ◌∷◌, map, arith,
  subst, sym, length, ◌<◌,
}
use kengen.Tuple.Key.{TupleKey}
use kengen.Storage.Record.{TupleChangeRec, operation_write}
use kengen.Storage.Memory.Write.{TupleBackend}
use kengen.Storage.Memory.Changes.{ReadChangesFilter, of_type, too_new}
use kengen.Storage.Memory.Changes.Later.{Ascending, visible}
use kengen.Storage.Memory.Changes.Followed.{page_from, follow_changes, read_changes-follow}

abbrev doc_viewer : TupleKey ℕ
doc_viewer = record {
  object = text "doc:1";
  relation = text "viewer";
  user = text "user:anne";
  condition = none;
}

abbrev change_at : ℕ → TupleKey ℕ → TupleChangeRec ℕ
change_at n tk = record {
  change = record { tuple_key = tk; operation = operation_write; timestamp = n };
  ulid = n;
}

abbrev logged : TupleBackend ℕ
logged = record {
  tuples = λ s. [];
  changes = λ s.
      change_at 1 doc_viewer
      ∷ change_at 2 (record doc_viewer { object = text "folder:1" })
      ∷ change_at 3 doc_viewer
      ∷ change_at 9 doc_viewer
      ∷ [];
}

-- A ULID as one letter.
abbrev one_letter : ℕ → Text
one_letter u = u ∷ []

abbrev read_letter : Text → Option ℕ
read_letter [] = none
read_letter (u ∷ []) = some u
read_letter (u ∷ v ∷ rest) = none

abbrev doc_changes : ReadChangesFilter
doc_changes = record { object_type = text "doc"; horizon_offset = 2 }

two_seen :
    visible doc_changes 8 (logged.changes (text "s"))
    ≡ change_at 1 doc_viewer ∷ change_at 3 doc_viewer ∷ []
unfolding of_type too_new text_eq kengen.Base.has_prefix
two_seen = refl

letters-Ascending : Ascending (logged.changes (text "s"))
letters-Ascending = (
  (omega arith, (omega arith, (omega arith, tt))),
  ((omega arith, (omega arith, tt)), ((omega arith, tt), (tt, tt))),
)

read_changes-follow_example :
    follow_changes (page_from read_letter one_letter 8 logged (text "s") doc_changes 1) 5 []
    ≡ some (map (λ c. c.change) (visible doc_changes 8 (logged.changes (text "s"))))
read_changes-follow_example =
    read_changes-follow read_letter one_letter 8 logged (text "s") doc_changes 1 (λ u. refl) refl 5
      letters-Ascending (subst (λ z. length z < 5) (sym two_seen) (omega arith))
