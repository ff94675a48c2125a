-- ===== src/Examples/Reading.antt =====
-- Reads of a store of pkg/storage/memory.
use kengen.Base.{
  ℕ, ◌<◌, Text, text, ◌≡◌, refl, Option, none, some, List, [], ◌∷◌, map, length, Selected, arith,
}
use kengen.Base.Decimal.{itoa}
use kengen.Storage.Record.{TupleRecord, Tuple, as_tuple, ok}
use kengen.Storage.Memory.Write.{TupleBackend}
use kengen.Storage.Memory.Read.{
  ReadFilter, read_matches, read_page, ReadUsersetTuplesFilter, read_userset_tuples,
}
use kengen.Storage.Memory.Described.{Described}
use kengen.Storage.Memory.Paging.{never, read_all, read_all_complete, read_page_past_end}
use kengen.Storage.Memory.Usersets.{read_userset_tuples_conditions}

abbrev member : TupleRecord ℕ
member = record {
  store = text "s";
  object_type = text "doc";
  object_id = text "1";
  relation = text "viewer";
  user = text "group:eng#member";
  user_object_type = [];
  user_object_id = [];
  user_relation = [];
  condition_name = text "in_hours";
  condition_context = none;
  ulid = 1;
  inserted_at = 5;
}

abbrev pub backend : TupleBackend ℕ
backend = record {
  tuples = λ s. member ∷ (record member { object_id = text "2"; ulid = 2 }) ∷ [];
  changes = λ s. [];
}

abbrev everything : ReadFilter
everything = record { object = []; relation = []; user = []; conditions = [] }

abbrev members : ReadUsersetTuplesFilter
members = record {
  object = text "doc:1";
  relation = text "viewer";
  allowed_user_type_restrictions = (text "group", text "member") ∷ [];
  conditions = text "other" ∷ [];
}

two_matches : length (read_matches (backend.tuples (text "s")) everything) ≡ 2
unfolding read_matches kengen.Base.text_eq
two_matches = refl

-- The first document, under a condition.
abbrev of_doc : ReadFilter
of_doc = record {
  object = text "doc:1";
  relation = [];
  user = [];
  conditions = text "in_hours" ∷ [];
}

one_match : length (read_matches (backend.tuples (text "s")) of_doc) ≡ 1
unfolding read_matches kengen.Base.text_eq kengen.Storage.Memory.Match.matches
    kengen.Tuple.Split.split_object
one_match = refl

read_all_complete_example :
    (ts : List (TupleRecord ℕ)) × (read_all 0 backend (text "s") of_doc 1 5 []
      ≡ some (map (as_tuple 0) ts))
    × Selected (Described of_doc) (backend.tuples (text "s")) ts
read_all_complete_example =
    read_all_complete 0 backend (text "s") of_doc 1 5 (omega arith) (omega (arith, one_match))
      (omega (arith, one_match))

read_page_past_end_example :
    (first token : Text) × (ts : List (Tuple ℕ)) × (read_page 0 never backend
        (text "s")
        everything
        (record { page_size = 1; from = [] })
      ≡ ok (ts, first))
    × (read_page 0 never backend (text "s") everything (record { page_size = 1; from = itoa 7 })
        ≡ ok (ts, token))
read_page_past_end_example =
    read_page_past_end 0 backend (text "s") everything 1 7 (omega arith)
      (omega (arith, two_matches)) (omega arith)

read_userset_tuples_conditions_example :
    read_userset_tuples backend (text "s") (record members { conditions = [] })
    ≡ read_userset_tuples backend (text "s") members
read_userset_tuples_conditions_example =
    read_userset_tuples_conditions backend (text "s") members []
