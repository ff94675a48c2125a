-- ===== src/Validation/Struct.antt =====
-- internal/validation/validation.go: `ValidateStruct` over the context of a condition, and internal/utils/sanitize.go. A
-- protobuf struct is a tree; the number of a double's bits stands for it, and a map is a list of its entries.
use kengen.Base.{
  ℕ, Text, ◌≡◌, refl, Bool, true, false, ◌||◌, Option, none, some, List, [], ◌∷◌, ◌++◌, any, arith,
  ap, sym, ◌∙◌, any-append, ◌↔◌, if◌then◌else◌,
}
use kengen.Tuple.Valid.{is_control}

-- `ContainsForbiddenChars`
unfoldable pub contains_forbidden_chars : Text → Bool
unfolding is_control
contains_forbidden_chars s = any is_control s

mutual
  pub data Value : Type 0 where
    nil null nil_struct : Value
    number : ℕ → Value
    boolean : Bool → Value
    string_value : Text → Value
    list_value : Values → Value
    struct_value : Fields → Value

  pub data Values : Type 0 where
    no_values : Values
    value : Value → Values → Values

  pub data Fields : Type 0 where
    no_fields : Fields
    field : Text → Value → Fields → Fields

abbrev pub field_names : Fields → List Text
field_names no_fields = []
field_names (field k v fs) = k ∷ field_names fs

pub data StructError : Type 0 where
  forbidden_key forbidden_value : Text → StructError

abbrev pub or_else : Option StructError → Option StructError → Option StructError
or_else (some e) next = some e
or_else none next = next

abbrev pub when : Bool → StructError → Option StructError
when b e = if b then some e else none

-- `validateValueForbiddenChars` and `ValidateStruct` of a struct that is not nil
unfoldable mutual
  unfolding contains_forbidden_chars

  pub validate_value : Value → Option StructError
  validate_value nil = none
  validate_value null = none
  validate_value nil_struct = none
  validate_value (number n) = none
  validate_value (boolean b) = none
  validate_value (string_value s) = when (contains_forbidden_chars s) (forbidden_value s)
  validate_value (list_value vs) = validate_values vs
  validate_value (struct_value fs) = validate_struct fs

  pub validate_values : Values → Option StructError
  validate_values no_values = none
  validate_values (value v vs) = or_else (validate_value v) (validate_values vs)

  pub validate_struct : Fields → Option StructError
  validate_struct no_fields = none
  validate_struct (field k v fs) =
      or_else (when (contains_forbidden_chars k) (forbidden_key k))
        (or_else (validate_value v) (validate_struct fs))

-- The keys and the texts of a value, at any depth.
mutual
  pub texts : Value → List Text
  texts nil = []
  texts null = []
  texts nil_struct = []
  texts (number n) = []
  texts (boolean b) = []
  texts (string_value s) = s ∷ []
  texts (list_value vs) = texts_each vs
  texts (struct_value fs) = texts_struct fs

  pub texts_each : Values → List Text
  texts_each no_values = []
  texts_each (value v vs) = texts v ++ texts_each vs

  pub texts_struct : Fields → List Text
  texts_struct no_fields = []
  texts_struct (field k v fs) = k ∷ (texts v ++ texts_struct fs)

abbrev failed : Option StructError → Bool
failed none = false
failed (some e) = true

failed-or_else : (a b : Option StructError) → failed (or_else a b) ≡ (failed a || failed b)
failed-or_else none b = refl
failed-or_else (some e) b = refl

failed-when : (b : Bool) (e : StructError) → failed (when b e) ≡ b
failed-when true e = refl
failed-when false e = refl

mutual
  unfolding validate_struct texts_struct contains_forbidden_chars

  failed-validate_value :
      (v : Value) → failed (validate_value v) ≡ any contains_forbidden_chars (texts v)
  failed-validate_value nil = refl
  failed-validate_value null = refl
  failed-validate_value nil_struct = refl
  failed-validate_value (number n) = refl
  failed-validate_value (boolean b) = refl
  failed-validate_value (string_value s) =
      failed-when (contains_forbidden_chars s) (forbidden_value s) ∙ ground arith
  failed-validate_value (list_value vs) = failed-validate_values vs
  failed-validate_value (struct_value fs) = failed-validate_struct fs

  failed-validate_values :
      (vs : Values) → failed (validate_values vs) ≡ any contains_forbidden_chars (texts_each vs)
  failed-validate_values no_values = refl
  failed-validate_values (value v vs) =
      failed-or_else (validate_value v) (validate_values vs)
      ∙ rw (failed-validate_value v, failed-validate_values vs)
          (sym (any-append contains_forbidden_chars (texts v) (texts_each vs)))

  failed-validate_struct :
      (fs : Fields) → failed (validate_struct fs) ≡ any contains_forbidden_chars (texts_struct fs)
  failed-validate_struct no_fields = refl
  failed-validate_struct (field k v fs) =
      failed-or_else (when (contains_forbidden_chars k) (forbidden_key k))
        (or_else (validate_value v) (validate_struct fs))
      ∙ rw
          (
            failed-when (contains_forbidden_chars k) (forbidden_key k),
            failed-or_else (validate_value v) (validate_struct fs),
            failed-validate_value v,
            failed-validate_struct fs,
            any-append contains_forbidden_chars (texts v) (texts_struct fs),
          )
          refl

-- `ValidateStruct` passes a struct exactly when no key and no text in it, at any depth, has a control character.
pub validate_struct_iff :
    (fs : Fields)
    → (validate_struct fs ≡ none) ↔ (any contains_forbidden_chars (texts_struct fs) ≡ false)
validate_struct_iff fs = (passes, refuses (validate_struct fs) refl)
  where
    refute : true ≡ false → ⊥
    refute h = cc

    passes : validate_struct fs ≡ none → any contains_forbidden_chars (texts_struct fs) ≡ false
    passes h = sym (failed-validate_struct fs) ∙ ap failed h

    refuses :
        (o : Option StructError)
        → validate_struct fs ≡ o
        → any contains_forbidden_chars (texts_struct fs) ≡ false
        → validate_struct fs ≡ none
    refuses none e h = e
    refuses (some x) e h = absurd (refute (sym (ap failed e) ∙ failed-validate_struct fs ∙ h))
