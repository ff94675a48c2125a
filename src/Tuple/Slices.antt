-- ===== src/Tuple/Slices.antt =====
-- Lemmas on the searches for a byte and the slices around it.
use kengen.Base.{
  ℕ, suc, Text, ◌≡◌, refl, ap, Bool, true, not, none, some, List, [], ◌∷◌, ◌++◌, arith, length,
  take, drop, all, ◌==◌, length-append,
}
use kengen.Tuple.Split.{index_byte, last_index_byte, cut, split_object, split_object_relation}

-- No code point of `s` is `c`.
abbrev pub lacks : ℕ → Text → Bool
lacks c s = all (λ x. not (x == c)) s

module _ {ℓ} {A : Type ℓ} where
  pub take-append_length : (t r : List A) → take (length t) (t ++ r) ≡ t
  take-append_length [] r = refl
  take-append_length (x ∷ t) r = ap (λ z. x ∷ z) (take-append_length t r)

  pub drop-append_length : (t r : List A) (c : A) → drop (suc (length t)) (t ++ (c ∷ r)) ≡ r
  drop-append_length [] r c = refl
  drop-append_length (x ∷ t) r c = drop-append_length t r c

pub index_byte-append :
    (c : ℕ) (t r : Text) → lacks c t ≡ true → index_byte c (t ++ (c ∷ r)) ≡ some (length t)
unfolding index_byte
index_byte-append c [] r h = ground arith
index_byte-append c (x ∷ t) r h = ground (arith, index_byte-append c t r)

pub index_byte-none : (c : ℕ) (t : Text) → lacks c t ≡ true → index_byte c t ≡ none
unfolding index_byte
index_byte-none c [] h = refl
index_byte-none c (x ∷ t) h = ground (arith, index_byte-none c t)

pub last_index_byte-none : (c : ℕ) (t : Text) → lacks c t ≡ true → last_index_byte c t ≡ none
unfolding last_index_byte
last_index_byte-none c [] h = refl
last_index_byte-none c (x ∷ t) h = ground (arith, last_index_byte-none c t)

pub last_index_byte-append :
    (c : ℕ) (t r : Text) → lacks c r ≡ true → last_index_byte c (t ++ (c ∷ r)) ≡ some (length t)
unfolding last_index_byte
last_index_byte-append c [] r h = ground (arith, last_index_byte-none c r)
last_index_byte-append c (x ∷ t) r h = ground (arith, last_index_byte-append c t r)

pub cut-append : (c : ℕ) (t r : Text) → lacks c t ≡ true → cut c (t ++ (c ∷ r)) ≡ some (t, r)
unfolding cut
cut-append c t r h =
    rw (index_byte-append c t r h, cut) (rw (take-append_length, drop-append_length))

pub cut-none : (c : ℕ) (t : Text) → lacks c t ≡ true → cut c t ≡ none
unfolding cut
cut-none c t h = rw (index_byte-none c t h, cut)

pub split_object-append :
    (t id : Text) → lacks b':' t ≡ true → split_object (t ++ (b':' ∷ id)) ≡ (t, id)
unfolding split_object
split_object-append t id h =
    rw (index_byte-append b':' t id h, split_object) (rw (take-append_length, drop-append_length))

pub split_object-none : (t : Text) → lacks b':' t ≡ true → split_object t ≡ ([], t)
unfolding split_object
split_object-none t h = rw (index_byte-none b':' t h, split_object)

pub split_object_relation-append :
    (t r : Text) → lacks b'#' r ≡ true → split_object_relation (t ++ (b'#' ∷ r)) ≡ (t, r)
unfolding split_object_relation
split_object_relation-append t [] h = ground (
  arith,
  last_index_byte-append b'#' t [] h,
  length-append t (b'#' ∷ []),
  take-append_length t (b'#' ∷ []),
)
split_object_relation-append t (x ∷ r) h = ground (
  arith,
  last_index_byte-append b'#' t (x ∷ r) h,
  length-append t (b'#' ∷ x ∷ r),
  take-append_length t (b'#' ∷ x ∷ r),
  drop-append_length t (x ∷ r) b'#',
)

pub split_object_relation-none :
    (t : Text) → lacks b'#' t ≡ true → split_object_relation t ≡ (t, [])
unfolding split_object_relation
split_object_relation-none t h = rw (last_index_byte-none b'#' t h, split_object_relation)
