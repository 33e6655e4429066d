-- ===== src/CommonTypes/Vectors.antt =====
-- SerializedVector and SerializedKeyValueVector of CommonTypes.h, less their serializers, which the
-- repository does not define. The sizes are below 2^31.
use socket_cplus_plus.Prelude.{
  ℕ, suc, ◌^◌, ◌%◌, ◌≡◌, ap, Bool, true, Option, none, some, List, [], ◌∷◌, ◌++◌, length, get_elem?,
  length-append, take-append_length, drop-beyond, append-nil, ◌∙◌, ltb, arith,
}
use socket_cplus_plus.CommonTypes.{Text, vector_copy, remove, erase}
use socket_cplus_plus.CommonTypes.Erasing.{remove_lem}

-- The two tracking variables of either class.
pub record IndexParams : Type 0 where
  pub list_index : ℕ
  pub list_count : ℕ

pub set_index_params : ℕ → ℕ → IndexParams
set_index_params first_index total_count = record {
  list_index = first_index % 2 ^ 16;
  list_count = total_count % 2 ^ 16;
}

pub record SerializedVector (A : Type 0) : Type 0 where
  pub m_data : List A
  pub params : IndexParams

pub record KeyValue (A : Type 0) : Type 0 where
  pub key : Text
  pub value : A

pub record SerializedKeyValueVector (A : Type 0) : Type 0 where
  pub data_list : List (KeyValue A)
  pub params : IndexParams

module _ {A : Type 0} where
  -- The constructor clears.
  pub clear : SerializedVector A
  clear = record { m_data = []; params = set_index_params 0 0 }

  pub push_back : A → SerializedVector A → SerializedVector A
  push_back value v = record v { m_data = v.m_data ++ (value ∷ []) }

  pub vector_size : SerializedVector A → ℕ
  vector_size v = length v.m_data

  -- operator[]; an index past the end is an error: `none`.
  pub at_index : ℕ → SerializedVector A → Option A
  at_index index v = get_elem? v.m_data index

  pub remove_index : ℕ → SerializedVector A → Bool × SerializedVector A
  remove_index index v =
      let (removed, left) = remove v.m_data index in (removed, record v { m_data = left })

  pub copy_from_vector : List A → SerializedVector A → SerializedVector A
  copy_from_vector values v = record v { m_data = vector_copy v.m_data values }

  pub clear_pairs : SerializedKeyValueVector A
  clear_pairs = record { data_list = []; params = set_index_params 0 0 }

  pub insert_pair : Text → A → SerializedKeyValueVector A → SerializedKeyValueVector A
  insert_pair key obj v = record v {
    data_list = v.data_list ++ (record { key = key; value = obj } ∷ []);
  }

  pub pairs_size : SerializedKeyValueVector A → ℕ
  pairs_size v = length v.data_list

  -- The last of an empty list is an error: `none`.
  pub last_value : SerializedKeyValueVector A → Option A
  last_value v = last_of v.data_list
    where
      last_of : List (KeyValue A) → Option A
      last_of [] = none
      last_of (p ∷ []) = some p.value
      last_of (p ∷ q ∷ rest) = last_of (q ∷ rest)

  pub erase_index : ℕ → SerializedKeyValueVector A → Option (Bool × SerializedKeyValueVector A)
  erase_index index v = elim (erase v.data_list index) [
    | none ↦ none
    | some (erased, left) ↦ some (erased, record v { data_list = left })
  ]

  -- Removing the newest element undoes a push.
  pub remove_index-push_back :
      (value : A) (v : SerializedVector A)
      → remove_index (vector_size v) (push_back value v) ≡ (true, v)
  unfolding remove_index push_back vector_size
  remove_index-push_back value v =
      let n = length v.m_data in
      let longer = length-append v.m_data (value ∷ []) in
      let inside : ltb n (length (v.m_data ++ (value ∷ []))) ≡ true = ground (arith, longer) in
      let gone = drop-beyond (suc n) (v.m_data ++ (value ∷ [])) (omega (arith, longer)) in
      ap (λ (r : Bool × List A). (r.0, record v { m_data = r.1 }))
        (remove_lem (v.m_data ++ (value ∷ [])) n
          ∙ rw (inside, take-append_length v.m_data (value ∷ []), gone)
              (ap (λ xs. (true, xs)) (append-nil v.m_data)))
