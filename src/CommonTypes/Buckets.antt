-- ===== src/CommonTypes/Buckets.antt =====
-- The buckets' round trips, and where they fail.
use socket_cplus_plus.Prelude.{
  subst, ℕ, ◌%◌, ◌^◌, ◌<◌, ◌≡◌, sym, ap, ap₂, ◌∙◌, some, List, [], ◌∷◌, ◌++◌, length, All, arith,
}
use socket_cplus_plus.Wire.{Cursor, emit, ◌>>◌, ◌>>=◌, pure}
use socket_cplus_plus.Wire.Append.{emit-append}
use socket_cplus_plus.Wire.Reads.{Reads, >>=-Reads, read_back}
use socket_cplus_plus.Serialize.{
  out_int, in_int, out_array, in_array, out_string, in_string, max_string,
}
use socket_cplus_plus.Serialize.Host.{ByteOrder, be_bytes}
use socket_cplus_plus.Serialize.Words.{int-writes, int-Reads}
use socket_cplus_plus.Serialize.Strings.{NoZero, string_wire, string-writes, string-Reads}
use socket_cplus_plus.Serialize.Arrays.{
  Sends, array_wire, array-writes, array-Reads, array_emits, >>=-pure-Reads,
}
use socket_cplus_plus.CommonTypes.{
  Text, int_count, StringBucket, string_bucket_out, string_bucket_in, data_bucket_out,
  data_bucket_in,
}

-- A text that the reader takes whole.
abbrev pub Plain : Text → Type 0
Plain s = (length s < max_string) × NoZero s

module _ ⦃net : ByteOrder⦄ where
  Plain-Sends : (vs : List Text) → All Plain vs → All (Sends out_string in_string string_wire) vs
  Plain-Sends [] h = tt
  Plain-Sends (s ∷ vs) ((fits, plain), hs) = (
    record { writes = string-writes s (omega arith); reads = string-Reads s fits plain },
    Plain-Sends vs hs,
  )

  counted_writes : (n : ℕ) → n < 2 ^ 31 → out_int (n % 2 ^ 32) ≡ emit (be_bytes 4 n)
  counted_writes n h =
      let whole : n % 2 ^ 32 ≡ n = omega arith in ap out_int whole ∙ int-writes n (omega arith)

  counted : (n : ℕ) → n < 2 ^ 31 → int_count n ≡ n
  counted n h = ground arith

  -- A bucket of fewer than 2^31 texts, each shorter than the reader's buffer and without zeros, is
  -- read back behind what the reading bucket holds already.
  pub string_bucket_in-string_bucket_out :
      (b old : StringBucket) (c d : Cursor)
      → length b.bucket < 2 ^ 31
      → All Plain b.bucket
      → string_bucket_out b c ≡ some d
      → string_bucket_in old d.bytes c.offset
        ≡ some (record { bucket = old.bucket ++ b.bucket }, d.offset)
  unfolding string_bucket_in string_bucket_out
  string_bucket_in-string_bucket_out b old c d few plain e =
      let n = length b.bucket in
      let sends = Plain-Sends b.bucket plain in
      read_back (string_bucket_out b) (string_bucket_in old)
        (be_bytes 4 n ++ array_wire out_string in_string string_wire b.bucket)
        (record { bucket = old.bucket ++ b.bucket })
        (ap (λ w. w >> out_array out_string b.bucket) (counted_writes n few)
          ∙ array-writes out_string in_string string_wire (be_bytes 4 n) b.bucket sends)
        (>>=-Reads in_int
          (λ m. do
            xs ← in_array in_string (int_count m)
            pure (record { bucket = old.bucket ++ xs }))
          (be_bytes 4 n) (array_wire out_string in_string string_wire b.bucket) n
          (record { bucket = old.bucket ++ b.bucket }) (int-Reads n (omega arith))
          (>>=-pure-Reads (in_array in_string (int_count n))
            (λ xs. record { bucket = old.bucket ++ xs })
            (array_wire out_string in_string string_wire b.bucket) b.bucket
            (subst
              (λ k.
                Reads (in_array in_string k) (array_wire out_string in_string string_wire b.bucket)
                  b.bucket)
              (sym (counted n few)) (array-Reads out_string in_string string_wire b.bucket sends))))
        e

  abbrev texts_wire : List Text → List ℕ
  texts_wire = array_wire out_string in_string string_wire

  abbrev RowSends : ℕ → List Text → Type 0
  RowSends k = Sends (out_array out_string) (in_array in_string k) texts_wire

  -- A row of `k` texts, at least one.
  abbrev pub PlainRow : ℕ → List Text → Type 0
  PlainRow k row = (length row ≡ k) × All Plain row

  row_sends : (k : ℕ) (row : List Text) → 0 < k → PlainRow k row → RowSends k row
  row_sends k [] h (e, plain) = absurd (omega arith)
  row_sends k (s ∷ row) h (e, plain) =
      let sends = Plain-Sends (s ∷ row) plain in
      record {
        writes = array_emits out_string in_string string_wire s row sends;
        reads =
            subst (λ n. Reads (in_array in_string n) (texts_wire (s ∷ row)) (s ∷ row)) e
              (array-Reads out_string in_string string_wire (s ∷ row) sends);
      }

  rows_send :
      (k : ℕ) (rows : List (List Text)) → 0 < k → All (PlainRow k) rows → All (RowSends k) rows
  rows_send k [] h plain = tt
  rows_send k (row ∷ rows) h (p, ps) = (row_sends k row h p, rows_send k rows h ps)

  abbrev rows_wire : ℕ → List (List Text) → List ℕ
  rows_wire k = array_wire (out_array out_string) (in_array in_string k) texts_wire

  table_Reads :
      (n k : ℕ) (bs : List ℕ) (rows : List (List Text))
      → n < 2 ^ 31
      → k < 2 ^ 31
      → Reads (in_array (in_array in_string k) n) bs rows
      → Reads data_bucket_in (be_bytes 4 n ++ (be_bytes 4 k ++ bs)) (record { bucket = rows })
  unfolding data_bucket_in
  table_Reads n k bs rows few narrow r =
      >>=-Reads in_int
        (λ i. do
          j ← in_int
          xs ← in_array (in_array in_string (int_count j)) (int_count i)
          pure (record { bucket = xs }))
        (be_bytes 4 n) (be_bytes 4 k ++ bs) n (record { bucket = rows }) (int-Reads n (omega arith))
        (>>=-Reads in_int
          (λ j. do
            xs ← in_array (in_array in_string (int_count j)) (int_count n)
            pure (record { bucket = xs }))
          (be_bytes 4 k) bs k (record { bucket = rows }) (int-Reads k (omega arith))
          (>>=-pure-Reads (in_array (in_array in_string (int_count k)) (int_count n))
            (λ xs. record { bucket = xs }) bs rows
            (subst (λ i. Reads (in_array (in_array in_string i) (int_count n)) bs rows)
              (sym (counted k narrow))
              (subst (λ i. Reads (in_array (in_array in_string k) i) bs rows) (sym (counted n few))
                r))))

  -- A bucket of fewer than 2^31 rows, each of the same number of texts, at least one and fewer than
  -- 2^31, that the reader takes whole, is read back as it was written.
  pub data_bucket_in-data_bucket_out :
      (row : List Text) (rows : List (List Text)) (c d : Cursor)
      → length (row ∷ rows) < 2 ^ 31
      → 0 < length row
      → length row < 2 ^ 31
      → All (PlainRow (length row)) (row ∷ rows)
      → data_bucket_out (record { bucket = row ∷ rows }) c ≡ some d
      → data_bucket_in d.bytes c.offset ≡ some (record { bucket = row ∷ rows }, d.offset)
  unfolding data_bucket_out
  data_bucket_in-data_bucket_out row rows c d few some_left narrow plain e =
      let n = length (row ∷ rows) in
      let k = length row in
      let sends = rows_send k (row ∷ rows) some_left plain in
      read_back
        (out_int (n % 2 ^ 32)
          >> out_int (k % 2 ^ 32)
          >> out_array (out_array out_string) (row ∷ rows))
        data_bucket_in (be_bytes 4 n ++ (be_bytes 4 k ++ rows_wire k (row ∷ rows)))
        (record { bucket = row ∷ rows })
        (ap₂ (λ a b. a >> b >> out_array (out_array out_string) (row ∷ rows)) (counted_writes n few)
            (counted_writes k narrow)
          ∙ ap (λ w. w >> out_array (out_array out_string) (row ∷ rows))
              (emit-append (be_bytes 4 n) (be_bytes 4 k))
          ∙ array-writes (out_array out_string) (in_array in_string k) texts_wire
              (be_bytes 4 n ++ be_bytes 4 k) (row ∷ rows) sends)
        (table_Reads n k (rows_wire k (row ∷ rows)) (row ∷ rows) few narrow
          (array-Reads (out_array out_string) (in_array in_string k) texts_wire (row ∷ rows) sends))
        e
