-- ===== src/Marshal/Batch/RoundTrip.antt =====
-- What is read back from the records of the batch database.
use account_indexer.Common.{
  ℕ, ◌-◌, ◌^◌, ◌≤◌, ◌<◌, Bytes, [], ◌∷◌, ◌++◌, append_assoc, none, some, length, replicate,
  length-append, length-replicate, ◌≡◌, refl, arith,
}
use account_indexer.Common.Int.{ℤ, pos, abs-pos}
use account_indexer.Common.Outcome.{
  ok, slice_from, slice-append, index-append, slice-prefix, slice_from-append, slice_from-append2,
  ◌>>=◌, deref,
}
use account_indexer.Go.BigInt.{string, set_string_or, to_bytes, nat_string}
use account_indexer.Go.BigInt.RoundTrip.{
  be4, set_bytes-be4, set_string-padded, set_string_or-string, set_bytes-to_bytes,
  length-nat_string-le, lt-length-nat_string,
}
use account_indexer.DateTime.{ptr_string, unmarshall_time_to_int}
use account_indexer.DateTime.Laws.{InRange, marshall_time-be4}
use account_indexer.Marshal.Batch.{
  block_number_wid_pad, marshall_batch_key, unmarshall_batch_key, marshall_batch_value,
  unmarshall_batch_value,
}

padded :
    (n : ℕ)
    → n < 10 ^ 9
    → block_number_wid_pad (ptr_string (some (pos n)))
      ≡ replicate (10 - length (nat_string n)) b'0' ++ nat_string n
unfolding block_number_wid_pad ptr_string string
padded n h = ground (arith, length-nat_string-le 8 n h)

length-padded :
    (n : ℕ) → n < 10 ^ 9 → length (block_number_wid_pad (ptr_string (some (pos n)))) ≡ 10
length-padded n h = rw (padded n h) (
    omega (
      arith,
      length-append (replicate (10 - length (nat_string n)) b'0') (nat_string n),
      length-replicate {A = ℕ} (10 - length (nat_string n)) b'0',
      length-nat_string-le 8 n h,
    ))

read-padded :
    (n : ℕ) → n < 10 ^ 9 → set_string_or (block_number_wid_pad (ptr_string (some (pos n)))) ≡ pos n
unfolding set_string_or
read-padded n h =
    rw (padded n h) (rw (set_string-padded (10 - length (nat_string n)) n, set_string_or))

-- A block number of ten digits or more is written as no bytes at all.
pub pad_drops_ten_digits :
    (n : ℕ) → 10 ^ 9 ≤ n → block_number_wid_pad (ptr_string (some (pos n))) ≡ []
unfolding block_number_wid_pad ptr_string string
pad_drops_ten_digits n h = ground (arith, lt-length-nat_string 9 n (omega arith) h)

-- From, to, step and creation time of a batch are read back from its key, for block numbers of at
-- most nine digits.
pub unmarshall_batch_key-marshall_batch_key :
    (from to step : ℕ) (created_at : ℤ)
    → from < 10 ^ 9
    → to < 10 ^ 9
    → unmarshall_batch_key
        (marshall_batch_key (some (pos from)) (some (pos to)) step (some created_at))
      ≡ ok (record {
        from = some (pos from);
        to = some (pos to);
        created_at = some created_at;
        step = step;
        current = none;
        updated_at = none;
      })
unfolding unmarshall_batch_key marshall_batch_key
unmarshall_batch_key-marshall_batch_key from to step created_at hf ht =
    let f = block_number_wid_pad (ptr_string (some (pos from))) in
    let t = block_number_wid_pad (ptr_string (some (pos to))) in
    let c = ptr_string (some created_at) in
    rw (
      slice-prefix f (t ++ (step ∷ c)) {n = 10} (length-padded from hf),
      slice-append 10 f t (step ∷ c) {m = 20} (length-padded from hf)
          (omega (arith, length-padded to ht)),
      index-append f t c step {n = 20} (omega (arith, length-padded from hf, length-padded to ht)),
      created_at_rest f t c (length-padded from hf) (length-padded to ht),
      read-padded from hf,
      read-padded to ht,
      read_created_at,
    )
  where
    created_at_rest :
        (f t c : Bytes)
        → length f ≡ 10
        → length t ≡ 10
        → slice_from 21 (f ++ (t ++ (step ∷ c))) ≡ ok c
    created_at_rest f t c hf ht = rw (← append_assoc t (step ∷ []) c) (
        slice_from-append2 f (t ++ (step ∷ [])) c {n = 10} {m = 11} hf
          (omega (arith, length-append t (step ∷ []))))

    read_created_at : set_string_or (ptr_string (some created_at)) ≡ created_at
    read_created_at = unfold ptr_string in set_string_or-string created_at

-- Current block and update time of a batch are read back from its value, for an update time in the
-- range of four bytes.
pub unmarshall_batch_value-marshall_batch_value :
    (updated_at current : ℕ)
    → InRange updated_at
    → (marshall_batch_value (some (pos updated_at)) (some (pos current)) >>= unmarshall_batch_value)
      ≡ ok (record {
        from = none;
        to = none;
        created_at = none;
        step = 0;
        current = some (pos current);
        updated_at = some (pos updated_at);
      })
unfolding unmarshall_batch_value marshall_batch_value deref unmarshall_time_to_int
unmarshall_batch_value-marshall_batch_value updated_at current h = rw (
  marshall_time-be4 updated_at h,
  slice-prefix (be4 updated_at) (to_bytes (pos current)) refl,
  slice_from-append (be4 updated_at) (to_bytes (pos current)) refl,
  set_bytes-be4 updated_at,
  set_bytes-to_bytes (pos current),
  abs-pos current,
)
