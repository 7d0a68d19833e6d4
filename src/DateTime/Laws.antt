-- ===== src/DateTime/Laws.antt =====
-- What the bytes of a time are.
use account_indexer.Common.{ℕ, ◌≤◌, ◌<◌, ◌^◌, Bytes, some, ◌≡◌, refl, sym, ◌∙◌, arith, length}
use account_indexer.Common.Int.{pos, abs, int64_small}
use account_indexer.Go.BigInt.{
  emit, nat_string, set_string, string, nat_bytes, to_bytes, set_string_or,
}
use account_indexer.Go.BigInt.RoundTrip.{
  set_string_or-string, length-nat_string-le, nat_bytes-be4, be4, set_bytes-nat_bytes,
}
use native.Mathlib.Nat.{add-zero}
use account_indexer.DateTime.{
  cut_time, ptr_string, marshall_time, marshall_time2, unmarshall_time_to_int, unmarshall_time,
  unmarshall_int_to_time,
}

-- The times whose bytes are four: from July 1970 to February 2106.
pub record InRange (t : ℕ) : Type 0 where
  pub above : 16777216 ≤ t
  pub below : t < 4294967296

cut_time-short : (s : Bytes) → length s ≤ 10 → cut_time s ≡ s
unfolding cut_time
cut_time-short s h = ground arith

length-string-le : (t : ℕ) → t < 10 ^ 10 → length (string (pos t)) ≤ 10
unfolding string
length-string-le t h = length-nat_string-le 9 t h

to_bytes-pos : (t : ℕ) → to_bytes (pos t) ≡ nat_bytes t
unfolding to_bytes abs
to_bytes-pos t = rw add-zero

-- The bytes of a time of at most ten digits are those of the number.
pub marshall_time-nat_bytes : (t : ℕ) → t < 10 ^ 10 → marshall_time (some (pos t)) ≡ nat_bytes t
marshall_time-nat_bytes t h =
    unfold marshall_time ptr_string in
    cc (
      cut_time-short (string (pos t)) (length-string-le t h),
      set_string_or-string (pos t),
      to_bytes-pos t,
    )

pub marshall_time-be4 : (t : ℕ) → InRange t → marshall_time (some (pos t)) ≡ be4 t
marshall_time-be4 t h = marshall_time-nat_bytes t (omega arith) ∙ nat_bytes-be4 t h.above h.below

pub marshall_time2-be4 :
    (t nsec : ℕ) → InRange t → marshall_time2 (record { unix = pos t; nsec = nsec }) ≡ be4 t
unfolding marshall_time2
marshall_time2-be4 t nsec h = to_bytes-pos t ∙ nat_bytes-be4 t h.above h.below

-- MarshallTime and MarshallTime2 give the same bytes for a time of at most ten decimal digits.
pub marshall_time-eq-marshall_time2 :
    (t nsec : ℕ)
    → t < 10 ^ 10
    → marshall_time (some (pos t)) ≡ marshall_time2 (record { unix = pos t; nsec = nsec })
unfolding marshall_time2
marshall_time-eq-marshall_time2 t nsec h = marshall_time-nat_bytes t h ∙ sym (to_bytes-pos t)

-- A time of at most ten decimal digits is read back from its bytes, as a number and as a time.
pub unmarshall_time-marshall_time :
    (t : ℕ)
    → t < 10 ^ 10
    → (unmarshall_time_to_int (marshall_time (some (pos t))) ≡ pos t)
      × (unmarshall_time (marshall_time (some (pos t))) ≡ record { unix = pos t; nsec = 0 })
unfolding unmarshall_time unmarshall_time_to_int unmarshall_int_to_time abs
unmarshall_time-marshall_time t h =
    rw (marshall_time-nat_bytes t h, set_bytes-nat_bytes)
      (refl, rw (add-zero, int64_small t (omega arith)))

-- The 13 digits of a time in milliseconds are cut to the ten of the seconds.
millis_cut : marshall_time (some (pos 1546522340000)) ≡ be4 1546522340
unfolding marshall_time ptr_string string nat_string emit cut_time set_string_or set_string to_bytes
    abs nat_bytes
millis_cut = refl
