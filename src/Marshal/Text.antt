-- ===== src/Marshal/Text.antt =====
-- string_marshaller.go: keys and values as texts, which the program does not use.
use account_indexer.Common.{ℕ, zero, suc, Bytes, List, [], ◌∷◌, ◌++◌, map, Option}
use account_indexer.Common.Int.{ℤ}
use account_indexer.Common.Outcome.{Outcome, ok, panic, out_of_range, ◌>>=◌}
use account_indexer.Go.BigInt.{string, set_string}
use account_indexer.Go.Strings.{split, join, to_upper}
use account_indexer.DateTime.{ptr_string}
use account_indexer.Types.{AddressIndex, BlockIndex}
use account_indexer.Marshal.Batch.{block_number_wid_pad}

abbrev pub separator : ℕ
separator = b'_'

unfoldable pub marshall_block_db_value : BlockIndex → Bytes
marshall_block_db_value block_index =
    join separator (map (λ item. item.address) block_index.addresses)

unfoldable pub unmarshall_block_db_value : Bytes → List Bytes
unmarshall_block_db_value value = split separator value

unfoldable pub marshall_address_key_str : Bytes → Bytes → Bytes
marshall_address_key_str address block_number =
    to_upper (address ++ (separator ∷ block_number_wid_pad block_number))

unfoldable pub marshall_address_key : AddressIndex → Bytes
marshall_address_key index = marshall_address_key_str index.address []

unfoldable pub marshall_address_value : AddressIndex → Bytes
marshall_address_value index =
    index.tx_hash ++ (separator ∷ (string index.value ++ (separator ∷ ptr_string index.time)))

-- A text that is no number gives nil.
unfoldable pub string_to_big_int : Bytes → Option ℤ
string_to_big_int str = set_string str

-- valueArr[i]
unfoldable pub element : ℕ → List Bytes → Outcome Bytes
element i [] = panic out_of_range
element zero (w ∷ ws) = ok w
element (suc i) (w ∷ ws) = element i ws

unfoldable pub unmarshall_address_key : Bytes → Outcome (Bytes × Option ℤ)
unmarshall_address_key key = do
  let key_arr = split separator key
  block_number ← element 1 key_arr
  address ← element 0 key_arr
  ok (address, string_to_big_int block_number)

-- The fields that UnmarshallAddressValue sets.
pub record AddressValue : Type 0 where
  pub tx_hash : Bytes
  pub value : Option ℤ
  pub time : Option ℤ

unfoldable pub unmarshall_address_value : Bytes → Outcome AddressValue
unmarshall_address_value value = do
  let value_arr = split separator value
  tx_hash ← element 0 value_arr
  tx_value ← element 1 value_arr
  time ← element 2 value_arr
  ok (record {
    tx_hash = tx_hash;
    value = string_to_big_int tx_value;
    time = string_to_big_int time;
  })
