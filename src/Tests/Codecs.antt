-- ===== src/Tests/Codecs.antt =====
-- Times, keys and values.
use account_indexer.Common.{
  ◌+◌, Bytes, [], ◌∷◌, map, none, some, replicate, length, ap, ◌≡◌, refl, arith,
}
use account_indexer.Common.Int.{pos, negsuc, abs}
use account_indexer.Common.Outcome.{ok, ◌>>=◌}
use account_indexer.Go.BigInt.{string}
use account_indexer.Types.{AddressIndex, BlockIndex}
use account_indexer.DateTime.{
  marshall_time, marshall_time2, unmarshall_time_to_int, unmarshall_time, ptr_string,
}
use account_indexer.DateTime.Laws.{unmarshall_time-marshall_time, marshall_time-eq-marshall_time2}
use account_indexer.Marshal.Address.{
  marshall_address_key_str, unmarshall_address_key, marshall_address_value,
  unmarshall_address_value,
}
use account_indexer.Marshal.Address.RoundTrip.{
  IsHash, canonical, unmarshall_address_key-marshall_address_key_str,
  unmarshall_address_value-marshall_address_value,
}
use account_indexer.Marshal.Block.{marshall_block_value, unmarshall_block_value}
use account_indexer.Marshal.Block.RoundTrip.{read_back, unmarshall_block_value-marshall_block_value}
use account_indexer.Marshal.Batch.{
  block_number_wid_pad, marshall_batch_key, unmarshall_batch_key, marshall_batch_value,
  unmarshall_batch_value,
}
use account_indexer.Marshal.Batch.RoundTrip.{
  pad_drops_ten_digits, unmarshall_batch_key-marshall_batch_key,
  unmarshall_batch_value-marshall_batch_value,
}
use account_indexer.Tests.Hex.{hex, hex-IsHex, encode}
use account_indexer.Tests.Blocks.{alice, bob, time, alice-IsAddress, bob-IsAddress, soon-InRange}

abbrev hash : Bytes
hash = encode (replicate 32 7)

hash-IsHash : IsHash hex hash
hash-IsHash = ap (λ r. length r.0) (hex-IsHex.decode-encode (replicate 32 7) (omega arith))

unmarshall_time-marshall_time_example :
    (unmarshall_time_to_int (marshall_time (some (pos 1546522340))) ≡ pos 1546522340)
    × (unmarshall_time (marshall_time (some (pos 1546522340)))
        ≡ record { unix = pos 1546522340; nsec = 0 })
unmarshall_time-marshall_time_example = unmarshall_time-marshall_time 1546522340 (omega arith)

marshall_time-eq-marshall_time2_example :
    marshall_time (some (pos 1546522340))
    ≡ marshall_time2 (record { unix = pos 1546522340; nsec = 5 })
marshall_time-eq-marshall_time2_example = marshall_time-eq-marshall_time2 1546522340 5 (omega arith)

unmarshall_address_key-marshall_address_key_str_example :
    unmarshall_address_key hex (marshall_address_key_str hex alice (some (pos (time + 3))) 2)
    ≡ ok (canonical hex alice, pos (time + 3))
unmarshall_address_key-marshall_address_key_str_example =
    unmarshall_address_key-marshall_address_key_str hex alice (time + 3) 2 alice-IsAddress
      (soon-InRange 3 (omega arith))

abbrev spent : AddressIndex
spent = record {
  address_sequence = record { address = alice; sequence = 1 };
  tx_hash = hash;
  value = negsuc 299;
  time = some (pos time);
  couple_address = bob;
}

unmarshall_address_value-marshall_address_value_example :
    unmarshall_address_value hex (marshall_address_value hex spent)
    ≡ ok (record {
      address_sequence = record { address = []; sequence = 0 };
      tx_hash = canonical hex hash;
      value = pos 300;
      time = none;
      couple_address = canonical hex bob;
    })
unfolding abs
unmarshall_address_value-marshall_address_value_example =
    unmarshall_address_value-marshall_address_value hex spent hash-IsHash bob-IsAddress

abbrev record_of_two : BlockIndex
record_of_two = record {
  block_number = string (pos 100);
  addresses =
      record { address = alice; sequence = 2 } ∷ record { address = bob; sequence = 1 } ∷ [];
  time = some (pos (time + 1));
  created_at = some (pos (time + 4));
}

unmarshall_block_value-marshall_block_value_example :
    (marshall_block_value hex record_of_two >>= unmarshall_block_value hex)
    ≡ ok (record record_of_two {
      block_number = [];
      addresses = map (read_back hex) record_of_two.addresses;
    })
unmarshall_block_value-marshall_block_value_example =
    unmarshall_block_value-marshall_block_value hex record_of_two (time + 4) (time + 1) refl refl
      (soon-InRange 4 (omega arith)) (soon-InRange 1 (omega arith))
      (alice-IsAddress, (bob-IsAddress, tt))

pad_drops_ten_digits_example : block_number_wid_pad (ptr_string (some (pos 1000000000))) ≡ []
pad_drops_ten_digits_example = pad_drops_ten_digits 1000000000 (omega arith)

unmarshall_batch_key-marshall_batch_key_example :
    unmarshall_batch_key
      (marshall_batch_key (some (pos 12)) (some (pos 6900000)) 2 (some (pos 1546522340)))
    ≡ ok (record {
      from = some (pos 12);
      to = some (pos 6900000);
      created_at = some (pos 1546522340);
      step = 2;
      current = none;
      updated_at = none;
    })
unmarshall_batch_key-marshall_batch_key_example =
    unmarshall_batch_key-marshall_batch_key 12 6900000 2 (pos 1546522340) (omega arith)
      (omega arith)

unmarshall_batch_value-marshall_batch_value_example :
    (marshall_batch_value (some (pos (time + 9))) (some (pos 4711)) >>= unmarshall_batch_value)
    ≡ ok (record {
      from = none;
      to = none;
      created_at = none;
      step = 0;
      current = some (pos 4711);
      updated_at = some (pos (time + 9));
    })
unmarshall_batch_value-marshall_batch_value_example =
    unmarshall_batch_value-marshall_batch_value (time + 9) 4711 (soon-InRange 9 (omega arith))
