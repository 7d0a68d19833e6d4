-- ===== src/Tests/Paths.antt =====
-- Two and three nodes.
use account_indexer.Common.{Bytes, [], ◌∷◌, ◌++◌, map, codes, bytes_eq, ◌≡◌, refl}
use account_indexer.Common.Int.{pos}
use account_indexer.Common.Outcome.{ok}
use account_indexer.Ipc.{IpcManager, next_ipc, change_ipc, enable_switch_ipc}
use account_indexer.Ipc.Switch.{next_ipc-last, change_ipc_once}

abbrev node_a : Bytes
node_a = codes "/a/geth.ipc"

abbrev node_b : Bytes
node_b = codes "/b/geth.ipc"

abbrev node_c : Bytes
node_c = codes "/c/geth.ipc"

next_ipc-last_example : next_ipc node_c ((node_a ∷ (node_b ∷ [])) ++ (node_c ∷ [])) ≡ ok node_a
unfolding bytes_eq
next_ipc-last_example = next_ipc-last node_a (node_b ∷ []) node_c (refl, (refl, tt))

abbrev pub manager : IpcManager
manager = record {
  subscribers = 1 ∷ 2 ∷ [];
  ipc_list = node_a ∷ node_b ∷ node_c ∷ [];
  cur_ipc = node_b;
  switch_ipc_counter = pos 1;
}

change_ipc_once_example :
    let enabled = enable_switch_ipc manager in
    let moved = record manager { cur_ipc = node_c; switch_ipc_counter = pos 1 } in
    (change_ipc enabled ≡ ok (moved, map (λ sub. (sub, node_c)) (1 ∷ 2 ∷ [])))
    × (change_ipc moved ≡ ok (record moved { switch_ipc_counter = pos 2 }, []))
unfolding bytes_eq
change_ipc_once_example =
    change_ipc_once (node_a ∷ []) node_b node_c [] manager (refl, tt) refl refl
