-- ===== src/Ipc.antt =====
-- service/ipc_manager.go: which of the nodes is in use, and who is told when it changes.
pub mod Switch
use account_indexer.Common.{
  ℕ, zero, suc, ◌+◌, ◌%◌, ◌^◌, ◌-◌, Bytes, Bool, true, false, List, [], ◌∷◌, ◌++◌, map, length,
  Option, none, some, codes, ltb, leb, bytes_eq, if◌then◌else◌,
}
use account_indexer.Common.Int.{ℤ, pos, negsuc, ◌+ℤ◌, ltb_ℤ}
use account_indexer.Common.Assoc.{lookup, insert}
use account_indexer.Common.Outcome.{Error, Outcome, ok, panic, out_of_range, ◌>>=◌}

-- The counter is an int32.
unfoldable pub int32 : ℤ → ℤ
int32 a =
    let w : ℕ = elim a [ pos n ↦ n % 2 ^ 32 | negsuc n ↦ 2 ^ 32 - 1 - n % 2 ^ 32 ] in
    if ltb w (2 ^ 31) then pos w else negsuc (2 ^ 32 - 1 - w)

-- A subscriber is a pointer, and stands for itself as a number.
pub record IpcManager : Type 0 where
  pub subscribers : List ℕ
  pub ipc_list : List Bytes
  pub cur_ipc : Bytes
  pub switch_ipc_counter : ℤ

-- IpcUpdated is called on each of these subscribers with the new path.
abbrev pub Calls : Type 0
Calls = List (ℕ × Bytes)

-- A subscriber that is already there is logged, and appended all the same.
unfoldable pub subscribe : ℕ → IpcManager → IpcManager
subscribe sub im = record im { subscribers = im.subscribers ++ (sub ∷ []) }

-- tmp[ipc], which is blank for a missing key.
unfoldable pub at_path : Bytes → List (Bytes × Bytes) → Bytes
at_path ipc tmp = elim (lookup ipc tmp) [ none ↦ [] | some s ↦ s ]

-- The loop of SetIPC.
unfoldable pub check_ipcs : List (Bytes × Bytes) → List Bytes → Option Error
check_ipcs tmp [] = none
check_ipcs tmp (ipc ∷ ipcs) =
    let rest = check_ipcs (insert ipc ipc tmp) ipcs in
    if bytes_eq ipc []
    then some (codes "blank ipc")
    else if bytes_eq (at_path ipc tmp) []
    then rest
    else some (codes "duplicate IPC: " ++ ipc)

unfoldable pub set_ipc : List Bytes → IpcManager → Option Error × IpcManager
set_ipc [] im = (some (codes "no ipc specified"), im)
set_ipc (ipc ∷ ipcs) im = elim (check_ipcs [] (ipc ∷ ipcs)) [
  | some e ↦ (some e, im)
  | none ↦ (none, record im { ipc_list = ipc ∷ ipcs; cur_ipc = ipc })
]

-- The loop of NextIPC: the first place of the path, from place `i` on. It is 0 for no place.
unfoldable pub index_of : Bytes → ℕ → List Bytes → ℕ
index_of cur_ipc i [] = 0
index_of cur_ipc i (ipc ∷ ipcs) =
    let rest = index_of cur_ipc (i + 1) ipcs in if bytes_eq ipc cur_ipc then i else rest

unfoldable pub at_index : ℕ → List Bytes → Outcome Bytes
at_index i [] = panic out_of_range
at_index zero (x ∷ xs) = ok x
at_index (suc i) (x ∷ xs) = at_index i xs

-- The remainder by the length of an empty list is a panic.
unfoldable pub next_ipc : Bytes → List Bytes → Outcome Bytes
next_ipc cur_ipc [] = panic (codes "integer divide by zero")
next_ipc cur_ipc (ipc ∷ ipcs) =
    let ipc_list = ipc ∷ ipcs in
    at_index ((index_of cur_ipc 0 ipc_list + 1) % length ipc_list) ipc_list

-- The calls that are made are returned beside the state.
unfoldable pub change_ipc : IpcManager → Outcome (IpcManager × Calls)
change_ipc im =
    let counter = int32 (im.switch_ipc_counter +ℤ pos 1) in
    let counted = record im { switch_ipc_counter = counter } in
    if ltb_ℤ (pos 1) counter
    then ok (counted, [])
    else if leb (length im.ipc_list) 1
    then ok (counted, [])
    else do
      new_ipc ← next_ipc im.cur_ipc im.ipc_list
      ok (record counted { cur_ipc = new_ipc }, map (λ sub. (sub, new_ipc)) im.subscribers)

unfoldable pub force_change_ipc : IpcManager → Outcome (IpcManager × Calls)
force_change_ipc im =
    if leb (length im.ipc_list) 1
    then panic (codes "IpcManager: Cannot switch IPC")
    else change_ipc im

unfoldable pub enable_switch_ipc : IpcManager → IpcManager
enable_switch_ipc im = record im { switch_ipc_counter = pos 0 }
