-- ===== src/Ipc/Switch.antt =====
-- What a change of the node does.
use account_indexer.Common.{
  ℕ, zero, suc, ◌+◌, ◌%◌, ◌<◌, Bytes, false, List, [], ◌∷◌, ◌++◌, map, length, length-append, leb,
  bytes_eq, bytes_eq_refl, All, ◌≡◌, refl, sym, append_assoc, ap, ◌∙◌, arith,
}
use account_indexer.Common.Int.{pos, ◌+ℤ◌}
use account_indexer.Common.Outcome.{ok}
use native.Mathlib.Nat.{mod-eq_of_lt, mod_self}
use account_indexer.Ipc.{
  IpcManager, int32, index_of, at_index, next_ipc, change_ipc, enable_switch_ipc,
}

-- A path that is not among these.
abbrev pub IsNew : Bytes → List Bytes → Type 0
IsNew ipc = All (λ other. bytes_eq other ipc ≡ false)

index_of-append :
    (cur : Bytes) (i : ℕ) (xs ys : List Bytes)
    → IsNew cur xs
    → index_of cur i (xs ++ (cur ∷ ys)) ≡ i + length xs
unfolding index_of
index_of-append cur i [] ys h = rw (bytes_eq_refl cur) (omega arith)
index_of-append cur i (x ∷ xs) ys (hx, h) =
    rw (hx, index_of-append cur (i + 1) xs ys h) (omega arith)

at_index-append :
    (xs : List Bytes) (n : ℕ) (y : Bytes) (ys : List Bytes)
    → n ≡ length xs
    → at_index n (xs ++ (y ∷ ys)) ≡ ok y
unfolding at_index
at_index-append [] zero y ys e = refl
at_index-append [] (suc n) y ys e = absurd (omega (arith, e))
at_index-append (x ∷ xs) zero y ys e = absurd (omega (arith, e))
at_index-append (x ∷ xs) (suc n) y ys e = at_index-append xs n y ys (omega (arith, e))

next_ipc-index :
    (cur : Bytes) (ipcs : List Bytes) (n : ℕ)
    → 0 < length ipcs
    → n ≡ (index_of cur 0 ipcs + 1) % length ipcs
    → next_ipc cur ipcs ≡ at_index n ipcs
unfolding next_ipc
next_ipc-index cur [] n h e = absurd (omega (arith, h))
next_ipc-index cur (ipc ∷ ipcs) n h e = ap (λ m. at_index m (ipc ∷ ipcs)) (sym e)

-- The path after the one in use.
next_ipc-middle :
    (xs : List Bytes) (cur y : Bytes) (ys : List Bytes)
    → IsNew cur xs
    → next_ipc cur (xs ++ (cur ∷ (y ∷ ys))) ≡ ok y
next_ipc-middle xs cur y ys h =
    let n = length xs in
    let ipcs = xs ++ (cur ∷ (y ∷ ys)) in
    let place = index_of-append cur 0 xs (y ∷ ys) h in
    let total = length-append xs (cur ∷ (y ∷ ys)) in
    next_ipc-index cur ipcs (n + 1) (omega (arith, total)) (
      sym (mod-eq_of_lt (omega (arith, total, place)))
      ∙ ap (λ k. k % length ipcs) (omega (arith, place)))
    ∙ ap (at_index (n + 1)) (sym (append_assoc xs (cur ∷ []) (y ∷ ys)))
    ∙ at_index-append (xs ++ (cur ∷ [])) (n + 1) y ys (omega (arith, length-append xs (cur ∷ [])))

-- NextIPC goes round: after the last path of a list comes the first one, where the last stands
-- nowhere else in the list.
pub next_ipc-last :
    (x : Bytes) (xs : List Bytes) (cur : Bytes)
    → IsNew cur (x ∷ xs)
    → next_ipc cur ((x ∷ xs) ++ (cur ∷ [])) ≡ ok x
unfolding at_index
next_ipc-last x xs cur h =
    let ipcs = (x ∷ xs) ++ (cur ∷ []) in
    let place = index_of-append cur 0 (x ∷ xs) [] h in
    let total = length-append (x ∷ xs) (cur ∷ []) in
    next_ipc-index cur ipcs 0 (omega (arith, total))
      (sym (mod_self (length ipcs)) ∙ ap (λ k. k % length ipcs) (omega (arith, place, total)))

-- Where switching is enabled and another path follows the one in use: ChangeIPC moves to that path
-- and calls every subscriber with it, in the order of their subscriptions; called again before
-- switching is enabled, it changes no path and calls nobody.
pub change_ipc_once :
    (xs : List Bytes) (cur y : Bytes) (ys : List Bytes) (im : IpcManager)
    → IsNew cur xs
    → im.ipc_list ≡ xs ++ (cur ∷ (y ∷ ys))
    → im.cur_ipc ≡ cur
    → let enabled = enable_switch_ipc im in
      let moved = record im { cur_ipc = y; switch_ipc_counter = pos 1 } in
      (change_ipc enabled ≡ ok (moved, map (λ sub. (sub, y)) im.subscribers))
      × (change_ipc moved ≡ ok (record moved { switch_ipc_counter = pos 2 }, []))
unfolding change_ipc enable_switch_ipc int32 ◌+ℤ◌
change_ipc_once xs cur y ys im h el ec =
    (rw (several, ec, el, next_ipc-middle xs cur y ys h) refl, refl)
  where
    several : leb (length im.ipc_list) 1 ≡ false
    several = ground (arith, ap length el, length-append xs (cur ∷ (y ∷ ys)))
