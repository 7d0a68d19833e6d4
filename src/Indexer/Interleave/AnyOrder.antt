-- ===== src/Indexer/Interleave/AnyOrder.antt =====
-- The order in which the goroutines of the batches come does not matter.
use mathlib.Core.List.{Permᴰ}
use mathlib.Core.List.Permᴰ
use account_indexer.Common.{ℕ, List, [], ◌∷◌, ◌++◌, All, ◌≡◌, ◌≢◌, refl, sym, ap, ◌∙◌}
use account_indexer.Common.Perms.{All-perm, Pairwise, Pairwise-perm}
use account_indexer.Geth.{Geth}
use account_indexer.Dao.{KeyValue}
use account_indexer.Dao.Order.{lookup_key, upsert_all}
use account_indexer.Dao.Apart.{Same, upsert_all-Same, upsert_all-Apart}
use account_indexer.Indexer.Process.Reorg.{IsIndexable, records}
use account_indexer.Indexer.Interleave.{
  Takes, Takes.this, Takes.other, in_turn, Interleaves, Interleaves.ended, Interleaves.takes, Job,
}
use account_indexer.Indexer.Interleave.Times.{times-Apart}

Takes-perm :
    (gs gs' : List (List Job)) (b : Job) → Takes gs b gs' → Permᴰ (in_turn gs) (b ∷ in_turn gs')
Takes-perm gs gs' b (this _ bs rest) = Permᴰ.refl (b ∷ bs ++ in_turn rest)
Takes-perm gs gs' b (other g _ rest rest' t) =
    Permᴰ.trans (Permᴰ.append_left g (Takes-perm rest rest' b t)) (Permᴰ.middle b g (in_turn rest'))

pub Interleaves-perm :
    (gs : List (List Job)) (bs : List Job) → Interleaves gs bs → Permᴰ (in_turn gs) bs
Interleaves-perm gs bs (ended _ e) = rw e Permᴰ.nil
Interleaves-perm gs bs (takes _ gs' b rest t i) =
    Permᴰ.trans (Takes-perm gs gs' b t) (Permᴰ.cons refl (Interleaves-perm gs' rest i))

module _ (g : Geth) where
  -- The records of the calls' blocks, each written over the ones before.
  abbrev pub written : List Job → List KeyValue → List KeyValue
  written [] m = m
  written (b ∷ bs) m = written bs (upsert_all (records g b.block) m)

  -- A call with a block that the databases can hold.
  abbrev pub IsTimely : Job → Type 0
  IsTimely b = (t : ℕ) × IsIndexable g b.block t

  written-Same :
      (bs : List Job) (m m' : List KeyValue) → Same m m' → Same (written bs m) (written bs m')
  written-Same [] m m' h = h
  written-Same (b ∷ bs) m m' h = written-Same bs _ _ (upsert_all-Same (records g b.block) m m' h)

  -- Calls with blocks of different times and numbers.
  abbrev pub Differ : Job → Job → Type 0
  Differ b b' = (b.block.time ≢ b'.block.time) × (b.block.block_number ≢ b'.block.block_number)

  pub Differ-sym : (b b' : Job) → Differ b b' → Differ b' b
  Differ-sym b b' (t, n) = (λ e. t (sym e), λ e. n (sym e))

  pub written-perm :
      (bs bs' : List Job) (m : List KeyValue)
      → Permᴰ bs bs'
      → All IsTimely bs'
      → Pairwise Differ bs'
      → Same (written bs m) (written bs' m)
  written-perm bs bs' m Permᴰ.nil h d = λ k. refl
  written-perm bs bs' m (Permᴰ.cons {a} {b} {l₁} {l₂} e p) (hb, h) (db, d) =
      let moved : written l₁ (upsert_all (records g a.block) m)
          ≡ written l₁ (upsert_all (records g b.block) m) =
        ap (λ x. written l₁ (upsert_all (records g x.block) m)) e in
      λ k. ap (lookup_key k) moved ∙ written-perm l₁ l₂ _ p h d k
  written-perm bs bs' m (Permᴰ.swap {a} {b} {a'} {b'} {l} e f) ((ta, ha), ((tb, hb), h))
        ((dab, da), (db, d)) =
      let apart = times-Apart g b'.block a'.block tb ta hb ha (Differ-sym a' b' dab).0 in
      rw (e, f)
        (written-Same l _ _ (upsert_all-Apart (records g b'.block) (records g a'.block) m apart))
  written-perm bs bs' m (Permᴰ.trans {l₂ = mid} p q) h d =
      let first =
        written-perm bs mid m p (All-perm IsTimely q h) (Pairwise-perm Differ Differ-sym q d) in
      let second = written-perm mid bs' m q h d in λ k. first k ∙ second k
