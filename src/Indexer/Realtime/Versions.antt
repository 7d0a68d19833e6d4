-- ===== src/Indexer/Realtime/Versions.antt =====
-- The databases after blocks that have come in several versions.
use account_indexer.Common.{
  ℕ, Bytes, false, List, [], ◌∷◌, Option, none, some, bytes_eq, bytes_eq→eq, bytes_eq_refl,
  Bool-cases, inl, inr, All, ◌≡◌, sym, ap, ◌∙◌,
}
use mathlib.Core.Option.{some-injective}
use account_indexer.Geth.{Geth, IsHex}
use account_indexer.Types.{BlockDetail}
use account_indexer.DateTime.Laws.{InRange}
use account_indexer.Dao.{KeyValue, KeyValueDao}
use account_indexer.Dao.Order.{lookup_key, upsert_all, last_value, or_else, lookup_key-upsert_all}
use account_indexer.Dao.Apart.{Same}
use account_indexer.Dao.Contract.{View, IsKeyValueDao}
use account_indexer.Repo.Store.{IndexRepo}
use account_indexer.Repo.Store.Effect.{NeverFails}
use account_indexer.Indexer.Data.{SequenceMap}
use account_indexer.Indexer.Process.Reorg.{IsIndexable, records}
use account_indexer.Indexer.Process.Forgets.{IsOrder, block_value}
use account_indexer.Indexer.Realtime.Latest.{key, others, current, Unique}
use account_indexer.Indexer.Interleave.Times.{stamp, stamped}

-- The address records of blocks, those of the first block written last.
abbrev pub written_over : Geth → List BlockDetail → List KeyValue → List KeyValue
written_over g [] m = m
written_over g (v ∷ vs) m = upsert_all (records g v) (written_over g vs m)

module _ (g : Geth) where
  pub none_written :
      (k : Bytes) (vs : List BlockDetail) (m : List KeyValue)
      → All (λ v. last_value k (records g v) ≡ none) vs
      → lookup_key k m ≡ none
      → lookup_key k (written_over g vs m) ≡ none
  none_written k [] m h e = e
  none_written k (v ∷ vs) m (hv, h) e =
      lookup_key-upsert_all k (records g v) (written_over g vs m)
      ∙ ap (λ o. or_else o (lookup_key k (written_over g vs m))) hv
      ∙ none_written k vs m h e

  -- A version without a record under a key can be left out.
  pub left_out :
      (k n : Bytes) (vs : List BlockDetail) (b : BlockDetail) (m : List KeyValue)
      → current n vs ≡ some b
      → Unique vs
      → last_value k (records g b) ≡ none
      → lookup_key k (written_over g vs m) ≡ lookup_key k (written_over g (others n vs) m)
  unfolding others current
  left_out k n [] b m c u e = cc
  left_out k n (v ∷ vs) b m c (uv, u) e = elim (Bool-cases (bytes_eq (key v) n)) [
    | inl t ↦
        let silent : last_value k (records g v) ≡ none =
          ap (λ x. last_value k (records g x)) (some-injective v b (rw (t, current) at c)) ∙ e in
        let kept : others n vs ≡ vs = ap (λ x. others x vs) (sym (bytes_eq→eq (key v) n t)) ∙ uv in
        rw (t, others)
          (lookup_key-upsert_all k (records g v) (written_over g vs m)
            ∙ ap (λ o. or_else o (lookup_key k (written_over g vs m))) silent
            ∙ ap (λ x. lookup_key k (written_over g x m)) (sym kept))
    | inr t ↦
        rw (t, others)
          (lookup_key-upsert_all k (records g v) (written_over g vs m)
            ∙ ap (or_else (last_value k (records g v)))
                (left_out k n vs b m (rw (t, current) at c) u e)
            ∙ sym (lookup_key-upsert_all k (records g v) (written_over g (others n vs) m)))
  ]

module _ (g : Geth) (hex : IsHex g) (ad bd : KeyValueDao) (va : View ad) (vb : View bd)
    (ha : IsKeyValueDao ad va) (hb : IsKeyValueDao bd vb) (fa : NeverFails ad) (fb : NeverFails bd)
    (number_at : ℕ → Bytes) (before : IndexRepo g ad bd) where
  abbrev pub addresses_before : List KeyValue
  addresses_before = va.contents before.address_db

  -- A block that the databases can hold. Its time tells its number, and before it comes no record has
  -- its time, and its number is not known.
  pub record IsOnChain (b : BlockDetail) : Type 0 where
    pub time_of : ℕ
    pub indexable : IsIndexable g b time_of
    pub numbered : number_at time_of ≡ key b
    pub fresh : (k : Bytes) → stamp g k ≡ time_of → lookup_key k addresses_before ≡ none
    pub unknown : lookup_key (key b) (vb.contents before.block_db) ≡ none

  -- What the block database has under a key.
  abbrev pub Stored : Bytes → Option BlockDetail → List KeyValue → Type 0
  Stored n none db = lookup_key n db ≡ lookup_key n (vb.contents before.block_db)
  Stored n (some b) db =
      (h : IsOnChain b) × (c : ℕ) × (order : SequenceMap → SequenceMap) × InRange c
      × IsOrder order
      × (lookup_key n db ≡ some (block_value g h.time_of c order b))

  pub stored_same :
      (n : Bytes) (o : Option BlockDetail) (db db' : List KeyValue)
      → lookup_key n db' ≡ lookup_key n db
      → Stored n o db
      → Stored n o db'
  stored_same n none db db' e h = e ∙ h
  stored_same n (some b) db db' e (h, c, order, hr, p, s) = (h, c, order, hr, p, e ∙ s)

  -- The databases, after the versions `vs` are the last ones.
  pub record Holds (vs : List BlockDetail) (repo : IndexRepo g ad bd) : Type 0 where
    pub addresses : Same (va.contents repo.address_db) (written_over g vs addresses_before)
    pub blocks : (n : Bytes) → Stored n (current n vs) (vb.contents repo.block_db)
    pub chain : All IsOnChain vs
    pub unique : Unique vs

  pub silent :
      (k n : Bytes) (b v : BlockDetail) (hb' : IsOnChain b) (hv : IsOnChain v)
      → key b ≡ n
      → bytes_eq (key v) n ≡ false
      → stamp g k ≡ hb'.time_of
      → last_value k (records g v) ≡ none
  silent k n b v hb' hv e f s = stamped g v hv.time_of k hv.indexable (λ t.
      let named : key v ≡ n = sym hv.numbered ∙ ap number_at (sym t ∙ s) ∙ hb'.numbered ∙ e in
      cc (bytes_eq_refl n, ap (λ x. bytes_eq x n) named, f))
