-- ===== src/Indexer/Start/Stops.antt =====
-- IpcUpdated closes no channel twice.
use account_indexer.Common.{
  ℕ, Bytes, Bool, true, false, List, Option, none, some, Option-cases, Sum-cases, ◌⊎◌, inl, inr,
  ◌≡◌, refl, ap,
}
use account_indexer.Common.Int.{ℤ}
use account_indexer.Common.Outcome.{Error, Outcome, ok, panic, diverges}
use account_indexer.Common.Action.{continue-pure}
use account_indexer.Geth.{Geth}
use account_indexer.Dao.{KeyValueDao}
use account_indexer.Fetcher.{EthClient, get_latest_block}
use account_indexer.Fetcher.Dial.{
  ChainFetch, Channel, nil_channel, open_channel, closed_channel, close, new_chain_fetch,
  open_headers, stop_headers,
}
use account_indexer.Indexer.Realtime.{Moments, realtime_index}
use account_indexer.Indexer.Restart.{get_batches}
use account_indexer.Indexer.Start.{
  IndexerState, index, ipc_updated, stop_realtime, stop_batches, on_databases, with_latest,
  with_fetcher, first_index, run_realtime, after_realtime,
}

-- A channel that has not been closed.
abbrev pub closable : Channel → Bool
closable nil_channel = true
closable open_channel = true
closable closed_channel = false

abbrev pub headers_closable : Option ChainFetch → Bool
headers_closable none = true
headers_closable (some fetcher) = closable fetcher.block_header_channel

-- A channel after close, where nil is left as it is.
abbrev pub closed : Channel → Channel
closed nil_channel = nil_channel
closed open_channel = closed_channel
closed closed_channel = closed_channel

abbrev pub closed_headers : Option ChainFetch → Option ChainFetch
closed_headers none = none
closed_headers (some fetcher) = some (record fetcher {
  block_header_channel = closed fetcher.block_header_channel;
  subscribed = false;
})

close-closable : (c : Channel) → closable c ≡ true → close c ≡ ok (closed c)
unfolding close
close-closable nil_channel h = refl
close-closable open_channel h = refl
close-closable closed_channel h = absurd (cc h)

module _ (g : Geth) (ad bd td : KeyValueDao) where
  -- Neither of the indexer's channels is closed.
  pub record IsReady (s : IndexerState g ad bd td) : Type 0 where
    pub stop_ready : closable s.stop_chan ≡ true
    pub headers_ready : headers_closable s.realtime_fetcher ≡ true

  kept-IsReady : {s s' : IndexerState g ad bd td} → s' ≡ s → IsReady s → IsReady s'
  kept-IsReady e h = rw e h

  with_latest-IsReady :
      (num_batch : ℕ) (now : ℤ) (r : (ℤ × Option Error) × Bool) (s : IndexerState g ad bd td)
      → IsReady s
      → IsReady (with_latest g ad bd td num_batch now r s).1
  unfolding with_latest on_databases
  with_latest-IsReady num_batch now ((n, some err), switched) s h = h
  with_latest-IsReady num_batch now ((n, none), switched) s h =
      kept-IsReady
        (continue-pure (get_batches g ad bd td num_batch now n s.databases).0 (λ b. (some b, false))
          _)
        (record { stop_ready = h.stop_ready; headers_ready = h.headers_ready })

  with_fetcher-IsReady :
      (num_batch : ℕ) (now : ℤ) (r : (Error ⊎ ChainFetch) × Bool) (s : IndexerState g ad bd td)
      → closable s.stop_chan ≡ true
      → ((cf : ChainFetch) → r.0 ≡ inr cf → closable cf.block_header_channel ≡ true)
      → IsReady (with_fetcher g ad bd td num_batch now r s).1
  unfolding with_fetcher
  with_fetcher-IsReady num_batch now (inl err, switched) s h k = record {
    stop_ready = h;
    headers_ready = refl;
  }
  with_fetcher-IsReady num_batch now (inr cf, switched) s h k =
      with_latest-IsReady num_batch now (get_latest_block cf.client) _
        (record { stop_ready = h; headers_ready = k cf refl })

  fresh_of :
      (made cf : ChainFetch)
      → closable made.block_header_channel ≡ true
      → (let r : Error ⊎ ChainFetch = inr made in r) ≡ inr cf
      → closable cf.block_header_channel ≡ true
  fresh_of made cf h e = cc

  fresh_channel :
      (dial : Bytes → Error ⊎ EthClient) (path : Bytes) (cf : ChainFetch)
      → (new_chain_fetch dial path).0 ≡ inr cf
      → closable cf.block_header_channel ≡ true
  unfolding new_chain_fetch
  fresh_channel dial path cf h = elim (Sum-cases (dial path)) [
    | inl (err, e) ↦ absurd (cc (rw (e, new_chain_fetch) at h))
    | inr (client, e) ↦ let k = rw (e, new_chain_fetch) at h in fresh_of _ cf refl k
  ]

  -- index leaves the channels open, whatever it starts from and however it ends.
  index-IsReady :
      (dial : Bytes → Error ⊎ EthClient) (sub num_batch : ℕ) (now : ℤ) (again : Bool)
      (s : IndexerState g ad bd td)
      → IsReady (index g ad bd td dial sub num_batch now again s).1
  unfolding index
  index-IsReady dial sub num_batch now again s =
      with_fetcher-IsReady num_batch now _ _ refl (fresh_channel dial _)

  -- What IpcUpdated has stopped as it calls index.
  abbrev pub stopped : IndexerState g ad bd td → IndexerState g ad bd td
  stopped s = record s {
    stop_chan = closed s.stop_chan;
    realtime_fetcher = closed_headers s.realtime_fetcher;
  }

  stop_realtime_ready :
      (fetcher : Option ChainFetch) (s : IndexerState g ad bd td)
      → s.realtime_fetcher ≡ fetcher
      → headers_closable fetcher ≡ true
      → stop_realtime g ad bd td s ≡ (ok tt, record s { realtime_fetcher = closed_headers fetcher })
  unfolding stop_realtime stop_headers
  stop_realtime_ready none s e h =
      rw (e, stop_realtime) (ap (λ f. (ok tt, record s { realtime_fetcher = f })) e)
  stop_realtime_ready (some fetcher) s e h =
      rw (e, stop_realtime) (rw (close-closable fetcher.block_header_channel h, stop_headers) refl)

  updated-IsReady :
      (dial : Bytes → Error ⊎ EthClient) (sub num_batch : ℕ) (now : ℤ) (s : IndexerState g ad bd td)
      → IsReady s
      → let r = ipc_updated g ad bd td dial sub num_batch now s in
        (r ≡ index g ad bd td dial sub num_batch now true (stopped s)) × IsReady r.1
  unfolding ipc_updated stop_batches
  updated-IsReady dial sub num_batch now s h =
      rw (stop_realtime_ready s.realtime_fetcher s refl h.headers_ready) (
        rw (close-closable s.stop_chan h.stop_ready, stop_batches)
          (refl, index-IsReady dial sub num_batch now true (stopped s)))

  opened : (fetcher : ChainFetch) → closable (open_headers fetcher).block_header_channel ≡ true
  unfolding open_headers
  opened fetcher = elim (Option-cases fetcher.client.subscribe_new_head) [
    | inl e ↦ rw (e, open_headers) refl
    | inr (err, e) ↦ rw (e, open_headers) refl
  ]

  kept_or_gone :
      (r : Outcome ℕ) (fetcher : ChainFetch)
      → headers_closable (after_realtime r (open_headers fetcher)) ≡ true
  unfolding after_realtime
  kept_or_gone (ok n) fetcher = refl
  kept_or_gone (panic e) fetcher = opened fetcher
  kept_or_gone diverges fetcher = opened fetcher

  realtime-IsReady :
      (w : Moments) (numbers : List ℤ) (fetcher : Option ChainFetch) (s : IndexerState g ad bd td)
      → IsReady s
      → IsReady (run_realtime g ad bd td w numbers fetcher s).1
  unfolding run_realtime
  realtime-IsReady w numbers none s h = h
  realtime-IsReady w numbers (some fetcher) s h = record {
    stop_ready = h.stop_ready;
    headers_ready =
        kept_or_gone (realtime_index g ad bd w fetcher.client numbers s.databases.index_repo).0
          fetcher;
  }

  -- The states that the indexer gets to: by its start, changes of the node, and runs of the real-time
  -- loop, one after another.
  pub data Reaches : IndexerState g ad bd td → Type 0 where
    at_start :
        (dial : Bytes → Error ⊎ EthClient) (sub num_batch : ℕ) (now : ℤ)
        (s : IndexerState g ad bd td)
        → Reaches (first_index g ad bd td dial sub num_batch now s).1
    after_change :
        (dial : Bytes → Error ⊎ EthClient) (sub num_batch : ℕ) (now : ℤ)
        (s : IndexerState g ad bd td)
        → Reaches s
        → Reaches (ipc_updated g ad bd td dial sub num_batch now s).1
    after_loop :
        (w : Moments) (numbers : List ℤ) (s : IndexerState g ad bd td)
        → Reaches s
        → Reaches (run_realtime g ad bd td w numbers s.realtime_fetcher s).1

  reached-IsReady : (s : IndexerState g ad bd td) → Reaches s → IsReady s
  unfolding first_index
  reached-IsReady s (at_start dial sub num_batch now before) =
      index-IsReady dial sub num_batch now false before
  reached-IsReady s (after_change dial sub num_batch now before h) =
      (updated-IsReady dial sub num_batch now before (reached-IsReady before h)).1
  reached-IsReady s (after_loop w numbers before h) =
      realtime-IsReady w numbers before.realtime_fetcher before (reached-IsReady before h)

  -- In every state that the indexer gets to, by its start, changes of the node and runs of the
  -- real-time loop, one after another, neither its stop channel nor the channel of its headers has been
  -- closed: IpcUpdated closes the two, which panics on a closed channel, and gets to index, and after
  -- it neither is closed again.
  pub ipc_updated-IsReady :
      (dial : Bytes → Error ⊎ EthClient) (sub num_batch : ℕ) (now : ℤ) (s : IndexerState g ad bd td)
      → Reaches s
      → let r = ipc_updated g ad bd td dial sub num_batch now s in
        IsReady s × (r ≡ index g ad bd td dial sub num_batch now true (stopped s)) × IsReady r.1
  ipc_updated-IsReady dial sub num_batch now s h =
      let ready = reached-IsReady s h in
      let (e, after) = updated-IsReady dial sub num_batch now s ready in (ready, e, after)
