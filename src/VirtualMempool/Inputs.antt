-- ===== src/VirtualMempool/Inputs.antt =====
-- sparrow-broadcast-pool/src/pool/virtual_mempool.rs: the scripthashes that a transaction's inputs
-- spend from. `ask` is the request to the indexer at an address, with its raw answer.
use umbrel_apps.Prelude.{
  ℕ, String, Option, none, some, not, ◌&&◌, List, [], ◌∷◌, ◌++◌, map, Result, ok, err, context,
  ◌>>=◌, get_or, or_else, is_empty, if◌then◌else◌, strip_prefix, take,
}
use umbrel_apps.Prelude.Json.{get, as_str}
use umbrel_apps.VirtualMempool.Txid.{Hex, alternate_txid_format}
use umbrel_apps.Pool.Manager.{mentions, merge_scripthashes}
use umbrel_apps.ElectrumServer.Requests.{SerdeJson, ◌>>?◌}
use umbrel_apps.ElectrumServer.Lines.{at}
use umbrel_apps.ElectrumServer.Ingest.{Bitcoin, Transaction, TxIn, TxOut, decode_tx}

-- The indexer and the crates that read its answer.
pub record Chain : Type 0 where
  pub bitcoin : Bitcoin
  pub serde : SerdeJson
  pub ask : String → String → Result String

unfoldable pub strip_indexer_host : String → String
strip_indexer_host url =
    get_or (or_else (strip_prefix "tcp://" url) (strip_prefix "ssl://" url)) url

abbrev pub output_scripthashes : Bitcoin → Transaction → List String
output_scripthashes bt tx = map (λ (o : TxOut). bt.compute_scripthash o.script_pubkey) tx.output

module _ (n : Chain) where
  unfoldable pub fetch_prev_tx : String → String → Result Transaction
  unfolding strip_indexer_host
  fetch_prev_tx txid addr = n.ask (strip_indexer_host addr) txid >>= λ resp_str.
      context (n.serde.from_str resp_str) "Failed to parse indexer response" >>= λ resp.
      context (get "result" resp >>? as_str) "No result in indexer response" >>= λ hex_str.
      context (n.bitcoin.hex_decode hex_str) "Invalid tx hex from indexer" >>= λ raw.
      context (n.bitcoin.consensus_decode raw) "Failed to decode prev tx from indexer"

  -- What the spent output pays to, where the transaction has that output.
  abbrev pub spent_scripthash : Transaction → ℕ → Option String
  spent_scripthash prev_tx vout = elim (at vout prev_tx.output) [
    | none ↦ none
    | some o ↦ some (n.bitcoin.compute_scripthash o.script_pubkey)
  ]

  abbrev pub fetched_scripthash : String → TxIn → Option String
  fetched_scripthash addr i = elim (fetch_prev_tx i.previous_txid addr) [
    | err e ↦ none
    | ok prev_tx ↦ spent_scripthash prev_tx i.vout
  ]

  abbrev pub add_some : Option String → List String → List String
  add_some none shs = shs
  add_some (some sh) shs = merge_scripthashes shs (sh ∷ [])

  unfoldable pub add_fetched : String → List TxIn → List String → List String
  unfolding fetch_prev_tx
  add_fetched addr [] shs = shs
  add_fetched addr (i ∷ is) shs = add_fetched addr is (add_some (fetched_scripthash addr i) shs)

  -- `extract_affected_scripthashes_opts(.., false)`; the order stands for that of the set.
  unfoldable pub extract_affected_scripthashes : String → String → Result (List String)
  unfolding add_fetched
  extract_affected_scripthashes tx_hex addr = decode_tx n.bitcoin tx_hex >>= λ tx.
      ok (add_fetched addr tx.input (merge_scripthashes [] (output_scripthashes n.bitcoin tx)))

  module _ (hex : Hex) (lookup : String → Option String) where
    unfoldable pub lookup_prev_tx_hex : String → Option String
    lookup_prev_tx_hex txid = or_else (lookup txid) (alternate_txid_format hex txid >>? lookup)

    abbrev pub tx_or : Result Transaction → Option Transaction → Option Transaction
    tx_or (ok tx) otherwise = some tx
    tx_or (err e) otherwise = otherwise

    abbrev pub decoded_or : Option String → Option Transaction → Option Transaction
    decoded_or none otherwise = otherwise
    decoded_or (some tx_hex) otherwise = tx_or (decode_tx n.bitcoin tx_hex) otherwise

    -- From the pool, or from the indexer.
    unfoldable pub resolve_prev_tx : String → String → Option Transaction
    unfolding lookup_prev_tx_hex fetch_prev_tx
    resolve_prev_tx prev_txid addr =
        decoded_or (lookup_prev_tx_hex prev_txid)
          (if is_empty addr then none else tx_or (fetch_prev_tx prev_txid addr) none)

    abbrev pub resolved_scripthash : String → TxIn → Option String
    resolved_scripthash addr i =
        resolve_prev_tx i.previous_txid addr >>? λ prev_tx. spent_scripthash prev_tx i.vout

    abbrev pub push_new : List String → Option String → List String → List String
    push_new output_sh none input_sh = input_sh
    push_new output_sh (some sh) input_sh =
        if not (mentions output_sh sh) && not (mentions input_sh sh)
        then input_sh ++ (sh ∷ [])
        else input_sh

    unfoldable pub push_inputs : String → List String → List TxIn → List String → List String
    unfolding resolve_prev_tx
    push_inputs addr output_sh [] input_sh = input_sh
    push_inputs addr output_sh (i ∷ is) input_sh =
        push_inputs addr output_sh is (push_new output_sh (resolved_scripthash addr i) input_sh)

    -- Input scripthashes only. `budget` is the number of inputs that are looked at in time.
    unfoldable pub enrich_input_scripthashes : String → String → ℕ → Result (List String)
    unfolding push_inputs
    enrich_input_scripthashes tx_hex addr budget = decode_tx n.bitcoin tx_hex >>= λ tx.
        ok (push_inputs addr (output_scripthashes n.bitcoin tx) (take budget tx.input) [])
