-- ===== src/ElectrumServer/Client/Poll.antt =====
-- The answer to a wallet that polls a history, where transactions are pending for it.
use umbrel_apps.Prelude.{
  is_char_boundary, true, refl, String, Option, some, List, ◌∷◌, map, ◌≡◌, ap, ◌∙◌, ok,
}
use umbrel_apps.Prelude.Json.{Json, array, items_of}
use umbrel_apps.VirtualMempool.Inject.{pending_entry}
use umbrel_apps.Config.Settings.{NetworkType}
use umbrel_apps.ElectrumServer.Requests.{JsonRpcRequest, scripthash_from_params}
use umbrel_apps.ElectrumServer.Answers.{
  Outside, Connection, rpc_result, local_fast_response, build_scripthash_mempool_result,
}
use umbrel_apps.ElectrumServer.Client.{
  unless_cut, interested, pending_for, shown_or_rest, answer_history, handle_one_subrequest,
}

-- A poll of the history of a scripthash.
abbrev pub history_poll : Option String → Option Json → Json → JsonRpcRequest
history_poll version params id = record {
  jsonrpc = version;
  method = "blockchain.scripthash.get_history";
  params = params;
  id = id;
}

module _ (o : Outside) (network : NetworkType) (url : String) (version : Option String)
    (params : Option Json) (id : Json) (c : Connection) where
  pub handle_one_subrequest-history :
      (sh p : String) (ps : List String)
      → scripthash_from_params params ≡ some sh
      → is_char_boundary 16 sh ≡ true
      → pending_for o network url sh (interested o network url sh c) ≡ p ∷ ps
      → handle_one_subrequest o network url (history_poll version params id) c ≡ (
        interested o network url sh c,
        ok (rpc_result (array (items_of (map pending_entry (p ∷ ps)))) id),
      )
  unfolding handle_one_subrequest unless_cut local_fast_response build_scripthash_mempool_result
  handle_one_subrequest-history sh p ps e whole k =
      ap (λ s. answer_history o network url s (history_poll version params id) c) e
      ∙ ap
          (λ qs.
            shown_or_rest o network url sh qs (history_poll version params id)
              (interested o network url sh c))
          k
      ∙ rw whole refl
