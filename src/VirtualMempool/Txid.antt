-- ===== src/VirtualMempool/Txid.antt =====
-- virtual_mempool.rs: the two byte orders of a txid.
use mathlib.Core.List.{reverse}
use umbrel_apps.Prelude.{ℕ, String, Option, none, some, List, length, ◌==◌, if◌then◌else◌, trim}

-- The crate `hex`, as far as the code calls it.
pub record Hex : Type 0 where
  pub decode : String → Option (List ℕ)
  pub encode : List ℕ → String

-- Alternate txid representation (toggle byte order) for lookup fallbacks.
unfoldable pub alternate_txid_format : Hex → String → Option String
alternate_txid_format hex txid = elim (hex.decode (trim txid)) [
  | none ↦ none
  | some bytes ↦ if length bytes == 32 then some (hex.encode (reverse bytes)) else none
]
