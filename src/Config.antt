-- ===== src/Config.antt =====
-- sparrow-broadcast-pool/src/config.rs: the modes of a broadcast.
pub mod Settings
pub mod Load
use umbrel_apps.Prelude.{
  String, [], ◌∷◌, ◌≡◌, refl, Result, ok, err, str_eq, to_lowercase, concat, if◌then◌else◌,
}

-- `manual` is scheduling by hand, for each transaction.
pub data BroadcastMode : Type 0 where
  immediate scheduled by_block manual : BroadcastMode

abbrev pub to_string : BroadcastMode → String
to_string immediate = "immediate"
to_string scheduled = "scheduled"
to_string by_block = "by_block"
to_string manual = "manual"

unfoldable pub mode_from_str : String → Result BroadcastMode
mode_from_str s =
    let lower = to_lowercase s in
    if str_eq lower "immediate"
    then ok immediate
    else if str_eq lower "scheduled"
    then ok scheduled
    else if str_eq lower "by_block"
    then ok by_block
    else if str_eq lower "manual"
    then ok manual
    else err (concat ("Unknown broadcast mode: " ∷ s ∷ []))

-- A mode that was printed is read back as itself.
pub mode_from_str-to_string : (m : BroadcastMode) → mode_from_str (to_string m) ≡ ok m
unfolding mode_from_str to_lowercase
mode_from_str-to_string immediate = refl
mode_from_str-to_string scheduled = refl
mode_from_str-to_string by_block = refl
mode_from_str-to_string manual = refl
