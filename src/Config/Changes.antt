-- ===== src/Config/Changes.antt =====
-- What a section holds after its changes (src/config/configuration_manager.cpp).
use distributed_data_science.Prelude.{
  ◌≡◌, refl, Bool, true, false, String, List, [], ◌∷◌, arith, if◌then◌else◌, ◌=?◌, string_key, ◌∙◌,
  ap,
}
use distributed_data_science.Prelude.Maps.{lookup_or-insert, lookup_or-erase, has-insert, has-erase}
use distributed_data_science.Config.{
  ConfigValue, string, ConfigSection, set_value, get_value, has_value, remove_value, clear,
}

pub data Change (Int Double : Type 0) : Type 0 where
  sets : String → ConfigValue Int Double → Change Int Double
  removes : String → Change Int Double
  clears : Change Int Double

module _ {Int Double : Type 0} where
  unfoldable pub apply : Change Int Double → ConfigSection Int Double → ConfigSection Int Double
  unfolding set_value remove_value clear
  apply (sets key value) s = set_value key value s
  apply (removes key) s = remove_value key s
  apply clears s = clear s

  unfoldable pub apply_all :
      List (Change Int Double) → ConfigSection Int Double → ConfigSection Int Double
  unfolding apply
  apply_all [] s = s
  apply_all (c ∷ cs) s = apply_all cs (apply c s)

  -- What is promised of a key: whether it is there, and its value, from the last change of it.
  unfoldable pub follow :
      String → Change Int Double → Bool × ConfigValue Int Double → Bool × ConfigValue Int Double
  follow key (sets k value) x = if k =? key then (true, value) else x
  follow key (removes k) x = if k =? key then (false, string "") else x
  follow key clears x = (false, string "")

  unfoldable pub follow_all :
      String
      → List (Change Int Double)
      → Bool × ConfigValue Int Double
      → Bool × ConfigValue Int Double
  unfolding follow
  follow_all key [] x = x
  follow_all key (c ∷ cs) x = follow_all key cs (follow key c x)

  abbrev pub view : String → ConfigSection Int Double → Bool × ConfigValue Int Double
  view key s = (has_value key s, get_value key s)

  view-apply :
      (key : String) (c : Change Int Double) (s : ConfigSection Int Double)
      → view key (apply c s) ≡ follow key c (view key s)
  unfolding apply follow has_value get_value
  view-apply key (sets k value) s =
      ground
        (arith, has-insert k key value s.values, lookup_or-insert (string "") k key value s.values)
  view-apply key (removes k) s =
      ground (arith, has-erase k key s.values, lookup_or-erase (string "") k key s.values)
  view-apply key clears s = refl

  -- Whether a section has a key, and the value that it answers for it, follow from the last change of the
  -- key, whatever the changes of other keys: set, removed, or cleared with all the others.
  view-apply_all :
      (key : String) (cs : List (Change Int Double)) (s : ConfigSection Int Double)
      → view key (apply_all cs s) ≡ follow_all key cs (view key s)
  unfolding apply_all follow_all
  view-apply_all key [] s = refl
  view-apply_all key (c ∷ cs) s =
      view-apply_all key cs (apply c s) ∙ ap (follow_all key cs) (view-apply key c s)
