-- ===== src/Plugins/Order.antt =====
-- The order in which src/TLuaEngine.cpp and src/TLuaPlugin.cpp take folders and files.
use beam_mp_server.Base.{Bool, true, false, List, [], ◌∷◌, ltb, ◌==◌, if◌then◌else◌}
use beam_mp_server.Base.Text.{Bytes}
use beam_mp_server.Console.{lower}

-- `<` of two strings.
unfoldable pub text_less : Bytes → Bytes → Bool
text_less s [] = false
text_less [] (d ∷ t) = true
text_less (c ∷ s) (d ∷ t) = let rest = text_less s t in if c == d then rest else ltb c d

module _ {ℓ} {A : Type ℓ} (path : A → Bytes) where
  abbrev pub is_before : A → A → Bool
  is_before a b = text_less (lower (path a)) (lower (path b))

  unfoldable pub place_path : A → List A → List A
  place_path a [] = a ∷ []
  place_path a (b ∷ bs) =
      let rest = place_path a bs in if is_before b a then b ∷ rest else a ∷ b ∷ bs

  -- `std::sort` without regard to upper and lower case.
  unfoldable pub sort_paths : List A → List A
  sort_paths [] = []
  sort_paths (a ∷ bs) = place_path a (sort_paths bs)
