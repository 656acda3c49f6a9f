-- ===== src/Examples/Logging.antt =====
-- One thread that logs one line.
use cc_common.Base.{ℕ, some, ◌≡◌, refl, true, List, [], ◌∷◌, some}
use cc_common.Logging.{error, info, severe, level_to_string, base_name, Settings, Request}

-- "a/b\c.cc".
base_name_c : base_name (97 ∷ 47 ∷ 98 ∷ 92 ∷ 99 ∷ 46 ∷ 99 ∷ 99 ∷ []) ≡ 99 ∷ 46 ∷ 99 ∷ 99 ∷ []
unfolding base_name
base_name_c = refl

level_to_string_severe : level_to_string severe true ≡ 83 ∷ []
unfolding level_to_string
level_to_string_severe = refl

abbrev kept_text : List ℕ → List ℕ
kept_text text = text

abbrev plain : Settings
plain = record { is_tty = true; min_level = info; ansi_colors = true }

-- "no" from line 7 of "a/b".
abbrev request : Request
request = record {
  level = error;
  file = 97 ∷ 47 ∷ 98 ∷ [];
  line = 7;
  format = 110 ∷ 111 ∷ [];
  head_goes = true;
  body_goes = true;
  feed_goes = true;
}
