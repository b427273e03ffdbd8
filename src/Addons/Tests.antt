-- ===== src/Addons/Tests.antt =====
-- Runs of the helpers on addon lists.
use multi_addon_rss.Addons.{split_at_commas, string_to_vector}
use multi_addon_rss.Base.{[], codes, refl, ◌∷◌, ◌≡◌}

string_to_vector_run : string_to_vector (codes "55,,77") ≡ codes "55" ∷ codes "77" ∷ []
unfolding string_to_vector split_at_commas
string_to_vector_run = refl
