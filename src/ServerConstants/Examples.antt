-- ===== src/ServerConstants/Examples.antt =====
-- Runs of the lookups, with a comparison that tells cases apart.
use text.Mathlib.Text.{◌==◌ as str_eq}
use text.Mathlib.TextEquality.{eq_iff}
use socket_cplus_plus.Prelude.{◌≡◌, refl, false, some}
use socket_cplus_plus.ServerConstants.{Stricmp, find_product_id, find_product_name, find_from}

instance abbrev exact : Stricmp
exact = record { equal = str_eq; equal_self = λ s. (eq_iff s s).1 refl }

smashup_found : find_product_id "smashup" ≡ 12
unfolding find_product_id find_from
smashup_found = refl

smashup_named : find_product_name false 12 ≡ some "smashup"
unfolding find_product_name
smashup_named = refl
