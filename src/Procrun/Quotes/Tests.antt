-- ===== src/Procrun/Quotes/Tests.antt =====
-- Quotes on small inputs.
use boundary_event_sdk.Prelude.{◌≡◌, refl, codes}
use boundary_event_sdk.Procrun.Quotes.{char_remove, needs_quote, un_quote_inplace}

removed : un_quote_inplace (codes "\"ab\"c") ≡ (codes "abc", 2)
unfolding un_quote_inplace needs_quote char_remove
removed = refl

kept : un_quote_inplace (codes "\"a b\"") ≡ (codes "\"a b\"", 0)
unfolding un_quote_inplace needs_quote char_remove
kept = refl
