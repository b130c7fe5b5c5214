-- ===== src/Procrun/Browse/Tests.antt =====
-- Listings of small registries.
use boundary_event_sdk.Prelude.{
  suc, ◌≡◌, refl, Bool, true, false, none, some, List, [], ◌∷◌, Bytes, codes, length, get_elem?,
  ◌==◌,
}
use boundary_event_sdk.Procrun.Browse.{
  Service, Root, Patterns, browse, selected, narrow, is_win32, matches,
}
use boundary_event_sdk.Procrun.Browse.Listed.{Chosen, listing, at_index, browse-listed}

abbrev text : Bytes → Bytes
text [] = 0 ∷ []
text (c ∷ s) = c ∷ text s

abbrev tomcat : Service
tomcat = record {
  name = text (codes "Tomcat");
  key_opens = true;
  config = some (record { queried = true; type = 272; image = text (codes "t.exe") });
}

abbrev driver : Service
driver = record {
  name = text (codes "Disk");
  key_opens = true;
  config = some (record { queried = true; type = 1; image = text (codes "d.sys") });
}

abbrev gone : Service
gone = record { name = text (codes "Gone"); key_opens = true; config = none }

abbrev small : List Service
small = driver ∷ tomcat ∷ gone ∷ tomcat ∷ []

abbrev registry : Root
registry = record { opens = true; info = some (4, 6); enum_key = λ j. get_elem? small j }

abbrev is_tomcat : Service → Bool
is_tomcat s = elim (s.config) [ none ↦ false | some c ↦ c.type == 272 ]

abbrev any_name : Patterns
any_name = record {
  include_name = some (text (codes "T*"));
  include_image = none;
  exclude_name = none;
  exclude_image = none;
}

abbrev no_images : Patterns
no_images = record any_name { exclude_image = some (text (codes "t.exe")) }

abbrev buffer : Bytes
buffer = 1 ∷ 1 ∷ 1 ∷ 1 ∷ 1 ∷ 1 ∷ 1 ∷ 1 ∷ []

shown_twice :
    browse (λ c. c) buffer any_name (λ s n. true) registry 5
    ≡ some ((0, tomcat) ∷ (1, tomcat) ∷ [], at_index false 4 4)
unfolding browse
shown_twice = refl

small-Chosen : Chosen (matches (λ c. c) buffer) any_name is_tomcat small
unfolding selected narrow is_win32 matches
small-Chosen = (refl, refl, (refl, refl, (refl, refl, (refl, refl, tt))))

browse-listed_example :
    browse (λ c. c) buffer any_name (λ s n. true) registry (suc (length small))
    ≡ some (listing is_tomcat 6 small)
browse-listed_example =
    browse-listed (λ c. c) buffer any_name (λ s n. true) registry is_tomcat small 6 (λ s n. refl)
      refl refl (λ j. refl) small-Chosen

-- A pattern for the images to leave out is compared with the names.
images_not_excluded :
    browse (λ c. c) buffer no_images (λ s n. true) registry 5
    ≡ some ((0, tomcat) ∷ (1, tomcat) ∷ [], at_index false 4 4)
unfolding browse
images_not_excluded = refl

-- A callback that ends the listing leaves the services' key open.
key_left_open :
    browse (λ c. c) buffer any_name (λ s n. false) registry 5
    ≡ some ((0, tomcat) ∷ [], at_index true 2 4)
unfolding browse
key_left_open = refl

-- With a name of more than 256 units nothing is listed.
too_long_a_name :
    browse (λ c. c) buffer any_name (λ s n. true) (record registry { info = some (4, 257) }) 5
    ≡ some ([], at_index false 0 4)
unfolding browse
too_long_a_name = refl
