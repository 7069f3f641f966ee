-- ===== src/Views/Lookup.antt =====
-- A registry finds each of its views.
use mathlib.Core.List.{append_assoc, append-nil}
use qq_index.Prelude.{◌≤◌, ◌≡◌, ◌∙◌, true, none, some, List, [], ◌∷◌, ◌++◌, length, arith, All, ok}
use qq_index.Views.{
  Identity, ViewModule, same_identity, valid_identity, valid_manifest, define_view_module,
  find_view, add_views, create_view_registry, prepare_query, validate_result, within,
}

same_identity_refl : (i : Identity) → same_identity i i ≡ true
unfolding same_identity
same_identity_refl i = ground arith

-- What one round of the loop requires.
abbrev Accepted : List ViewModule → ViewModule → Type 0
Accepted by_identity m =
    (m.shape ≡ true)
    × (valid_manifest m.manifest ≡ true)
    × (find_view m.manifest.identity by_identity ≡ none)

add_one :
    (by_identity : List ViewModule) (m : ViewModule) (ms r : List ViewModule)
    → add_views by_identity (m ∷ ms) ≡ ok r
    → Accepted by_identity m × (add_views (by_identity ++ (m ∷ [])) ms ≡ ok r)
unfolding add_views define_view_module
add_one by_identity m ms r h = ground arith

find_view-kept :
    (i : Identity) (found : ViewModule) (ms more : List ViewModule)
    → find_view i ms ≡ some found
    → find_view i (ms ++ more) ≡ some found
unfolding find_view
find_view-kept i found [] more h = cc
find_view-kept i found (m ∷ ms) more h = ground (arith, find_view-kept i found ms more)

find_view-new :
    (i : Identity) (ms : List ViewModule) (m : ViewModule)
    → find_view i ms ≡ none
    → same_identity m.manifest.identity i ≡ true
    → find_view i (ms ++ (m ∷ [])) ≡ some m
unfolding find_view
find_view-new i [] m h e = ground arith
find_view-new i (x ∷ ms) m h e = ground (arith, find_view-new i ms m)

add_views-kept :
    (i : Identity) (found : ViewModule) (by_identity ms r : List ViewModule)
    → add_views by_identity ms ≡ ok r
    → find_view i by_identity ≡ some found
    → find_view i r ≡ some found
unfolding add_views
add_views-kept i found by_identity [] r h e = ground arith
add_views-kept i found by_identity (m ∷ ms) r h e =
    let (accepted, rest) = add_one by_identity m ms r h in
    add_views-kept i found (by_identity ++ (m ∷ [])) ms r rest
      (find_view-kept i found by_identity (m ∷ []) e)

add_views-found :
    (by_identity front : List ViewModule) (m : ViewModule) (back r : List ViewModule)
    → add_views by_identity (front ++ (m ∷ back)) ≡ ok r
    → (find_view m.manifest.identity r ≡ some m) × (valid_manifest m.manifest ≡ true)
add_views-found by_identity [] m back r h =
    let ((shape, valid, fresh), rest) = add_one by_identity m back r h in
    (
      add_views-kept m.manifest.identity m (by_identity ++ (m ∷ [])) back r rest (
          find_view-new m.manifest.identity by_identity m fresh
            (same_identity_refl m.manifest.identity)),
      valid,
    )
add_views-found by_identity (x ∷ front) m back r h =
    let (accepted, rest) = add_one by_identity x (front ++ (m ∷ back)) r h in
    add_views-found (by_identity ++ (x ∷ [])) front m back r rest

add_views-All :
    (by_identity ms r : List ViewModule)
    → add_views by_identity ms ≡ ok r
    → (r ≡ by_identity ++ ms) × All (λ m. valid_manifest m.manifest ≡ true) ms
unfolding add_views
add_views-All by_identity [] r h = (ground (arith, append-nil by_identity), tt)
add_views-All by_identity (m ∷ ms) r h =
    let ((shape, valid, fresh), rest) = add_one by_identity m ms r h in
    let (same, later) = add_views-All (by_identity ++ (m ∷ [])) ms r rest in
    (same ∙ append_assoc by_identity (m ∷ []) ms, (valid, later))

-- If a registry is made of the modules, then a request for the view of any of them goes to that module, both
-- when the query is prepared and when the result is checked: no other module can take its place.
registered_view_found :
    (front : List ViewModule) (m : ViewModule) (back r : List ViewModule)
    → create_view_registry (front ++ (m ∷ back)) ≡ ok r
    → (prepare_query r true m.manifest.identity ≡ ok m)
      × (validate_result r m.manifest.identity ≡ ok m)
unfolding create_view_registry prepare_query validate_result
registered_view_found front m back r h =
    let made : add_views [] (front ++ (m ∷ back)) ≡ ok r = ground arith in
    let (found, valid) = add_views-found [] front m back r made in
    let identity : valid_identity m.manifest.identity ≡ true =
      unfold valid_manifest in ground (arith, valid) in
    (ground (arith, found, identity), ground (arith, found))

-- A registry that is made holds the given modules in their order, 1 to 64 of them, and each manifest is valid.
pub create_view_registry_lem :
    (modules r : List ViewModule)
    → create_view_registry modules ≡ ok r
    → (r ≡ modules)
      × (1 ≤ length modules)
      × (length modules ≤ 64)
      × All (λ m. valid_manifest m.manifest ≡ true) modules
unfolding create_view_registry within
create_view_registry_lem modules r h =
    let made : add_views [] modules ≡ ok r = ground arith in
    let (same, valid) = add_views-All [] modules r made in (same, ground arith, ground arith, valid)
