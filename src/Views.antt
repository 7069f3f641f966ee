-- ===== src/Views.antt =====
-- src/views/registry.mjs: the registry of compiled views. Texts are lists of UTF-8 bytes; names that are only
-- compared are numbers. `shape` is what the checks of an object's fields and their types find, and a module is
-- named by a number that stands for its functions.
pub mod Lookup
pub mod Authority
mod Tests
use qq_index.Prelude.{
  ℕ, ◌*◌, ◌^◌, ◌-◌, Bool, true, false, not, ◌&&◌, ◌||◌, Option, none, some, List, [], ◌∷◌, ◌++◌,
  leb, ◌==◌, if◌then◌else◌, length, map, Outcome, ok, err, ◌>>=◌, ◌>>◌, require,
}

pub data ViewError : Type 0 where
  type_error unsupported_view authorization_required : ViewError

-- `id` is a name, `id_bytes` its length.
pub record Identity : Type 0 where
  pub id : ℕ
  pub id_bytes : ℕ
  pub version : ℕ

pub record Access : Type 0 where
  pub shape : Bool
  pub name : ℕ
  pub name_bytes : ℕ
  pub maximum_results : ℕ
  pub maximum_work_units : ℕ
  pub authorization_bytes : ℕ

-- `digest_matches` says that the digest is that of the manifest's canonical text; `label_bytes` are the lengths of the
-- seven texts from `buildId` to `physicalSchema`.
pub record Manifest : Type 0 where
  pub shape : Bool
  pub identity : Identity
  pub digest_matches : Bool
  pub label_bytes : List ℕ
  pub maximum_partition_rows : ℕ
  pub maximum_partition_bytes : ℕ
  pub accesses : List Access

pub record ViewModule : Type 0 where
  pub shape : Bool
  pub manifest : Manifest
  pub functions : ℕ

pub within : ℕ → ℕ → ℕ → Bool
within minimum maximum n = leb minimum n && leb n maximum

-- `identityKey`: a NUL-free id and a version.
unfoldable pub same_identity : Identity → Identity → Bool
same_identity a b = a.id == b.id && a.version == b.version

unfoldable pub valid_identity : Identity → Bool
unfolding within
valid_identity i = within 1 128 i.id_bytes && within 1 (2 ^ 32 - 1) i.version

all_within : ℕ → ℕ → List ℕ → Bool
unfolding within
all_within minimum maximum [] = true
all_within minimum maximum (n ∷ ns) = within minimum maximum n && all_within minimum maximum ns

unfoldable pub named : ℕ → List ℕ → Bool
named name [] = false
named name (x ∷ xs) = x == name || named name xs

-- The loop over the accesses; `seen` are the names so far.
valid_accesses : List ℕ → List Access → Bool
unfolding within named
valid_accesses seen [] = true
valid_accesses seen (a ∷ accesses) =
    (a.shape
      && (within 1 128 a.name_bytes
          && (within 1 10000 a.maximum_results
              && (within 1 1000000 a.maximum_work_units
                  && (within 1 128 a.authorization_bytes && not (named a.name seen))))))
    && valid_accesses (a.name ∷ seen) accesses

unfoldable pub valid_manifest : Manifest → Bool
unfolding valid_identity all_within valid_accesses within
valid_manifest m =
    m.shape
    && (valid_identity m.identity
        && (m.digest_matches
            && (all_within 1 256 m.label_bytes
                && (within 1 1024 m.maximum_partition_rows
                    && (within 1024 (900 * 1024) m.maximum_partition_bytes
                        && (within 1 32 (length m.accesses) && valid_accesses [] m.accesses))))))

unfoldable pub define_view_module : ViewModule → Outcome ViewError ViewModule
define_view_module m = do
  require m.shape type_error
  require (valid_manifest m.manifest) type_error
  ok m

-- `byIdentity.get`
unfoldable pub find_view : Identity → List ViewModule → Option ViewModule
unfolding same_identity
find_view i [] = none
find_view i (m ∷ ms) =
    let later = find_view i ms in if same_identity m.manifest.identity i then some m else later

abbrev pub is_known : Option ViewModule → Bool
is_known none = false
is_known (some m) = true

-- The loop of `createViewRegistry`; the map keeps the order.
unfoldable pub add_views : List ViewModule → List ViewModule → Outcome ViewError (List ViewModule)
unfolding define_view_module find_view
add_views by_identity [] = ok by_identity
add_views by_identity (m ∷ ms) = do
  validated ← define_view_module m
  require (not (is_known (find_view validated.manifest.identity by_identity))) type_error
  add_views (by_identity ++ (validated ∷ [])) ms

unfoldable pub create_view_registry : List ViewModule → Outcome ViewError (List ViewModule)
unfolding add_views within
create_view_registry modules =
    require (within 1 64 (length modules)) type_error >> add_views [] modules

-- `prepareQuery`, up to the call of the module's own function: which module the request goes to.
unfoldable pub prepare_query :
    List ViewModule → (shape : Bool) → Identity → Outcome ViewError ViewModule
unfolding valid_identity find_view
prepare_query registry shape view = do
  require (shape && valid_identity view) type_error
  elim (find_view view registry) [ none ↦ err unsupported_view | some m ↦ ok m ]

-- `validateResult`, which does not check the request again.
unfoldable pub validate_result : List ViewModule → Identity → Outcome ViewError ViewModule
unfolding find_view
validate_result registry view = elim (find_view view registry) [
  | none ↦ err unsupported_view
  | some m ↦ ok m
]

-- A request. Names that are compared are numbers; a workspace is its name and its length in bytes.
pub record Query : Type 0 where
  pub shape : Bool
  pub version : ℕ
  pub view : Identity
  pub access : ℕ
  pub authority_kind : ℕ
  pub workspaces : List (ℕ × ℕ)
  pub freshness_mode : ℕ
  pub maximum_lag : ℕ

-- What a view expects, with the names that `validatePublicQueryEnvelope` knows.
pub record Expected : Type 0 where
  pub version : ℕ
  pub id : ℕ
  pub view_version : ℕ
  pub access : ℕ
  pub authority_kind : ℕ
  pub freshness_mode : ℕ

-- `new Set(...)`, in the order of the first occurrences.
unfoldable pub unique : List ℕ → List ℕ → List ℕ
unfolding named
unique seen [] = []
unique seen (x ∷ xs) =
    let rest = unique (if named x seen then seen else x ∷ seen) xs in
    if named x seen then rest else x ∷ rest

abbrev pub names : List (ℕ × ℕ) → List ℕ
names [] = []
names ((name, bytes) ∷ rest) = name ∷ names rest

abbrev pub lengths : List (ℕ × ℕ) → List ℕ
lengths [] = []
lengths ((name, bytes) ∷ rest) = bytes ∷ lengths rest

unfoldable pub validate_public_query_envelope : Query → Expected → Outcome ViewError (Unit {0})
unfolding valid_identity all_within within unique
validate_public_query_envelope q expected = do
  require (q.shape && (q.version == expected.version && valid_identity q.view)) type_error
  require
      (q.view.id == expected.id
        && (q.view.version == expected.view_version && q.access == expected.access))
      type_error
  require (q.authority_kind == expected.authority_kind) type_error
  require (within 1 16 (length q.workspaces) && all_within 1 4096 (lengths q.workspaces)) type_error
  require (length (unique [] (names q.workspaces)) == length q.workspaces) type_error
  require (q.freshness_mode == expected.freshness_mode && leb q.maximum_lag 9007199254740991)
      type_error

-- `derive` is the function that the caller hands over.
unfoldable pub to_wire_authority : (derive : ℕ → ℕ) → List ℕ → Outcome ViewError (List ℕ)
unfolding unique
to_wire_authority derive workspaces = elim (unique [] (map derive workspaces)) [
  | [] ↦ err authorization_required
  | token ∷ tokens ↦ ok (token ∷ tokens)
]
