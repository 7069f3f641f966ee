-- ===== src/Views/Tests.antt =====
-- A registry of two views, and a request for one of them.
use qq_index.Prelude.{ℕ, ◌+◌, true, List, [], ◌∷◌}
use qq_index.Views.{Access, ViewModule, Query, Expected}

abbrev access : Access
access = record {
  shape = true;
  name = 1;
  name_bytes = 4;
  maximum_results = 10;
  maximum_work_units = 100;
  authorization_bytes = 9;
}

abbrev view : ℕ → ViewModule
view id = record {
  shape = true;
  manifest = record {
    shape = true;
    identity = record { id = id; id_bytes = 12; version = 1 };
    digest_matches = true;
    label_bytes = 8 ∷ 8 ∷ [];
    maximum_partition_rows = 64;
    maximum_partition_bytes = 4096;
    accesses = access ∷ [];
  };
  functions = id;
}

abbrev two_views : List ViewModule
two_views = view 3 ∷ view 4 ∷ []

abbrev query : Query
query = record {
  shape = true;
  version = 1;
  view = record { id = 4; id_bytes = 12; version = 1 };
  access = 1;
  authority_kind = 2;
  workspaces = (7, 20) ∷ (8, 20) ∷ [];
  freshness_mode = 5;
  maximum_lag = 1000;
}

abbrev expected : Expected
expected = record {
  version = 1;
  id = 4;
  view_version = 1;
  access = 1;
  authority_kind = 2;
  freshness_mode = 5;
}

abbrev token : ℕ → ℕ
token workspace = workspace + 100

abbrev given : List ℕ
given = 7 ∷ 8 ∷ 7 ∷ []
