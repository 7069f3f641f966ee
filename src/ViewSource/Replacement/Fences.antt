-- ===== src/ViewSource/Replacement/Fences.antt =====
-- src/dsh-alpha4-view-source.mjs: the fence of a replacement, against the bound that the client sets.
use Prim.Native.String.{String, len, ◌++◌ as ◌+ˢ◌}
use text.Mathlib.TextPositions.{len-append}
use qq_index.Prelude.{ℕ, ◌+◌, ◌≤◌, ◌≡◌, true, ◌≢◌, ok, ◌>>◌, arith, [], ◌∷◌}
use qq_index.Client.Values.{Value, string, get, text_of}
use qq_index.Client.Checks.{Check, bounded_string, nul_free, exact_object, nonnegative_safe_integer}
use qq_index.Client.Requests.{cursor}
use qq_index.Client.ViewRequests.{validate_view_source}
use qq_index.ViewSource.Replacement.{source_fence, replacement_source, revision_of}
use qq_index.ViewSource.Checks.{text as view_text}
use qq_index.ViewSource.Records.{revision}
use qq_index.Readme.Text.{codes}

len-source_fence : (r n : String) → len (source_fence r n) ≡ 20 + (len r + len n)
unfolding source_fence
len-source_fence r n =
    let outer = len-append "alpha4-observation:" (r +ˢ (":" +ˢ n)) in
    let middle = len-append r (":" +ˢ n) in
    let inner = len-append ":" n in omega (arith, outer, middle, inner)

bounded_string_long :
    (s : String) (minimum maximum : ℕ)
    → maximum + 1 ≤ len s
    → bounded_string (string s) minimum maximum ≢ ok tt
unfolding bounded_string
bounded_string_long s minimum maximum long h = absurd (ground (arith, h, long))

revision_taken :
    (r : String)
    → 4077 ≤ len r
    → len r ≤ 4096
    → nul_free (codes r) ≡ true
    → revision_of (string r) ≡ ok r
unfolding revision_of revision view_text bounded_string text_of
revision_taken r long short free = ground arith

fifth_ok : (a b c d e f : Check) → (a >> (b >> (c >> (d >> (e >> f))))) ≡ ok tt → e ≡ ok tt
fifth_ok a b c d e f h = ground arith

source_fence_checked :
    (v : Value)
    → validate_view_source v ≡ ok tt
    → bounded_string (get "sourceFence" v) 1 4096 ≡ ok tt
unfolding validate_view_source
source_fence_checked v h =
    fifth_ok
      (exact_object v
        ("sourceIdentity" ∷ "durableRevision" ∷ "nextCursor" ∷ "sourceFence" ∷ "lagMs" ∷ []) [])
      (bounded_string (get "sourceIdentity" v) 1 4096)
      (bounded_string (get "durableRevision" v) 1 4096) (cursor (get "nextCursor" v))
      (bounded_string (get "sourceFence" v) 1 4096) (nonnegative_safe_integer (get "lagMs" v)) h

-- A revision without a NUL of 4,077 to 4,096 bytes is taken by the view source, and the client's check then refuses the
-- source of the replacement that is made with it: the fence that stands in it is too long.
pub long_revision_refused :
    (source_identity r n : String)
    → 4077 ≤ len r
    → len r ≤ 4096
    → nul_free (codes r) ≡ true
    → (revision_of (string r) ≡ ok r)
      × (validate_view_source (replacement_source source_identity r n) ≢ ok tt)
unfolding replacement_source get
long_revision_refused source_identity r n long short free = (
  revision_taken r long short free,
  λ h.
      bounded_string_long (source_fence r n) 1 4096 (omega (arith, len-source_fence r n, long))
        (source_fence_checked (replacement_source source_identity r n) h),
)
