-- ===== src/Client/Accepted/Sessions.antt =====
-- src/session-index-client.mjs: what an accepted list of sessions or of partitions says.
use Prim.Native.String.{String}
use qq_index.Prelude.{
  ◌≤◌, ◌≡◌, refl, subst, sym, true, false, not, List, [], ◌∷◌, map, length, ok, arith,
  Outcome-cases, inl, inr,
}
use qq_index.Client.Values.{Value, has_text, elements, get, text_of}
use qq_index.Client.Checks.{every, are_distinct, bounded_array, bounded_string}
use qq_index.Client.Responses.{
  validate_source_session, validate_source_sessions, validate_source_state_response, header,
}
use qq_index.Client.Requests.{text_or_empty}
use qq_index.Client.ViewResponses.{
  validate_partition, validate_partitions, validate_partition_list, validate_view_snapshot,
  same_view, validate_partition_state_response,
}
use qq_index.Client.Accepted.Texts.{new_texts, five_ok, bounded_array_lem}

-- The ids of the sessions, and the keys of the partitions.
abbrev pub session_ids : List Value → List String
session_ids vs = map (λ v. text_or_empty (get "sessionId" v)) vs

abbrev pub partition_keys : List Value → List String
partition_keys vs = map (λ v. text_or_empty (get "partitionKey" v)) vs

-- Texts that are all requested, each once, and none of those seen.
abbrev pub Answers : (requested seen : List String) → List String → Type 0
Answers requested seen ks =
    (every (λ k. has_text k requested) ks ≡ true)
    × ((are_distinct ks ≡ true) × (every (λ k. not (has_text k seen)) ks ≡ true))

add-Answers :
    (requested seen : List String) (k : String) (ks : List String)
    → has_text k requested ≡ true
    → has_text k seen ≡ false
    → Answers requested (k ∷ seen) ks
    → Answers requested seen (k ∷ ks)
unfolding every are_distinct
add-Answers requested seen k ks asked fresh (all, (distinct, unseen)) =
    let (own, rest) = new_texts k seen ks unseen in
    (ground (arith, asked, all), (ground (arith, own, distinct), ground (arith, fresh, rest)))

session_lem :
    (requested received : List String) (v : Value) (id : String)
    → validate_source_session requested received v ≡ ok id
    → (text_or_empty (get "sessionId" v) ≡ id)
      × ((has_text id requested ≡ true) × (has_text id received ≡ false))
unfolding validate_source_session text_of text_or_empty
session_lem requested received v id h = ground (arith, h)

sessions_lem :
    (requested received : List String) (vs : List Value)
    → validate_source_sessions requested received vs ≡ ok tt
    → Answers requested received (session_ids vs)
unfolding validate_source_sessions every are_distinct
sessions_lem requested received [] h = (refl, (refl, refl))
sessions_lem requested received (v ∷ vs) h =
    elim (Outcome-cases (validate_source_session requested received v)) [
      | inl (id, e) ↦
          let (same, (asked, fresh)) = session_lem requested received v id e in
          let rest = sessions_lem requested (id ∷ received) vs (ground (arith, e, h)) in
          subst (λ k. Answers requested received (k ∷ session_ids vs)) (sym same)
            (add-Answers requested received id (session_ids vs) asked fresh rest)
      | inr (x, e) ↦ absurd (ground (arith, e, h))
    ]

partition_lem :
    (requested seen : List String) (v : Value)
    → validate_partition requested seen v ≡ ok tt
    → (has_text (text_or_empty (get "partitionKey" v)) requested ≡ true)
      × (has_text (text_or_empty (get "partitionKey" v)) seen ≡ false)
unfolding validate_partition
partition_lem requested seen v h = ground (arith, h)

partitions_lem :
    (requested seen : List String) (vs : List Value)
    → validate_partitions requested seen vs ≡ ok tt
    → Answers requested seen (partition_keys vs)
unfolding validate_partitions every are_distinct
partitions_lem requested seen [] h = (refl, (refl, refl))
partitions_lem requested seen (v ∷ vs) h =
    let first : validate_partition requested seen v ≡ ok tt = ground (arith, h) in
    let (asked, fresh) = partition_lem requested seen v first in
    add-Answers requested seen (text_or_empty (get "partitionKey" v)) (partition_keys vs) asked
      fresh
      (partitions_lem requested (text_or_empty (get "partitionKey" v) ∷ seen) vs
        (ground (arith, first, h)))

-- An accepted source state has at most as many sessions as were requested; each was requested, and none is
-- there twice.
pub source_state_lem :
    (response : Value) (requested : List String)
    → validate_source_state_response response requested ≡ ok tt
    → (length (elements (get "sessions" response)) ≤ length requested)
      × ((every (λ k. has_text k requested) (session_ids (elements (get "sessions" response)))
            ≡ true)
          × (are_distinct (session_ids (elements (get "sessions" response))) ≡ true))
unfolding validate_source_state_response
source_state_lem response requested h =
    let sized : bounded_array (get "sessions" response) 0 (length requested) ≡ ok tt =
      ground (arith, h) in
    let listed : validate_source_sessions requested [] (elements (get "sessions" response))
        ≡ ok tt =
      ground (arith, h) in
    let (all, (distinct, unseen)) =
      sessions_lem requested [] (elements (get "sessions" response)) listed in
    ((bounded_array_lem (get "sessions" response) 0 (length requested) sized).1, (all, distinct))

partition_list_lem :
    (partitions keys : Value)
    → validate_partition_list partitions keys ≡ ok tt
    → (every
          (λ k. has_text k (map text_or_empty (elements keys)))
          (partition_keys (elements partitions))
        ≡ true)
      × (are_distinct (partition_keys (elements partitions)) ≡ true)
unfolding validate_partition_list
partition_list_lem partitions keys h =
    let requested = map text_or_empty (elements keys) in
    let listed : validate_partitions requested [] (elements partitions) ≡ ok tt =
      ground (arith, h) in
    let (all, (distinct, unseen)) = partitions_lem requested [] (elements partitions) listed in
    (all, distinct)

-- An accepted state of partitions is of the view that was asked for, and its partitions were requested, none of
-- them twice.
partition_state_lem :
    (response request : Value)
    → validate_partition_state_response response request ≡ ok tt
    → (same_view (get "view" response) (get "view" request) ≡ ok tt)
      × ((every
              (λ k. has_text k (map text_or_empty (elements (get "partitionKeys" request))))
              (partition_keys (elements (get "partitions" response)))
            ≡ true)
          × (are_distinct (partition_keys (elements (get "partitions" response))) ≡ true))
unfolding validate_partition_state_response
partition_state_lem response request h =
    let names = "type" ∷ "version" ∷ "view" ∷ "buildId" ∷ "snapshot" ∷ "partitions" ∷ [] in
    let (headed, (viewed, (built, (taken, listed)))) =
      five_ok (header response names "viewPartitionState" "qq-index-view-partition-state/v1")
        (same_view (get "view" response) (get "view" request))
        (bounded_string (get "buildId" response) 1 256)
        (validate_view_snapshot (get "snapshot" response))
        (validate_partition_list (get "partitions" response) (get "partitionKeys" request)) h in
    (viewed, partition_list_lem (get "partitions" response) (get "partitionKeys" request) listed)
