-- ===== src/ViewSource/Step/Tests.antt =====
-- Runs of the view source of src/dsh-alpha4-view-source.mjs.
use qq_index.Prelude.{◌+◌, ◌≤◌, ◌≡◌, refl, true, false, some, List, [], ◌∷◌, length, ok, inr}
use qq_index.Client.Values.{
  Value, null, string, array, object, number, whole, no_items, item, no_fields, field, get,
}
use qq_index.Client.Requests.{text_or_empty}
use qq_index.ViewSource.State.{Source, installed, is_live, init}
use qq_index.ViewSource.Work.{
  Options, Event, start_called, close_called, subscribed, listed, states_answered, observed,
  projected, mutated, activated, notified,
}
use qq_index.ViewSource.Step.{run}
use qq_index.ViewSource.Step.Promises.{after, ready_complete, live_unbuffered}
use qq_index.ViewSource.Step.Leaks.{late_subscription}

abbrev view : Value
view = object true (field "id" (string "v") (field "version" (number (whole 1)) no_fields))

abbrev options : Options
options = record {
  view = view;
  max_partitions = 100;
  batch_size = 1;
  source_identity = λ v. ok (string "identity");
  releases = λ v. true;
  text_of_number = λ n. "0";
  encoded_size = λ v. some 2;
}

abbrev observation : Value
observation = object true (
    field "source" (string "live") (
      field "header" (object true (field "id" (string "s1") no_fields)) (
        field "events" (array (item null no_items))
          (field "cursor" (number (whole 0)) (field "revision" (string "r") no_fields)))))

abbrev rows : Value
rows = object true (field "rows" (array no_items) no_fields)

-- A start with one record, which is replaced, and a change that comes meanwhile.
abbrev events : List Event
events =
    start_called
    ∷ subscribed (ok tt)
    ∷ listed (ok (array (item (object true (field "sessionId" (string "s1") no_fields)) no_items)))
    ∷ states_answered (ok []) "0"
    ∷ observed (ok observation)
    ∷ projected (ok rows)
    ∷ mutated (ok tt)
    ∷ notified (string "s2")
    ∷ activated (ok tt)
    ∷ []

went_live : is_live (after options events).phase ≡ true
unfolding run init get text_or_empty
went_live = refl

one_committed : (after options events).partitions_committed ≡ 1
unfolding run init get text_or_empty
one_committed = refl

one_in_line : length (after options events).queue ≡ 1
unfolding run init get text_or_empty
one_in_line = refl

ready_complete_example :
    (after options events).records_listed
    ≤ (after options events).partitions_skipped + (after options events).partitions_committed
ready_complete_example = ready_complete options events (inr went_live)

not_disposed : (after options events).disposed ≡ false
unfolding run init get text_or_empty
not_disposed = refl

live_unbuffered_example : (after options events).buffered ≡ []
live_unbuffered_example = live_unbuffered options events went_live not_disposed

-- A source that is closed while it waits for `subscribe`.
abbrev closed_early : Source
closed_early = run options init (start_called ∷ close_called ∷ [])

late_subscription_example :
    let s' =
      run options closed_early
        (subscribed (ok tt) ∷ close_called ∷ listed (ok (array no_items)) ∷ []) in
    (s'.disposed ≡ true) × (s'.subscription ≡ installed)
unfolding run init
late_subscription_example =
    late_subscription options closed_early (close_called ∷ listed (ok (array no_items)) ∷ []) refl
      refl
