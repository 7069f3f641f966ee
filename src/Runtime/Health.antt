-- ===== src/Runtime/Health.antt =====
-- The bounded summary that `#setHealthSummary` keeps of a health response.
use qq_index.Prelude.{ℕ, Bool, false, ◌&&◌, ◌||◌, ◌==◌, List, [], ◌∷◌, leb, if◌then◌else◌, length}
use qq_index.Dsh.Decimal.{decimal, max_safe_integer}
use qq_index.Client.Checks.{every, is_no_more, is_decimal_byte}

-- A field of the daemon's response: an integer that is not negative, a text, or anything else.
pub data Reported : Type 0 where
  number : ℕ → Reported
  text : List ℕ → Reported
  other : Reported

-- `STATUS_COUNTER_MAX` is the largest safe integer, so the minimum is the number itself.
unfoldable pub bounded_counter : Reported → ℕ
bounded_counter (number n) = if leb n max_safe_integer then n else 0
bounded_counter _ = 0

-- `"0"`
abbrev zero_text : List ℕ
zero_text = 48 ∷ []

-- `/^(?:0|[1-9][0-9]{0,19})$/u`
is_bounded_text : List ℕ → Bool
unfolding every
is_bounded_text [] = false
is_bounded_text (c ∷ cs) =
    (c == 48 && is_no_more cs)
    || ((leb 49 c && leb c 57) && (every is_decimal_byte cs && leb (length cs) 19))

unfoldable pub bounded_unsigned : Reported → List ℕ
unfolding is_bounded_text
bounded_unsigned (number n) = if leb n max_safe_integer then decimal n else zero_text
bounded_unsigned (text t) = if is_bounded_text t then t else zero_text
bounded_unsigned other = zero_text

pub record Response : Type 0 where
  pub generation : Reported
  pub source_watermark : Reported
  pub reader_count : Reported
  pub queue_capacity : Reported
  pub reader_retirements : Reported
  pub active_readers : Reported
  pub peak_active_readers : Reported

pub record Summary : Type 0 where
  pub generation : List ℕ
  pub source_watermark : List ℕ
  pub reader_count : ℕ
  pub queue_capacity : ℕ
  pub reader_retirements : ℕ
  pub active_readers : ℕ
  pub peak_active_readers : ℕ

unfoldable pub summary : Response → Summary
unfolding bounded_counter bounded_unsigned
summary response = record {
  generation = bounded_unsigned response.generation;
  source_watermark = bounded_unsigned response.source_watermark;
  reader_count = bounded_counter response.reader_count;
  queue_capacity = bounded_counter response.queue_capacity;
  reader_retirements = bounded_counter response.reader_retirements;
  active_readers = bounded_counter response.active_readers;
  peak_active_readers = bounded_counter response.peak_active_readers;
}
