-- ===== src/Client/Step/Invariant.antt =====
-- src/session-index-client.mjs: the invariant of the client, and that what settles calls keeps it.
use Prim.Native.String.{String}
use qq_index.Prelude.{
  ℕ, ◌+◌, ◌≡◌, ◌⊎◌, refl, sym, subst, ◌∙◌, Bool, true, false, not, ◌&&◌, Option, none, some, List,
  [], ◌∷◌, ◌==◌, Outcome, err, arith, Option-cases, inl, inr,
}
use qq_index.Client.Errors.{ClientError, violation}
use qq_index.Client.Values.{Value}
use qq_index.Client.State.{Setting, Client, Call, Pending, Running, Reason}
use qq_index.Client.Handle.{
  answer, settle, terminate, Meaning, answered, thrown, read_frame, handle_frame, admit, send,
  round_trip, start, reach_boundary, end_grace, finish_close, close, resume_close,
}

-- A request is pending exactly while a call runs, it is that call's, and the client has not ended.
unfoldable pub is_linked : Option Pending → Option Running → Option ClientError → Bool
is_linked none none e = true
is_linked (some p) (some r) none = p.call == r.call
is_linked p r e = false

unfoldable pub unit : Bool → ℕ
unit true = 1
unit false = 0

unfoldable pub open_count : ℕ → List Call → ℕ
unfolding unit
open_count n [] = 0
open_count n (call ∷ calls) = unit (call.number == n && not call.rejected) + open_count n calls

unfoldable pub running_count : ℕ → Option Running → ℕ
unfolding unit
running_count n none = 0
running_count n (some r) = unit (r.call == n && not r.answered)

unfoldable pub settled_count : ℕ → List (ℕ × Outcome ClientError Value) → ℕ
unfolding unit
settled_count n [] = 0
settled_count n ((call, outcome) ∷ settled) = unit (call == n) + settled_count n settled

-- How often the call is settled, or waits to be.
unfoldable pub total : ℕ → Client → ℕ
unfolding open_count running_count settled_count
total n s = settled_count n s.settled + (open_count n s.waiting + running_count n s.running)

abbrev pub Linked : Client → Type 0
Linked s = is_linked s.pending s.running s.terminal_error ≡ true

-- What a method keeps.
abbrev pub Keeps : Client → Client → Type 0
Keeps s t = Linked t × (((n : ℕ) → total n t ≡ total n s) × (t.calls ≡ s.calls))

pub total-answer :
    (rejected : Bool) (call : ℕ) (outcome : Outcome ClientError Value) (s : Client) (n : ℕ)
    → total n (answer rejected call outcome s) ≡ total n s + unit (call == n && not rejected)
unfolding total settled_count answer unit
total-answer true call outcome s n = ground arith
total-answer false call outcome s n = ground arith

-- `terminate` settles the call of the pending request.
pub terminate-Keeps : (e : ClientError) (s : Client) → Linked s → Keeps s (terminate e s)
unfolding terminate settle total is_linked answer settled_count running_count unit
terminate-Keeps e s h = (ground arith, (λ n. ground arith, ground arith))

-- A pending request is settled, and forgotten.
settle-Keeps :
    (p : Pending) (outcome : Outcome ClientError Value) (s : Client)
    → s.pending ≡ some p
    → Linked s
    → Keeps s (settle p.call outcome (record s { pending = none }))
unfolding settle total is_linked answer settled_count running_count unit
settle-Keeps p outcome s e h = (ground arith, (λ n. ground arith, ground arith))

thrown-Keeps :
    (p : Pending) (x : ClientError) (s : Client)
    → s.pending ≡ some p
    → Linked s
    → Keeps s (terminate x (settle p.call (err x) s))
unfolding settle terminate total is_linked answer settled_count running_count unit
thrown-Keeps p x s e h = (ground arith, (λ n. ground arith, ground arith))

pub Meaning-cases :
    (m : Meaning)
    → ((outcome : Outcome ClientError Value) × (m ≡ answered outcome))
      ⊎ ((e : ClientError) × (m ≡ thrown e))
Meaning-cases (answered outcome) = inl (outcome, refl)
Meaning-cases (thrown e) = inr (e, refl)

pub Keeps-refl : (s : Client) → Linked s → Keeps s s
Keeps-refl s h = (h, (λ n. refl, refl))

pub Keeps-trans : (s t u : Client) → Keeps s t → Keeps t u → Keeps s u
Keeps-trans s t u (h, (e, f)) (h', (e', f')) = (h', (λ n. e' n ∙ e n, f' ∙ f))

module _ (c : Setting) where
  pub handle_frame-idle :
      (frame : List ℕ) (s : Client)
      → s.pending ≡ none
      → handle_frame c frame s ≡ terminate violation s
  unfolding handle_frame
  handle_frame-idle frame s e = ground (arith, e)

  pub handle_frame-answered :
      (frame : List ℕ) (p : Pending) (outcome : Outcome ClientError Value) (s : Client)
      → s.pending ≡ some p
      → read_frame c frame p ≡ answered outcome
      → handle_frame c frame s ≡ settle p.call outcome (record s { pending = none })
  unfolding handle_frame
  handle_frame-answered frame p outcome s e m = ground (arith, e, m)

  pub handle_frame-thrown :
      (frame : List ℕ) (p : Pending) (x : ClientError) (s : Client)
      → s.pending ≡ some p
      → read_frame c frame p ≡ thrown x
      → handle_frame c frame s ≡ terminate x (settle p.call (err x) s)
  unfolding handle_frame
  handle_frame-thrown frame p x s e m = ground (arith, e, m)

  pub handle_frame-Keeps :
      (frame : List ℕ) (s : Client) → Linked s → Keeps s (handle_frame c frame s)
  handle_frame-Keeps frame s h = elim (Option-cases s.pending) [
    | inl e ↦ subst (Keeps s) (sym (handle_frame-idle frame s e)) (terminate-Keeps violation s h)
    | inr (p, e) ↦ elim (Meaning-cases (read_frame c frame p)) [
      | inl (outcome, m) ↦
          subst (Keeps s) (sym (handle_frame-answered frame p outcome s e m))
            (settle-Keeps p outcome s e h)
      | inr (x, m) ↦
          subst (Keeps s) (sym (handle_frame-thrown frame p x s e m)) (thrown-Keeps p x s e h)
    ]
  ]

  pub reach_boundary-Keeps :
      (reason : Reason) (e : ClientError) (r : Running) (s : Client)
      → Linked s
      → s.running ≡ some r
      → Keeps s (reach_boundary c reason e r s)
  unfolding reach_boundary settle total is_linked answer settled_count running_count unit terminate
  reach_boundary-Keeps reason e r s h k = (ground arith, (λ n. ground arith, ground arith))

  pub end_grace-Keeps : (s : Client) → Linked s → Keeps s (end_grace c s)
  unfolding end_grace settle total is_linked answer settled_count running_count unit terminate
  end_grace-Keeps s h = (ground arith, (λ n. ground arith, ground arith))

  pub finish_close-Keeps : (s : Client) → Linked s → Keeps s (finish_close c s)
  unfolding finish_close total is_linked
  finish_close-Keeps s h = (ground arith, (λ n. ground arith, ground arith))

  pub close-Keeps : (s : Client) → Linked s → Keeps s (close c s)
  unfolding close finish_close settle total is_linked answer settled_count running_count unit
  close-Keeps s h = (ground arith, (λ n. ground arith, ground arith))

  pub resume_close-Keeps :
      (request : String) (s : Client) → Linked s → Keeps s (resume_close c request s)
  unfolding resume_close finish_close settle total is_linked answer settled_count running_count unit
      terminate
  resume_close-Keeps request s h = (ground arith, (λ n. ground arith, ground arith))

  -- The job of a call whose turn it is.
  pub total-start :
      (now : ℕ) (call : Call) (s : Client)
      → s.running ≡ none
      → Linked s
      → Linked (start c now call s)
        × (((n : ℕ)
              → total n (start c now call s)
                ≡ total n s + unit (call.number == n && not call.rejected))
            × ((start c now call s).calls ≡ s.calls))
  unfolding start round_trip send settle total is_linked answer settled_count running_count unit
      admit
  total-start now call s idle h = (ground arith, (λ n. ground arith, ground arith))
