-- ===== src/Policy/Calls.antt =====
-- tools/invoke.py `invoke` and `persist`: the rows of a call, and what its result depends on.
use darknetra.Prelude.{
  ℕ, ◌≡◌, ok, refl, List, Option, some, none, Error, Bool, length, arith, ◌+◌, ◌++◌, ◌∷◌, [], inr,
  inl, true, ◌∙◌, false, Bool-cases, ap, sym,
}
use darknetra.Policy.Engine.{PolicyStore, ToolSpec}
use darknetra.Policy.Invoke.{
  Outcome, CallState, ToolCall, ToolResult, CallStatus, admit, execute, persist, run_and_thread,
  invoke, status_of, cache_get, conclude, Answer,
}

-- The rows of a call: in a run of a thread one more, with the status and the error of the result, and
-- otherwise no more.
abbrev pub Logged : CallState → CallState → CallStatus → Option Error → Type 0
Logged st st' status error =
    (length st'.audit ≡ length st.audit + 1)
    × (run_and_thread st ≡ none → st'.calls ≡ st.calls)
    × ((run_id thread_id : ℕ)
        → run_and_thread st ≡ some (run_id, thread_id)
        → (c : ToolCall) × (st'.calls ≡ st.calls ++ (c ∷ []))
          × (c.case_id ≡ st.ctx.case_id)
          × (c.run_id ≡ run_id)
          × (c.thread_id ≡ thread_id)
          × (c.status ≡ status)
          × (c.error ≡ error))

-- Admission writes neither rows nor entries.
admit-quiet :
    (now : ℕ) (s : PolicyStore) (valid : Bool) (spec : Option ToolSpec) (st : CallState)
    → ((admit now s valid spec st).0.calls ≡ st.calls)
      × ((admit now s valid spec st).0.audit ≡ st.audit)
      × (run_and_thread (admit now s valid spec st).0 ≡ run_and_thread st)
      × ((admit now s valid spec st).0.ctx.case_id ≡ st.ctx.case_id)
      × ((admit now s valid spec st).0.cache ≡ st.cache)
unfolding admit
admit-quiet now s valid spec st = ground arith

execute-hit :
    (captured : List ℕ) (t : ToolSpec) (hashed : ℕ) (st : CallState) (outcome : Outcome)
    (r : ToolResult)
    → cache_get t.name hashed st.cache ≡ some r
    → execute captured t hashed st outcome
      ≡ record { result = r; cached = true; is_cancelled = false; cache = st.cache }
unfolding execute
execute-hit captured t hashed st outcome r h = rw (execute, h) refl

conclude-hit :
    (name hashed : ℕ) (captured captured' : List ℕ) (a : Answer) (st : CallState)
    → a.cached ≡ true
    → conclude name hashed captured a st ≡ conclude name hashed captured' a st
unfolding conclude
conclude-hit name hashed captured captured' a st h = rw h refl

conclude-cache :
    (name hashed : ℕ) (captured : List ℕ) (a : Answer) (st : CallState)
    → (conclude name hashed captured a st).1.cache ≡ a.cache
unfolding conclude persist
conclude-cache name hashed captured a st = elim (Bool-cases a.is_cancelled) [
  | inl is_true ↦ rw (conclude, is_true) refl
  | inr is_false ↦ rw (conclude, is_false) refl
]

invoke-conclude :
    (now : ℕ) (s : PolicyStore) (valid : Bool) (spec : Option ToolSpec) (name hashed : ℕ)
    (captured : List ℕ) (outcome : Outcome) (st : CallState) (t : ToolSpec)
    → (admit now s valid spec st).1 ≡ ok t
    → invoke now s valid spec name hashed captured outcome st
      ≡ conclude name hashed captured
          (execute captured t hashed (admit now s valid spec st).0 outcome)
          (admit now s valid spec st).0
unfolding invoke
invoke-conclude now s valid spec name hashed captured outcome st t h = rw (invoke, h) refl

-- A result in the cache is given again, whatever the tool would now do, and the cache stays as it is; the
-- call has passed the checks of its budget, its role and its policy first.
pub invoke-cached :
    (now : ℕ) (s : PolicyStore) (valid : Bool) (spec : Option ToolSpec) (name hashed : ℕ)
    (captured captured' : List ℕ) (outcome outcome' : Outcome) (st : CallState) (t : ToolSpec)
    (r : ToolResult)
    → (admit now s valid spec st).1 ≡ ok t
    → cache_get t.name hashed st.cache ≡ some r
    → (invoke now s valid spec name hashed captured outcome st
        ≡ invoke now s valid spec name hashed captured' outcome' st)
      × ((invoke now s valid spec name hashed captured outcome st).1.cache ≡ st.cache)
invoke-cached now s valid spec name hashed captured captured' outcome outcome' st t r h k =
    let (calls, audit, run, bound, cache) = admit-quiet now s valid spec st in
    let mid = (admit now s valid spec st).0 in
    let hit : cache_get t.name hashed mid.cache ≡ some r = rw cache k in
    let kept : Answer = record {
      result = r;
      cached = true;
      is_cancelled = false;
      cache = mid.cache;
    } in
    let one = execute-hit captured t hashed mid outcome r hit in
    let two = execute-hit captured' t hashed mid outcome' r hit in
    let first = invoke-conclude now s valid spec name hashed captured outcome st t h in
    let second = invoke-conclude now s valid spec name hashed captured' outcome' st t h in
    (
      first
          ∙ ap (λ a. conclude name hashed captured a mid) one
          ∙ conclude-hit name hashed captured captured' kept mid refl
          ∙ ap (λ a. conclude name hashed captured' a mid) (sym two)
          ∙ sym second,
      ap (λ x. x.1.cache) first
          ∙ ap (λ a. (conclude name hashed captured a mid).1.cache) one
          ∙ conclude-cache name hashed captured kept mid
          ∙ cache,
    )

-- The status under which a call is stored, by what it returns: a cancelled call counts as an error.
abbrev pub Stored : Option ToolResult → CallStatus → Option Error → Type 0
Stored none status error = (status ≡ CallStatus.failed) × (error ≡ some Error.unavailable)
Stored (some r) status error = (status ≡ status_of r) × (error ≡ r.error)
