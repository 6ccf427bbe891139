-- ===== src/Future/Tests.antt =====
-- A future that is completed with a timeout and then with a value.
use go_keylane.Base.{ℕ, ◌≡◌, refl, true, false, some, none, [], ◌∷◌}
use go_keylane.Base.Floats.{Fraction}
use go_keylane.Failure.Defs.{Sentinel, ErrorValue, nil, sentinel}
use go_keylane.Failure.Classify.{FailurePolicy}
use go_keylane.Retry.Turns.{zero_budget}
use go_keylane.Future.Defs.{ResultFuture, new_result_future, complete}
use go_keylane.Future.Once.{Call, completing, calls, Seen, IsErrorOf, calls-Seen, complete-carries}

abbrev late : ErrorValue
late = sentinel Sentinel.deadline_exceeded

abbrev no_policy : FailurePolicy
no_policy = record { classifier = none }

abbrev timed_out : ResultFuture ℕ Fraction
timed_out = complete new_result_future none late no_policy zero_budget false 5

abbrev again : Call ℕ Fraction
again = completing (some 3) nil no_policy zero_budget false 6

calls-Seen_example : Seen (calls timed_out (again ∷ [])) timed_out
unfolding complete new_result_future
calls-Seen_example = calls-Seen timed_out (again ∷ []) refl

complete-carries_example :
    (timed_out.done ≡ true)
    × (timed_out.val ≡ none)
    × IsErrorOf late timed_out.failure timed_out.err
unfolding new_result_future
complete-carries_example =
    complete-carries (new_result_future {A = ℕ} {W = Fraction}) none late no_policy zero_budget
      false 5 refl
