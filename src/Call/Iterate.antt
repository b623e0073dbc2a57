-- ===== src/Call/Iterate.antt =====
-- An iteration over all call testers.
use tox_suite.Base.{ℕ, ◌≡◌, Option, none, some, List, [], ◌∷◌}
use tox_suite.Tox.{Tox}
use tox_suite.Base.Results.{OnResult, on_result}
use tox_suite.Timespec.{Timespec}
use mathlib.Core.Option
use tox_suite.Toxav.{Toxav}
use tox_suite.Base.Ordered.{IsGrowing, Above}
use tox_suite.Call.{Recording, CallTester, tester_number}
use tox_suite.Call.OneShot.{World, Stepped, calltest_iterate_one_shot, calltest_iterate, keep}
use tox_suite.Call.Steps.{Follows, by_step}

module _ (tox : Tox) (av : Toxav) (fopen : List ℕ → Option (List ℕ)) (fresh : Recording)
    (greeting : Option Recording) (tp : Timespec) where
  -- The testers afterwards are ordered, and above what the testers before were above.
  abbrev Kept : List CallTester → World tox av fopen × List CallTester → Type 0
  Kept before r =
      IsGrowing tester_number r.1
      × ((n : ℕ) → Above tester_number n before → Above tester_number n r.1)

  keep-Kept :
      (ct : CallTester) (cts : List CallTester) (o : Option CallTester)
      (rest : Option (World tox av fopen × List CallTester))
      → Follows ct o
      → Above tester_number (tester_number ct) cts
      → OnResult (Kept cts) rest
      → OnResult (Kept (ct ∷ cts)) (Option.map (λ (w, l). (w, keep tox av fopen o l)) rest)
  keep-Kept ct cts o none f above k = tt
  keep-Kept ct cts none (some (w, l)) f above (growing, later) = (growing, λ n a. later n a.1)
  keep-Kept ct cts (some ct') (some (w, l)) f above (growing, later) =
      ((rw f.1 (later (tester_number ct) above), growing), λ n a. (rw f.1 a.0, later n a.1))

  all-Kept :
      (ct : CallTester) (cts : List CallTester) (o : Option (Stepped tox av fopen))
      → OnResult (λ r. Follows ct r.tester) o
      → Above tester_number (tester_number ct) cts
      → ((w : World tox av fopen)
          → OnResult (Kept cts) (calltest_iterate tox av fopen fresh greeting tp w cts))
      → OnResult (Kept (ct ∷ cts)) (elim o [
        | none ↦ none
        | some r ↦
            Option.map
              (λ (w, l). (w, keep tox av fopen r.tester l))
              (calltest_iterate tox av fopen fresh greeting tp r.world cts)
      ])
  all-Kept ct cts none f above k = tt
  all-Kept ct cts (some r) f above k =
      keep-Kept ct cts r.tester (calltest_iterate tox av fopen fresh greeting tp r.world cts) f
        above (k r.world)

  iterate-Kept :
      (cts : List CallTester) (w : World tox av fopen)
      → IsGrowing tester_number cts
      → OnResult (Kept cts) (calltest_iterate tox av fopen fresh greeting tp w cts)
  unfolding calltest_iterate
  iterate-Kept [] w g = (tt, λ n a. tt)
  iterate-Kept (ct ∷ cts) w g =
      all-Kept ct cts (calltest_iterate_one_shot tox av fopen fresh greeting tp w ct)
        (by_step tox av fopen fresh greeting tp w ct ct.step) g.0 (λ w'. iterate-Kept cts w' g.1)

  -- An iteration, whatever the testers do in it, leaves them ordered by friend number, with no two
  -- for one friend.
  pub calltest_iterate-IsGrowing :
      (w : World tox av fopen) (cts : List CallTester) (r : World tox av fopen × List CallTester)
      → IsGrowing tester_number cts
      → calltest_iterate tox av fopen fresh greeting tp w cts ≡ some r
      → IsGrowing tester_number r.1
  calltest_iterate-IsGrowing w cts r g h =
      (on_result (Kept cts) (calltest_iterate tox av fopen fresh greeting tp w cts) r
        (iterate-Kept cts w g) h).0
