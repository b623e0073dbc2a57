-- ===== src/Call/Testers.antt =====
-- The list of call testers: one for each friend, ordered by friend number.
use tox_suite.Base.{
  ℕ, ◌≤◌, ◌≡◌, refl, inl, inr, Option, none, some, List, [], ◌∷◌, arith, ltb, not-ltb→le,
  Bool-cases, Option-cases, All,
}
use tox_suite.Base.Entries.{find_index, has_key, find_index-none, modify}
use tox_suite.Base.Ordered.{IsGrowing, insert_by-IsGrowing, modify-IsGrowing}
use tox_suite.Toxav.{Toxav}
use tox_suite.Call.{
  bye, CallTester, tester_number, new_tester, call_tester_by_friend_number, call_tester_add_entry,
  CallState, call_state, audio_receive_frame, record_if_recording, interval_loop,
  calltest_iteration_interval, max_ns,
}

pub call_tester_add_entry-IsGrowing :
    (fresh : CallTester) (path : Option (List ℕ)) (cts : List CallTester) (n : ℕ)
    → IsGrowing tester_number cts
    → IsGrowing tester_number (call_tester_add_entry fresh path cts n)
unfolding call_tester_add_entry call_tester_by_friend_number
call_tester_add_entry-IsGrowing fresh none cts n g = ground (arith, g)
call_tester_add_entry-IsGrowing fresh (some path) cts n g =
    elim (Option-cases (find_index (has_key tester_number n) cts)) [
      | inl missing ↦
          rw (missing, call_tester_add_entry)
            (insert_by-IsGrowing tester_number (new_tester fresh n path) cts g
              (unfold new_tester in find_index-none (has_key tester_number n) cts missing))
      | inr (i, found) ↦ rw (found, call_tester_add_entry) g
    ]

record_if_recording-number :
    (junk : ℕ) (pcm : List ℕ) (count channels rate : ℕ) (ct : CallTester)
    → tester_number (record_if_recording junk pcm count channels rate ct) ≡ tester_number ct
unfolding record_if_recording
record_if_recording-number junk pcm count channels rate ct = ground arith

modify_found-IsGrowing :
    (f : CallTester → CallTester) (cts : List CallTester) (o : Option ℕ)
    → ((ct : CallTester) → tester_number (f ct) ≡ tester_number ct)
    → IsGrowing tester_number cts
    → IsGrowing tester_number (elim o [ none ↦ cts | some i ↦ modify i f cts ])
modify_found-IsGrowing f cts none keep g = g
modify_found-IsGrowing f cts (some i) keep g = modify-IsGrowing tester_number f cts i keep g

-- A frame of sound keeps the testers ordered by friend number, with no two for one friend.
pub audio_receive_frame-IsGrowing :
    (junk : ℕ) (cts : List CallTester) (n : ℕ) (pcm : List ℕ) (count channels rate : ℕ)
    → IsGrowing tester_number cts
    → IsGrowing tester_number (audio_receive_frame junk cts n pcm count channels rate)
unfolding audio_receive_frame
audio_receive_frame-IsGrowing junk cts n pcm count channels rate g =
    modify_found-IsGrowing (record_if_recording junk pcm count channels rate) cts
      (call_tester_by_friend_number cts n) (record_if_recording-number junk pcm count channels rate)
      g

-- A change of the state of a call keeps the testers ordered by friend number, with no two for one
-- friend, whichever bits the state has.
pub call_state-IsGrowing :
    (av : Toxav) (fresh : CallTester) (path : Option (List ℕ)) (s : av.State)
    (cts : List CallTester) (n : ℕ) (state : CallState)
    → IsGrowing tester_number cts
    → IsGrowing tester_number (call_state av fresh path s cts n state).1
unfolding call_state
call_state-IsGrowing av fresh path s cts n state g = ground (
  arith,
  g,
  call_tester_add_entry-IsGrowing fresh path cts n g,
  modify_found-IsGrowing (λ ct. record ct { step = bye }) cts (call_tester_by_friend_number cts n)
      (λ ct. refl) g,
)

interval_loop_le : (l : ℕ) (cts : List CallTester) → interval_loop l cts ≤ l
unfolding interval_loop
interval_loop_le l [] = omega arith
interval_loop_le l (ct ∷ cts) = elim (Bool-cases (ltb l ct.delay)) [
  | inl e ↦ rw e (interval_loop_le l cts)
  | inr e ↦ rw e (omega (arith, interval_loop_le ct.delay cts, not-ltb→le l ct.delay e))
]

interval_loop_all :
    (n l : ℕ) (cts : List CallTester) → n ≤ interval_loop l cts → All (λ ct. n ≤ ct.delay) cts
unfolding interval_loop
interval_loop_all n l [] h = tt
interval_loop_all n l (ct ∷ cts) h = ground (
  arith,
  interval_loop_le l cts,
  interval_loop_le ct.delay cts,
  interval_loop_all n l cts,
  interval_loop_all n ct.delay cts,
)

-- The pause until the next iteration is at most 999999999 ns and at most the delay of each tester.
pub calltest_iteration_interval_bounds :
    (cts : List CallTester)
    → (calltest_iteration_interval cts ≤ max_ns)
      × All (λ ct. calltest_iteration_interval cts ≤ ct.delay) cts
unfolding calltest_iteration_interval
calltest_iteration_interval_bounds cts = (
  interval_loop_le max_ns cts,
  interval_loop_all (interval_loop max_ns cts) max_ns cts (omega arith),
)
