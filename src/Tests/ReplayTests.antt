-- ===== src/Tests/ReplayTests.antt =====
-- A guard of two messages over a run of five.
use strongwiz.Base.{
  string_eq, String_discrete, Option_discrete, ℕ_discrete, ◌≡◌, refl, String, List, [], ◌∷◌, none,
  arith,
}
use strongwiz.Base.Map.{empty, insert}
use strongwiz.Base.Result.{ok, err}
use strongwiz.Transport.Frame.{duplicate_frame, identity_reuse, payload_replay}
use strongwiz.Transport.Replay.{
  Message, ReplayGuard, digest_of, new_guard, expire, evict, remember, check_new, check_and_record,
}
use strongwiz.Transport.Window.{owner, Apart, keep_last, IsSound}
use strongwiz.Transport.History.{Recorded, check_and_record-Recorded, run, run-new_guard}

abbrev one : String
one = "1111111111111111111111111111111111111111111111111111111111111111"

abbrev two : String
two = "2222222222222222222222222222222222222222222222222222222222222222"

abbrev three : String
three = "3333333333333333333333333333333333333333333333333333333333333333"

abbrev start : ReplayGuard
start = record { capacity = 2; by_identity = []; by_digest = empty }

start-IsSound : IsSound start
unfolding owner
start-IsSound = record {
  capacity_pos = omega arith;
  bounded = omega arith;
  apart = tt;
  inverse = λ _. refl;
}

start_made : new_guard 2 ≡ ok start
unfolding new_guard strongwiz.Base.ℕ_discrete
start_made = refl

check_and_record-Recorded_example : Recorded start ("a", one) (check_and_record "a" one start)
check_and_record-Recorded_example = check_and_record-Recorded start "a" one start-IsSound

abbrev calls : List Message
calls = ("a", one) ∷ ("a", two) ∷ ("b", one) ∷ ("b", two) ∷ ("c", three) ∷ ("a", one) ∷ []

run-new_guard_example :
    ((run calls start).1.by_identity ≡ keep_last 2 (run calls start).0)
    × Apart (keep_last 2 (run calls start).0)
run-new_guard_example = run-new_guard 2 calls start start_made

-- a window of two, where a new message drives the oldest out of both maps
abbrev full : ReplayGuard
full = record {
  capacity = 2;
  by_identity = ("a", one) ∷ ("b", two) ∷ [];
  by_digest = insert two "b" (insert one "a" empty);
}

full_remembers : (remember "c" three full).by_identity ≡ ("b", two) ∷ ("c", three) ∷ []
unfolding remember evict expire
full_remembers = refl

full_forgets : (remember "c" three full).by_digest one ≡ none
unfolding remember evict expire String_discrete Option_discrete
full_forgets = refl

full_refuses :
    (check_new "a" one full ≡ err duplicate_frame)
    × (check_new "a" three full ≡ err identity_reuse)
    × (check_new "c" two full ≡ err payload_replay)
    × (check_new "c" three full ≡ ok tt)
unfolding check_new digest_of String_discrete
full_refuses = (refl, refl, refl, refl)
