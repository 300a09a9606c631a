-- ===== src/Pacemaker.antt =====
-- src/stage/pacemaker/fixed_inflight_blk.rs: FixedInflightBlkPaceMaker. A `usize` has 64 bits and wraps,
-- as in a release build.
use cbox.Base.{
  ℕ, ◌+◌, ◌-◌, ◌^◌, ◌%◌, ◌<◌, List, [], ◌∷◌, Bool, not, ◌≡◌, ◌==◌, nat_eq, if◌then◌else◌, arith,
}

pub record State : Type 0 where
  pub quota : ℕ

unfoldable pub new : ℕ → State
new max_inflight_blk = record { quota = max_inflight_blk }

-- Whether `wait_to_propose` returns.
unfoldable pub may_propose : State → Bool
may_propose s = not (s.quota == 0)

-- The message is empty.
unfoldable pub get_propose_msg : State → State × List ℕ
get_propose_msg s = (record s { quota = (s.quota + (2 ^ 64 - 1)) % 2 ^ 64 }, [])

unfoldable pub handle_feedback : State → List ℕ → State
handle_feedback s feedback = record s { quota = (s.quota + 1) % 2 ^ 64 }

-- What reaches the stage: feedback, or the turn of its loop to propose, which it takes when it may.
pub data Event : Type 0 where
  feedback : List ℕ → Event
  propose : Event

-- The state after an event, and how many blocks are then in flight.
unfoldable pub on_event : State × ℕ → Event → State × ℕ
on_event (s, inflight) (Event.feedback msg) = (handle_feedback s msg, inflight - 1)
on_event (s, inflight) Event.propose =
    if may_propose s then ((get_propose_msg s).0, inflight + 1) else (s, inflight)

unfoldable pub run : State × ℕ → List Event → State × ℕ
run p [] = p
run p (e ∷ es) = run (on_event p e) es

-- Every feedback is for a block in flight.
abbrev pub Answers : State × ℕ → List Event → Type 0
Answers p [] = Unit
Answers p (Event.feedback msg ∷ es) = (0 < p.1) × Answers (on_event p (Event.feedback msg)) es
Answers p (Event.propose ∷ es) = Answers (on_event p Event.propose) es

on_event_lem :
    (max : ℕ) (s : State) (inflight : ℕ) (e : Event)
    → max < 2 ^ 64
    → s.quota + inflight ≡ max
    → Answers (s, inflight) (e ∷ [])
    → (on_event (s, inflight) e).0.quota + (on_event (s, inflight) e).1 ≡ max
unfolding on_event handle_feedback get_propose_msg may_propose
on_event_lem max s inflight (Event.feedback msg) small total answers = omega arith
on_event_lem max s inflight Event.propose small total answers = ground arith

-- From the start on, as long as every feedback is for a block in flight, the quota and the number of
-- blocks in flight add up to the maximum, which fits 64 bits: never more than that many are in flight.
pub run_quota :
    (max : ℕ) (es : List Event) (s : State) (inflight : ℕ)
    → max < 2 ^ 64
    → s.quota + inflight ≡ max
    → Answers (s, inflight) es
    → (run (s, inflight) es).0.quota + (run (s, inflight) es).1 ≡ max
unfolding run
run_quota max [] s inflight small total answers = total
run_quota max (Event.feedback msg ∷ es) s inflight small total answers =
    run_quota max es (on_event (s, inflight) (Event.feedback msg)).0
      (on_event (s, inflight) (Event.feedback msg)).1 small
      (on_event_lem max s inflight (Event.feedback msg) small total (answers.0, tt)) answers.1
run_quota max (Event.propose ∷ es) s inflight small total answers =
    run_quota max es (on_event (s, inflight) Event.propose).0
      (on_event (s, inflight) Event.propose).1 small
      (on_event_lem max s inflight Event.propose small total tt) answers
