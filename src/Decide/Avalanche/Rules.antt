-- ===== src/Decide/Avalanche/Rules.antt =====
-- How the two decisions count the rounds of a conflict set: basic.rs counts those in a row of one
-- transaction, blizzard.rs all of them.
use cbox.Base.{ℕ, ◌+◌, ◌-◌, ◌%◌, ◌^◌, Option, none, some, ◌==◌, nat_eq, if◌then◌else◌, ltb, leb}
use cbox.Protocol.{Hash}
use cbox.Decide.Avalanche.{Rule}

-- `last` and `count` of a conflict set of basic.rs.
pub record Streak : Type 0 where
  pub last : Option Hash
  pub count : ℕ

unfoldable pub extend_streak : Hash → Streak → Streak
extend_streak txn_id streak = elim streak.last [
  | none ↦ record { last = some txn_id; count = 1 }
  | some last ↦
      if txn_id == last
      then record streak { count = streak.count + 1 }
      else record { last = some txn_id; count = 1 }
]

abbrev pub basic : Rule Streak
basic = record {
  start = record { last = none; count = 0 };
  visit = extend_streak;
  begin = λ score. score;
  weigh = λ score streak count. if ltb streak.count count then streak.count else count;
  reaches = λ score count beta. leb beta count;
  reset = some (λ streak. record streak { count = 0 });
}

-- `conflict_count += ct.total_rounds - confidence_score` of `u64`s.
unfoldable pub add_others : ℕ → ℕ → ℕ → ℕ
add_others score total_rounds conflict_count =
    (conflict_count + (total_rounds + 2 ^ 64 - score) % 2 ^ 64) % 2 ^ 64

abbrev pub blizzard : Rule ℕ
blizzard = record {
  start = 0;
  visit = λ txn_id total_rounds. total_rounds + 1;
  begin = λ score. 0;
  weigh = add_others;
  reaches = λ score conflict_count beta. leb ((beta + conflict_count) % 2 ^ 64) score;
  reset = none;
}
