-- ===== src/Base/Departures.antt =====
-- Keys that have left a table for good: a list without repetition of keys that are in an archive, and
-- not in the table, into which nothing comes that is in the archive.
use mathlib.Core.Path.{◌≡◌, sym, ◌∙◌, subst}
use mathlib.Core.Logic.{inl, inr}
use mathlib.Core.Bool.{true, false}
use mathlib.Core.Option.{none}
use mathlib.Core.List.{List, ◌++◌}
use native.Mathlib.Omega.{arith}
use cbox.Base.Tests.{Bool-cases}
use cbox.Base.Equality.{Eq, ◌==◌, eq→path}
use cbox.Base.HashMap.{HashMap, get, get-insert}
use cbox.Base.HashMap
use cbox.Base.HashSet.{contains, contains-append, IsDistinct, IsDistinct-append}

module _ {K V W : Type 0} ⦃e : Eq K⦄ where
  pub record Departed (table : HashMap K V) (archive : HashMap K W) (all : List K) : Type 0 where
    pub distinct : IsDistinct all
    pub gone : (h : K) → contains h all ≡ true → get h table ≡ none
    pub known : (h : K) → contains h all ≡ true → ¬ (get h archive ≡ none)
    pub pooled : (h : K) → get h archive ≡ none → get h table ≡ none

  -- More keys leave the table.
  pub Departed-leave :
      (table table' : HashMap K V) (archive : HashMap K W) (all more : List K)
      → Departed table archive all
      → IsDistinct more
      → ((h : K) → contains h more ≡ true → ¬ (get h table ≡ none))
      → ((h : K) → contains h more ≡ true → get h table' ≡ none)
      → ((h : K) → get h table ≡ none → get h table' ≡ none)
      → Departed table' archive (all ++ more)
  Departed-leave table table' archive all more was distinct were gone kept = record {
    distinct = IsDistinct-append all more was.distinct distinct (λ h mem.
        elim (Bool-cases (contains h more)) [
          | inl again ↦ absurd (were h again (was.gone h mem))
          | inr new ↦ new
        ]);
    gone = λ h mem. elim (Bool-cases (contains h more)) [
      | inl now ↦ gone h now
      | inr other ↦ kept h (was.gone h (earlier h mem other))
    ];
    known = λ h mem missing. elim (Bool-cases (contains h more)) [
      | inl now ↦ were h now (was.pooled h missing)
      | inr other ↦ was.known h (earlier h mem other) missing
    ];
    pooled = λ h missing. kept h (was.pooled h missing);
  }
    where
      earlier :
          (h : K)
          → contains h (all ++ more) ≡ true
          → contains h more ≡ false
          → contains h all ≡ true
      earlier h mem other = ground (arith, contains-append h all more, mem, other)

  -- A key that was not in the archive enters both.
  pub Departed-enter :
      (table table' : HashMap K V) (archive : HashMap K W) (all : List K) (x : K) (entry : W)
      → get x archive ≡ none
      → ((h : K) → (x == h) ≡ false → get h table ≡ none → get h table' ≡ none)
      → Departed table archive all
      → Departed table' (HashMap.insert x entry archive) all
  Departed-enter table table' archive all x entry fresh kept was = record {
    distinct = was.distinct;
    gone = λ h mem. kept h (not_x h mem) (was.gone h mem);
    known = λ h mem missing. was.known h mem (before h missing).1;
    pooled =
        λ h missing. let (differs, out) = before h missing in kept h differs (was.pooled h out);
  }
    where
      not_x : (h : K) → contains h all ≡ true → (x == h) ≡ false
      not_x h mem = elim (Bool-cases (x == h)) [
        | inl same ↦
            absurd (was.known h mem (subst (λ k. get k archive ≡ none) (eq→path x h same) fresh))
        | inr differs ↦ differs
      ]

      before :
          (h : K)
          → get h (HashMap.insert x entry archive) ≡ none
          → ((x == h) ≡ false) × (get h archive ≡ none)
      before h missing = elim (Bool-cases (x == h)) [
        | inl same ↦ cc (sym (get-insert x h entry archive) ∙ missing, same)
        | inr differs ↦ (differs, rw differs at (sym (get-insert x h entry archive) ∙ missing))
      ]
