-- ===== src/TimeQueue.antt =====
-- src/utils/time_queue.rs: TimeQueue, a queue of events by the time at which they are due, which
-- keeps the order of those due at one time. The waiting of `wait_next` on `notify` is left out.
use mathlib.Core.List.{reverse, reverse-cons, reverse-reverse, reverse-append}
use cbox.Base.{
  ℕ, ◌≤◌, ◌<◌, List, [], ◌∷◌, ◌++◌, Option, none, some, Bool, ◌≡◌, refl, sym, ap, ◌∙◌, Outcome, ok,
  err, if◌then◌else◌, ltb, Eq, ◌==◌, arith, All, All-append, All-map, append_assoc, Bool-cases, inl,
  inr, CopycatError, subst,
}

pub record TimeEvent (A : Type 0) : Type 0 where
  pub item : A
  pub time : ℕ

module _ {A : Type 0} where
  -- The loop of `push` from the back of the queue, with the insertion at the index that it finds.
  unfoldable pub push_back : TimeEvent A → List (TimeEvent A) → List (TimeEvent A)
  push_back e [] = e ∷ []
  push_back e (last ∷ rest) =
      let rest' = push_back e rest in if ltb e.time last.time then last ∷ rest' else e ∷ last ∷ rest

  unfoldable pub push : List (TimeEvent A) → A → ℕ → List (TimeEvent A)
  push q item time = reverse (push_back (record { item = item; time = time }) (reverse q))

  unfoldable pub pop : List (TimeEvent A) → List (TimeEvent A) × Option A
  pop [] = ([], none)
  pop (e ∷ q) = (q, some e.item)

  -- Whether `wait_next` returns at this time.
  unfoldable pub is_due : ℕ → List (TimeEvent A) → Outcome Bool
  is_due now [] = err (CopycatError.copycat_error "waiting on empty time queue")
  is_due now (e ∷ q) = ok (ltb e.time now)

  module _ ⦃e : Eq A⦄ where
    unfoldable pub remove : A → List (TimeEvent A) → List (TimeEvent A) × Option A
    remove item [] = ([], none)
    remove item (te ∷ q) =
        let (q', found) = remove item q in
        if te.item == item then (q, some te.item) else (te ∷ q', found)

  abbrev pub IsSorted : List (TimeEvent A) → Type 0
  IsSorted [] = Unit
  IsSorted (e ∷ q) = All (λ f. e.time ≤ f.time) q × IsSorted q

  All-split :
      (P : TimeEvent A → Type 0) (xs ys : List (TimeEvent A))
      → All P (xs ++ ys)
      → All P xs × All P ys
  All-split P [] ys h = (tt, h)
  All-split P (x ∷ xs) ys h = let (l, r) = All-split P xs ys h.1 in ((h.0, l), r)

  IsSorted-before :
      (xs ys : List (TimeEvent A)) (y : TimeEvent A)
      → IsSorted (xs ++ y ∷ ys)
      → All (λ x. x.time ≤ y.time) xs
  IsSorted-before [] ys y sorted = tt
  IsSorted-before (x ∷ xs) ys y sorted = (
    (All-split (λ f. x.time ≤ f.time) xs (y ∷ ys) sorted.0).1.0,
    IsSorted-before xs ys y sorted.1,
  )

  IsSorted-insert :
      (xs ys : List (TimeEvent A)) (e : TimeEvent A)
      → IsSorted (xs ++ ys)
      → All (λ x. x.time ≤ e.time) xs
      → All (λ y. e.time ≤ y.time) ys
      → IsSorted (xs ++ e ∷ ys)
  IsSorted-insert [] ys e sorted before after = (after, sorted)
  IsSorted-insert (x ∷ xs) ys e sorted before after =
      let (l, r) = All-split (λ f. x.time ≤ f.time) xs ys sorted.0 in
      (
        All-append (λ f. x.time ≤ f.time) xs (e ∷ ys) l (before.0, r),
        IsSorted-insert xs ys e sorted.1 before.1 after,
      )

  -- Where the walk from the back stops.
  abbrev Stops : TimeEvent A → List (TimeEvent A) → Type 0
  Stops e [] = Unit
  Stops e (x ∷ xs) = x.time ≤ e.time

  push_back-split :
      (e : TimeEvent A) (q : List (TimeEvent A))
      → (later : List (TimeEvent A)) × (earlier : List (TimeEvent A)) × (q ≡ later ++ earlier)
        × (push_back e q ≡ later ++ e ∷ earlier)
        × All (λ f. e.time < f.time) later
        × Stops e earlier
  unfolding push_back
  push_back-split e [] = ([], [], refl, refl, tt, tt)
  push_back-split e (x ∷ q) = elim (Bool-cases (ltb e.time x.time)) [
    | inl before ↦
        let (later, earlier, is, pushes, all, stops) = push_back-split e q in
        (
          x ∷ later,
          earlier,
          ap (λ r. x ∷ r) is,
          rw before (ap (λ r. x ∷ r) pushes),
          (ground arith, all),
          stops,
        )
    | inr not_before ↦ ([], x ∷ q, refl, rw not_before refl, tt, ground arith)
  ]

  All-reverse : (P : TimeEvent A → Type 0) (xs : List (TimeEvent A)) → All P xs → All P (reverse xs)
  All-reverse P [] h = tt
  All-reverse P (x ∷ xs) h =
      rw (reverse-cons x xs) (All-append P (reverse xs) (x ∷ []) (All-reverse P xs h.1) (h.0, tt))

  Stops-before :
      (e : TimeEvent A) (earlier ys : List (TimeEvent A))
      → Stops e earlier
      → IsSorted (reverse earlier ++ ys)
      → All (λ x. x.time ≤ e.time) (reverse earlier)
  Stops-before e [] ys stops sorted = tt
  Stops-before e (x ∷ xs) ys stops sorted =
      let sorted' : IsSorted (reverse xs ++ x ∷ ys) =
        subst IsSorted
          (ap (λ r. r ++ ys) (reverse-cons x xs) ∙ append_assoc (reverse xs) (x ∷ []) ys) sorted in
      rw (reverse-cons x xs) (
        All-append (λ y. y.time ≤ e.time) (reverse xs) (x ∷ [])
          (All-map (λ y. y.time ≤ x.time) (λ y. y.time ≤ e.time) (reverse xs) (λ y h. omega arith)
            (IsSorted-before (reverse xs) ys x sorted'))
          (stops, tt))

  -- Pushing onto a sorted queue puts the event after all those that are due no later, and before all
  -- those that are due later, which keep their orders; the queue stays sorted.
  pub push_lem :
      (q : List (TimeEvent A)) (item : A) (time : ℕ)
      → IsSorted q
      → (earlier : List (TimeEvent A)) × (later : List (TimeEvent A)) × (q ≡ earlier ++ later)
        × (push q item time ≡ earlier ++ record { item = item; time = time } ∷ later)
        × All (λ e. e.time ≤ time) earlier
        × All (λ e. time < e.time) later
        × IsSorted (push q item time)
  unfolding push
  push_lem q item time sorted =
      let e : TimeEvent A = record { item = item; time = time } in
      let (later, earlier, is, pushes, all, stops) = push_back-split e (reverse q) in
      let split : q ≡ reverse earlier ++ reverse later =
        sym (reverse-reverse q) ∙ ap reverse is ∙ reverse-append later earlier in
      let pushed : push q item time ≡ reverse earlier ++ e ∷ reverse later =
        ap reverse pushes
        ∙ reverse-append later (e ∷ earlier)
        ∙ ap (λ r. r ++ reverse later) (reverse-cons e earlier)
        ∙ append_assoc (reverse earlier) (e ∷ []) (reverse later) in
      let before = Stops-before e earlier (reverse later) stops (subst IsSorted split sorted) in
      let after = All-reverse (λ f. time < f.time) later all in
      (
        reverse earlier,
        reverse later,
        split,
        pushed,
        before,
        after,
        subst IsSorted (sym pushed) (
            IsSorted-insert (reverse earlier) (reverse later) e (subst IsSorted split sorted) before
              (All-map (λ f. time < f.time) (λ f. time ≤ f.time) (reverse later)
                (λ y h. omega arith) after)),
      )
